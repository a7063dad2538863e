-- ===== src/Proto.antt =====
-- The protobuf messages of cmd/observability-export/pprof.go: the parsers of the two responses and
-- the builder of the query request. google.golang.org/protobuf/encoding/protowire is a parameter.
pub mod Wire
pub mod Total
pub mod Names
pub mod Pprof
pub mod Query
use tilt_common.Base.{
  ℕ, zero, suc, ◌+◌, ◌*◌, ◌^◌, ◌≤◌, ◌<◌, ◌≡◌, Bool, true, false, ◌&&◌, List, [], ◌∷◌, ◌++◌, ◌==◌,
  if◌then◌else◌, Bytes, codes, is_empty, length, drop,
}
use tilt_common.Base.Int.{ℤ, pos, ltb_ℤ, to_u64, floor_div, floor_mod}
use tilt_common.Errors.{
  Fault, types_tag, types_field, types_entry, entry_tag, entry_name, entry_field, response_tag,
  response_pprof, response_field, pprof_not_found, fault, Result, ok, err, stuck, ◌>>=◌,
}

-- What a `Consume` function returns: a value and how many bytes it took, or a negative length.
pub data Consumed {ℓ} (A : Type ℓ) : Type ℓ where
  took : A → ℕ → Consumed A
  bad : ℤ → Consumed A

-- `protowire.VarintType` and `protowire.BytesType`
abbrev pub varint_type : ℕ
varint_type = 0

abbrev pub bytes_type : ℕ
bytes_type = 2

pub record Protowire : Type 0 where
  -- field number and wire type
  pub consume_tag : Bytes → Consumed (ℕ × ℕ)
  pub consume_bytes : Bytes → Consumed Bytes
  pub consume_field_value : ℕ → ℕ → Bytes → Consumed (Unit {0})
  pub append_tag : Bytes → ℕ → ℕ → Bytes
  pub append_varint : Bytes → ℕ → Bytes
  pub append_bytes : Bytes → Bytes → Bytes
  pub append_string : Bytes → Bytes → Bytes

-- `if n < 0 { return …, fmt.Errorf("…: %d", n) }`
abbrev pub expect {ℓ} : {A : Type ℓ} → (ℤ → Fault) → Consumed A → Result (A × ℕ)
expect f (took a n) = ok (a, n)
expect f (bad n) = err (fault (f n))

-- `if name != "" { names = append(names, name) }`
abbrev pub add_name : List Bytes → Bytes → List Bytes
add_name names name = if is_empty name then names else names ++ name ∷ []

-- A time is the number of nanoseconds since the epoch. `if t.Unix() < 0 { t = time.Unix(0, 0) }`
unfoldable pub not_before_epoch : ℤ → ℤ
unfolding floor_div
not_before_epoch t = if ltb_ℤ (floor_div t (10 ^ 9)) (pos 0) then pos 0 else t

module _ (P : Protowire) where
  -- One round of a loop, `next` being the rounds that follow. A round takes a byte at least, so the
  -- fuel of a loop is the length of its input.
  unfoldable pub entry_name_round : (Bytes → Result Bytes) → Bytes → Result Bytes
  entry_name_round next msg = do
    ((num, wire_type), n) ← expect entry_tag (P.consume_tag msg)
    let rest = drop n msg
    elim (num == 1 && wire_type == bytes_type) [
      | true ↦ do (name, m) ← expect entry_name (P.consume_bytes rest); ok name
      | false ↦ do
        (u, skip) ← expect entry_field (P.consume_field_value num wire_type rest)
        next (drop skip rest)
    ]

  unfoldable pub entry_name_loop : ℕ → Bytes → Result Bytes
  unfolding entry_name_round
  entry_name_loop fuel [] = ok []
  entry_name_loop zero (b ∷ msg) = stuck
  entry_name_loop (suc fuel) (b ∷ msg) = entry_name_round (entry_name_loop fuel) (b ∷ msg)

  unfoldable pub parse_profile_type_entry_name : Bytes → Result Bytes
  unfolding entry_name_loop
  parse_profile_type_entry_name msg = entry_name_loop (length msg) msg

  unfoldable pub type_names_round :
      (Bytes → List Bytes → Result (List Bytes)) → Bytes → List Bytes → Result (List Bytes)
  type_names_round next payload names = do
    ((num, wire_type), n) ← expect types_tag (P.consume_tag payload)
    let rest = drop n payload
    elim (num == 1 && wire_type == bytes_type) [
      | true ↦ do
        (msg, m) ← expect types_entry (P.consume_bytes rest)
        name ← parse_profile_type_entry_name msg
        next (drop m rest) (add_name names name)
      | false ↦ do
        (u, skip) ← expect types_field (P.consume_field_value num wire_type rest)
        next (drop skip rest) names
    ]

  unfoldable pub type_names_loop : ℕ → Bytes → List Bytes → Result (List Bytes)
  unfolding type_names_round
  type_names_loop fuel [] names = ok names
  type_names_loop zero (b ∷ payload) names = stuck
  type_names_loop (suc fuel) (b ∷ payload) names =
      type_names_round (type_names_loop fuel) (b ∷ payload) names

  unfoldable pub parse_profile_type_names_proto : Bytes → Result (List Bytes)
  unfolding type_names_loop parse_profile_type_entry_name
  parse_profile_type_names_proto payload = type_names_loop (length payload) payload []

  unfoldable pub pprof_round : (Bytes → Result Bytes) → Bytes → Result Bytes
  pprof_round next payload = do
    ((num, wire_type), n) ← expect response_tag (P.consume_tag payload)
    let rest = drop n payload
    elim (num == 6 && wire_type == bytes_type) [
      | true ↦ do (pprof, m) ← expect response_pprof (P.consume_bytes rest); ok pprof
      | false ↦ do
        (u, skip) ← expect response_field (P.consume_field_value num wire_type rest)
        next (drop skip rest)
    ]

  unfoldable pub pprof_loop : ℕ → Bytes → Result Bytes
  unfolding pprof_round
  pprof_loop fuel [] = err (fault pprof_not_found)
  pprof_loop zero (b ∷ payload) = stuck
  pprof_loop (suc fuel) (b ∷ payload) = pprof_round (pprof_loop fuel) (b ∷ payload)

  unfoldable pub parse_query_response_pprof_proto : Bytes → Result Bytes
  unfolding pprof_loop
  parse_query_response_pprof_proto payload = pprof_loop (length payload) payload

  unfoldable pub encode_timestamp_proto : ℤ → Bytes
  unfolding to_u64 floor_div floor_mod not_before_epoch
  encode_timestamp_proto t =
      let t' = not_before_epoch t in
      let b1 = P.append_tag [] 1 varint_type in
      let b2 = P.append_varint b1 (to_u64 (floor_div t' (10 ^ 9))) in
      let b3 = P.append_tag b2 2 varint_type in
      P.append_varint b3 (to_u64 (pos (floor_mod t' (10 ^ 9))))

  merge_profile : Bytes → Bytes → Bytes → Bytes
  merge_profile profile_type start_timestamp end_timestamp =
      let m1 = P.append_tag [] 1 bytes_type in
      let m2 = P.append_string m1 (profile_type ++ codes "{}") in
      let m3 = P.append_tag m2 2 bytes_type in
      let m4 = P.append_bytes m3 start_timestamp in
      let m5 = P.append_tag m4 3 bytes_type in P.append_bytes m5 end_timestamp

  unfoldable pub build_query_request_proto : Bytes → ℤ → Bytes
  unfolding merge_profile
  build_query_request_proto profile_type now =
      let merge =
        merge_profile profile_type (encode_timestamp_proto (pos 0)) (encode_timestamp_proto now) in
      let q1 = P.append_tag [] 1 varint_type in
      let q2 = P.append_varint q1 2 in
      let q3 = P.append_tag q2 3 bytes_type in
      let q4 = P.append_bytes q3 merge in
      let q5 = P.append_tag q4 5 varint_type in P.append_varint q5 1
