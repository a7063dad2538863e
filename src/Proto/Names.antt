-- ===== src/Proto/Names.antt =====
-- `parseProfileTypeNamesProto` on the messages that a server writes.
use tilt_common.Base.{
  Bool, Bool-cases, inl, inr, ℕ, zero, suc, ◌^◌, ◌≤◌, ◌<◌, ◌≡◌, refl, ap, ◌∙◌, true, false, ◌&&◌,
  List, [], ◌∷◌, ◌++◌, append-nil, append_assoc, map, ◌==◌, if◌then◌else◌, arith, Bytes, is_empty,
  All, length, drop-append,
}
use tilt_common.Proto.Wire.{
  message_rest_fits, message-pos, expect-bind, number, wire_type_of, value, drop-tag, read_tag,
  read_value, IsProtowire, Field, varint_field, bytes_field, IsField, encode_field, encode_message,
}
use tilt_common.Errors.{
  entry_tag, entry_name, entry_field, types_tag, types_entry, types_field, Result, ok,
}
use tilt_common.Proto.{
  add_name, entry_name_round, type_names_round, Protowire, bytes_type, entry_name_loop,
  parse_profile_type_entry_name, type_names_loop, parse_profile_type_names_proto,
}

-- The first field 1 of bytes, or nothing.
unfoldable pub first_name : List Field → Bytes
first_name [] = []
first_name (varint_field num v ∷ fs) = first_name fs
first_name (bytes_field num v ∷ fs) = if num == 1 then v else first_name fs

-- A part of a response: an entry with its fields, or a field that is no entry.
pub data Part : Type 0 where
  entry : List Field → Part
  other : Field → Part

-- The names of a response: of each entry the first field 1 of bytes, unless it is empty or missing.
unfoldable pub names_of : List Part → List Bytes
names_of [] = []
names_of (entry fs ∷ ps) =
    if is_empty (first_name fs) then names_of ps else first_name fs ∷ names_of ps
names_of (other f ∷ ps) = names_of ps

abbrev pub is_bytes_one : Field → Bool
is_bytes_one f = number f == 1 && wire_type_of f == bytes_type

-- The field that a part is on the wire.
abbrev pub part_field : Protowire → Part → Field
part_field P (entry fs) = bytes_field 1 (encode_message P fs)
part_field P (other f) = f

abbrev pub IsPart : Protowire → Part → Type 0
IsPart P (entry fs) = All IsField fs × (length (encode_message P fs) < 2 ^ 63)
IsPart P (other f) = IsField f × (is_bytes_one f ≡ false)

unfoldable pub encode_response : Protowire → List Part → Bytes
encode_response P ps = encode_message P (map (part_field P) ps)

module _ (P : Protowire) (law : IsProtowire P) where
  entry_name_round_skip :
      (next : Bytes → Result Bytes) (f : Field) (rest : Bytes)
      → IsField f
      → (number f == 1 && wire_type_of f == bytes_type) ≡ false
      → entry_name_round P next (encode_field P f ++ rest) ≡ next rest
  unfolding entry_name_round
  entry_name_round_skip next f rest h t =
      expect-bind entry_tag _ (read_tag P law f rest h)
      ∙ rw (t, drop-tag P f rest)
          (expect-bind entry_field _ (read_value P law f rest h)
            ∙ ap next (drop-append (value P f) rest))

  entry_name_round_take :
      (next : Bytes → Result Bytes) (num : ℕ) (name rest : Bytes)
      → IsField (bytes_field num name)
      → is_bytes_one (bytes_field num name) ≡ true
      → entry_name_round P next (encode_field P (bytes_field num name) ++ rest) ≡ ok name
  unfolding entry_name_round
  entry_name_round_take next num name rest h t =
      expect-bind entry_tag _ (read_tag P law (bytes_field num name) rest h)
      ∙ rw (t, drop-tag P (bytes_field num name) rest)
          (expect-bind entry_name _ (law.consume_bytes-append_bytes name rest h.1))

  entry_name_loop_step :
      (fuel : ℕ) (s : Bytes)
      → 0 < length s
      → entry_name_loop P (suc fuel) s ≡ entry_name_round P (entry_name_loop P fuel) s
  unfolding entry_name_loop
  entry_name_loop_step fuel [] h = absurd (omega arith)
  entry_name_loop_step fuel (b ∷ s) h = refl

  entry_name_loop-encode_message :
      (fuel : ℕ) (fs : List Field)
      → All IsField fs
      → length (encode_message P fs) ≤ fuel
      → entry_name_loop P fuel (encode_message P fs) ≡ ok (first_name fs)
  unfolding encode_message first_name
  entry_name_loop-encode_message fuel [] h k = unfold entry_name_loop in refl
  entry_name_loop-encode_message zero (f ∷ fs) h k =
      absurd (omega (arith, message-pos P law f fs h.0))
  entry_name_loop-encode_message (suc fuel) (varint_field num v ∷ fs) h k =
      entry_name_loop_step fuel _ (message-pos P law (varint_field num v) fs h.0)
      ∙ entry_name_round_skip _ (varint_field num v) (encode_message P fs) h.0 (ground arith)
      ∙ entry_name_loop-encode_message fuel fs h.1
          (message_rest_fits P law (varint_field num v) fs fuel h.0 k)
  entry_name_loop-encode_message (suc fuel) (bytes_field num v ∷ fs) h k =
      entry_name_loop_step fuel _ (message-pos P law (bytes_field num v) fs h.0)
      ∙ elim (Bool-cases (num == 1)) [
        | inl t ↦ rw t (entry_name_round_take _ num v (encode_message P fs) h.0 (rw t))
        | inr t ↦ rw t (
            entry_name_round_skip _ (bytes_field num v) (encode_message P fs) h.0 (rw t)
            ∙ entry_name_loop-encode_message fuel fs h.1
                (message_rest_fits P law (bytes_field num v) fs fuel h.0 k))
      ]

  pub entry_name-encode_message :
      (fs : List Field)
      → All IsField fs
      → parse_profile_type_entry_name P (encode_message P fs) ≡ ok (first_name fs)
  unfolding parse_profile_type_entry_name
  entry_name-encode_message fs h = entry_name_loop-encode_message _ fs h (omega arith)

  type_names_round_skip :
      (next : Bytes → List Bytes → Result (List Bytes)) (f : Field) (rest : Bytes)
      (names : List Bytes)
      → IsField f
      → is_bytes_one f ≡ false
      → type_names_round P next (encode_field P f ++ rest) names ≡ next rest names
  unfolding type_names_round
  type_names_round_skip next f rest names h t =
      expect-bind types_tag _ (read_tag P law f rest h)
      ∙ rw (t, drop-tag P f rest)
          (expect-bind types_field _ (read_value P law f rest h)
            ∙ ap (λ r. next r names) (drop-append (value P f) rest))

  type_names_round_take :
      (next : Bytes → List Bytes → Result (List Bytes)) (fs : List Field) (rest : Bytes)
      (names : List Bytes)
      → IsPart P (entry fs)
      → type_names_round P next (encode_field P (part_field P (entry fs)) ++ rest) names
        ≡ next rest (add_name names (first_name fs))
  unfolding type_names_round
  type_names_round_take next fs rest names h =
      expect-bind types_tag _ (read_tag P law (part_field P (entry fs)) rest (omega arith, h.1))
      ∙ rw (drop-tag P (part_field P (entry fs)) rest) (
          expect-bind types_entry _ (law.consume_bytes-append_bytes (encode_message P fs) rest h.1)
          ∙ rw (
            entry_name-encode_message fs h.0,
            drop-append (P.append_bytes [] (encode_message P fs)) rest,
          ))

  type_names_loop_step :
      (fuel : ℕ) (s : Bytes) (names : List Bytes)
      → 0 < length s
      → type_names_loop P (suc fuel) s names ≡ type_names_round P (type_names_loop P fuel) s names
  unfolding type_names_loop
  type_names_loop_step fuel [] names h = absurd (omega arith)
  type_names_loop_step fuel (b ∷ s) names h = refl

  part_field-IsField : (p : Part) → IsPart P p → IsField (part_field P p)
  part_field-IsField (entry fs) h = (omega arith, h.1)
  part_field-IsField (other f) h = h.0

  add_name-append :
      (names more : List Bytes) (name : Bytes)
      → add_name names name ++ more ≡ names ++ (if is_empty name then more else name ∷ more)
  add_name-append names more [] = refl
  add_name-append names more (c ∷ name) = append_assoc names ((c ∷ name) ∷ []) more

  type_names_loop-encode_response :
      (fuel : ℕ) (ps : List Part) (names : List Bytes)
      → All (IsPart P) ps
      → length (encode_response P ps) ≤ fuel
      → type_names_loop P fuel (encode_response P ps) names ≡ ok (names ++ names_of ps)
  unfolding encode_response encode_message names_of
  type_names_loop-encode_response fuel [] names h k = unfold type_names_loop in rw append-nil
  type_names_loop-encode_response zero (p ∷ ps) names h k = absurd (
      omega (
        arith,
        message-pos P law (part_field P p) (map (part_field P) ps) (part_field-IsField p h.0),
      ))
  type_names_loop-encode_response (suc fuel) (entry fs ∷ ps) names h k =
      type_names_loop_step fuel _ names (message-pos P law f qs hf)
      ∙ unfold encode_message in
        type_names_round_take _ fs (encode_message P qs) names h.0
        ∙ type_names_loop-encode_response fuel ps (add_name names (first_name fs)) h.1
            (message_rest_fits P law f qs fuel hf k)
        ∙ ap ok (add_name-append names (names_of ps) (first_name fs))
    where
      f : Field
      f = part_field P (entry fs)

      qs : List Field
      qs = map (part_field P) ps

      hf : IsField f
      hf = part_field-IsField (entry fs) h.0
  type_names_loop-encode_response (suc fuel) (other f ∷ ps) names h k =
      type_names_loop_step fuel _ names (message-pos P law f (map (part_field P) ps) h.0.0)
      ∙ unfold encode_message in
        type_names_round_skip _ f (encode_message P (map (part_field P) ps)) names h.0.0 h.0.1
        ∙ type_names_loop-encode_response fuel ps names h.1
            (message_rest_fits P law f (map (part_field P) ps) fuel h.0.0 k)

  -- On a well-formed response `parseProfileTypeNamesProto` returns, in order, the name of each entry
  -- that has one: the first field 1 of bytes of the entry, unless it is empty. Other fields, of the
  -- response and of its entries, are skipped.
  pub parse_profile_type_names_proto-encode_response :
      (ps : List Part)
      → All (IsPart P) ps
      → parse_profile_type_names_proto P (encode_response P ps) ≡ ok (names_of ps)
  unfolding parse_profile_type_names_proto
  parse_profile_type_names_proto-encode_response ps h =
      type_names_loop-encode_response _ ps [] h (omega arith)
