-- ===== src/Proto/Total.antt =====
-- The protobuf parsers end on every input: no loop runs out of fuel.
use tilt_common.Proto.{
  add_name, entry_name_round, type_names_round, pprof_round, Consumed, took, bad, Protowire, expect,
  bytes_type, entry_name_loop, parse_profile_type_entry_name, type_names_loop,
  parse_profile_type_names_proto, pprof_loop, parse_query_response_pprof_proto,
}
use tilt_common.Base.{
  ℕ, zero, suc, ◌≤◌, ◌<◌, ◌≡◌, ◌≢◌, refl, ◌&&◌, inl, inr, List, [], ◌∷◌, ◌==◌, Bool-cases, arith,
  Bytes, length, drop, length-drop,
}
use tilt_common.Base.Int.{ℤ}
use tilt_common.Errors.{
  Fault, types_tag, types_field, types_entry, entry_tag, entry_name, entry_field, response_tag,
  response_pprof, response_field, Result, ok, err, stuck, ◌>>=◌,
}
use tilt_common.Proto.Wire.{IsProtowire}

bind-ne-stuck :
    {A B : Type 0} (r : Result A) (k : A → Result B)
    → r ≢ stuck
    → ((a : A) → k a ≢ stuck)
    → (r >>= k) ≢ stuck
bind-ne-stuck (ok a) k h hk = hk a
bind-ne-stuck (err e) k h hk = λ p. cc
bind-ne-stuck stuck k h hk = absurd (h refl)

expect-ne-stuck :
    {A B : Type 0} (f : ℤ → Fault) (c : Consumed A) (k : A × ℕ → Result B)
    → ((a : A) (n : ℕ) → c ≡ took a n → k (a, n) ≢ stuck)
    → (expect f c >>= k) ≢ stuck
expect-ne-stuck f (took a n) k h = h a n refl
expect-ne-stuck f (bad n) k h = λ p. cc

expect-ok-ne-stuck :
    {A : Type 0} (f : ℤ → Fault) (c : Consumed A) → (expect f c >>= λ x. ok x.0) ≢ stuck
expect-ok-ne-stuck f (took a n) = λ p. cc
expect-ok-ne-stuck f (bad n) = λ p. cc

module _ (P : Protowire) (law : IsProtowire P) where
  abbrev Shorter : Bytes → Bytes → Type 0
  Shorter r s = length r < length s

  shorter :
      (s : Bytes) (x : ℕ × ℕ) (n k : ℕ)
      → 0 < length s
      → P.consume_tag s ≡ took x n
      → Shorter (drop k (drop n s)) s
  shorter s x n k h e =
      omega (arith, law.tag_takes s x n e, length-drop k (drop n s), length-drop n s)

  module _ (s : Bytes) (h : 0 < length s) where
    entry_name_round-ne-stuck :
        (next : Bytes → Result Bytes)
        → ((r : Bytes) → Shorter r s → next r ≢ stuck)
        → entry_name_round P next s ≢ stuck
    unfolding entry_name_round
    entry_name_round-ne-stuck next ih = expect-ne-stuck entry_tag (P.consume_tag s) _ λ x n e.
        elim (Bool-cases (x.0 == 1 && x.1 == bytes_type)) [
          | inl t ↦ rw t (expect-ok-ne-stuck entry_name (P.consume_bytes (drop n s)))
          | inr t ↦ rw t (
              expect-ne-stuck entry_field (P.consume_field_value x.0 x.1 (drop n s))
                (λ y. next (drop y.1 (drop n s))) λ u skip e'. ih _ (shorter s x n skip h e))
        ]

    pprof_round-ne-stuck :
        (next : Bytes → Result Bytes)
        → ((r : Bytes) → Shorter r s → next r ≢ stuck)
        → pprof_round P next s ≢ stuck
    unfolding pprof_round
    pprof_round-ne-stuck next ih = expect-ne-stuck response_tag (P.consume_tag s) _ λ x n e.
        elim (Bool-cases (x.0 == 6 && x.1 == bytes_type)) [
          | inl t ↦ rw t (expect-ok-ne-stuck response_pprof (P.consume_bytes (drop n s)))
          | inr t ↦ rw t (
              expect-ne-stuck response_field (P.consume_field_value x.0 x.1 (drop n s))
                (λ y. next (drop y.1 (drop n s))) λ u skip e'. ih _ (shorter s x n skip h e))
        ]

  entry_name_loop-ne-stuck :
      (fuel : ℕ) (msg : Bytes) → length msg ≤ fuel → entry_name_loop P fuel msg ≢ stuck
  unfolding entry_name_loop
  entry_name_loop-ne-stuck fuel [] h = λ p. cc
  entry_name_loop-ne-stuck zero (b ∷ msg) h = absurd (omega arith)
  entry_name_loop-ne-stuck (suc fuel) (b ∷ msg) h =
      entry_name_round-ne-stuck (b ∷ msg) (omega arith) (entry_name_loop P fuel)
        λ r k. entry_name_loop-ne-stuck fuel r (omega arith)

  pub entry_name-ne-stuck : (msg : Bytes) → parse_profile_type_entry_name P msg ≢ stuck
  unfolding parse_profile_type_entry_name
  entry_name-ne-stuck msg = entry_name_loop-ne-stuck (length msg) msg (omega arith)

  type_names_round-ne-stuck :
      (s : Bytes) (names : List Bytes) (next : Bytes → List Bytes → Result (List Bytes))
      → 0 < length s
      → ((r : Bytes) (more : List Bytes) → Shorter r s → next r more ≢ stuck)
      → type_names_round P next s names ≢ stuck
  unfolding type_names_round
  type_names_round-ne-stuck s names next h ih =
      expect-ne-stuck types_tag (P.consume_tag s) _ λ x n e.
        elim (Bool-cases (x.0 == 1 && x.1 == bytes_type)) [
          | inl t ↦ rw t (
              expect-ne-stuck types_entry (P.consume_bytes (drop n s))
                (λ y. parse_profile_type_entry_name P y.0 >>= λ name.
                  next (drop y.1 (drop n s)) (add_name names name))
                λ msg m e'.
                  bind-ne-stuck (parse_profile_type_entry_name P msg)
                    (λ name. next (drop m (drop n s)) (add_name names name))
                    (entry_name-ne-stuck msg) λ name. ih _ _ (shorter s x n m h e))
          | inr t ↦ rw t (
              expect-ne-stuck types_field (P.consume_field_value x.0 x.1 (drop n s))
                (λ y. next (drop y.1 (drop n s)) names)
                λ u skip e'. ih _ _ (shorter s x n skip h e))
        ]

  type_names_loop-ne-stuck :
      (fuel : ℕ) (payload : Bytes) (names : List Bytes)
      → length payload ≤ fuel
      → type_names_loop P fuel payload names ≢ stuck
  unfolding type_names_loop
  type_names_loop-ne-stuck fuel [] names h = λ p. cc
  type_names_loop-ne-stuck zero (b ∷ payload) names h = absurd (omega arith)
  type_names_loop-ne-stuck (suc fuel) (b ∷ payload) names h =
      type_names_round-ne-stuck (b ∷ payload) names (type_names_loop P fuel) (omega arith)
        λ r more k. type_names_loop-ne-stuck fuel r more (omega arith)

  pprof_loop-ne-stuck :
      (fuel : ℕ) (payload : Bytes) → length payload ≤ fuel → pprof_loop P fuel payload ≢ stuck
  unfolding pprof_loop
  pprof_loop-ne-stuck fuel [] h = λ p. cc
  pprof_loop-ne-stuck zero (b ∷ payload) h = absurd (omega arith)
  pprof_loop-ne-stuck (suc fuel) (b ∷ payload) h =
      pprof_round-ne-stuck (b ∷ payload) (omega arith) (pprof_loop P fuel)
        λ r k. pprof_loop-ne-stuck fuel r (omega arith)

  -- Given a protowire that takes a byte at least for a tag, and never more than there is, both
  -- parsers end on every input, malformed or not, with a value or an error of their own.
  pub proto_parsers-ne-stuck :
      (payload : Bytes)
      → (parse_profile_type_names_proto P payload ≢ stuck)
        × (parse_query_response_pprof_proto P payload ≢ stuck)
  unfolding parse_profile_type_names_proto parse_query_response_pprof_proto
  proto_parsers-ne-stuck payload = (
    type_names_loop-ne-stuck (length payload) payload [] (omega arith),
    pprof_loop-ne-stuck (length payload) payload (omega arith),
  )
