-- ===== src/Proto/Pprof.antt =====
-- `parseQueryResponsePprofProto` on the messages that a server writes.
use tilt_common.Base.{
  ℕ, zero, suc, ◌≤◌, ◌<◌, ◌≡◌, refl, ap, ◌∙◌, Bool, true, false, ◌&&◌, inl, inr, List, [], ◌∷◌,
  ◌++◌, ◌==◌, if◌then◌else◌, Bool-cases, arith, Bytes, All, length, drop-append,
}
use tilt_common.Errors.{
  Result, ok, err, fault, pprof_not_found, response_tag, response_field, response_pprof,
}
use tilt_common.Proto.{
  Protowire, bytes_type, pprof_round, pprof_loop, parse_query_response_pprof_proto,
}
use tilt_common.Proto.Wire.{
  IsProtowire, Field, varint_field, bytes_field, IsField, number, wire_type_of, value, encode_field,
  encode_message, expect-bind, drop-tag, read_tag, read_value, message_rest_fits, message-pos,
}

-- The first field 6 of bytes of a query response.
unfoldable pub first_pprof : List Field → Result Bytes
first_pprof [] = err (fault pprof_not_found)
first_pprof (varint_field num v ∷ fs) = first_pprof fs
first_pprof (bytes_field num v ∷ fs) = if num == 6 then ok v else first_pprof fs

abbrev is_pprof : Field → Bool
is_pprof f = number f == 6 && wire_type_of f == bytes_type

module _ (P : Protowire) (law : IsProtowire P) where
  pprof_round_skip :
      (next : Bytes → Result Bytes) (f : Field) (rest : Bytes)
      → IsField f
      → is_pprof f ≡ false
      → pprof_round P next (encode_field P f ++ rest) ≡ next rest
  unfolding pprof_round
  pprof_round_skip next f rest h t =
      expect-bind response_tag _ (read_tag P law f rest h)
      ∙ rw (t, drop-tag P f rest)
          (expect-bind response_field _ (read_value P law f rest h)
            ∙ ap next (drop-append (value P f) rest))

  pprof_round_take :
      (next : Bytes → Result Bytes) (num : ℕ) (v rest : Bytes)
      → IsField (bytes_field num v)
      → is_pprof (bytes_field num v) ≡ true
      → pprof_round P next (encode_field P (bytes_field num v) ++ rest) ≡ ok v
  unfolding pprof_round
  pprof_round_take next num v rest h t =
      expect-bind response_tag _ (read_tag P law (bytes_field num v) rest h)
      ∙ rw (t, drop-tag P (bytes_field num v) rest)
          (expect-bind response_pprof _ (law.consume_bytes-append_bytes v rest h.1))

  pprof_loop_step :
      (fuel : ℕ) (s : Bytes)
      → 0 < length s
      → pprof_loop P (suc fuel) s ≡ pprof_round P (pprof_loop P fuel) s
  unfolding pprof_loop
  pprof_loop_step fuel [] h = absurd (omega arith)
  pprof_loop_step fuel (b ∷ s) h = refl

  pprof_loop-encode_message :
      (fuel : ℕ) (fs : List Field)
      → All IsField fs
      → length (encode_message P fs) ≤ fuel
      → pprof_loop P fuel (encode_message P fs) ≡ first_pprof fs
  unfolding encode_message first_pprof
  pprof_loop-encode_message fuel [] h k = unfold pprof_loop in refl
  pprof_loop-encode_message zero (f ∷ fs) h k = absurd (omega (arith, message-pos P law f fs h.0))
  pprof_loop-encode_message (suc fuel) (varint_field num v ∷ fs) h k =
      pprof_loop_step fuel _ (message-pos P law (varint_field num v) fs h.0)
      ∙ pprof_round_skip _ (varint_field num v) (encode_message P fs) h.0 (ground arith)
      ∙ pprof_loop-encode_message fuel fs h.1
          (message_rest_fits P law (varint_field num v) fs fuel h.0 k)
  pprof_loop-encode_message (suc fuel) (bytes_field num v ∷ fs) h k =
      pprof_loop_step fuel _ (message-pos P law (bytes_field num v) fs h.0)
      ∙ elim (Bool-cases (num == 6)) [
        | inl t ↦ rw t (pprof_round_take _ num v (encode_message P fs) h.0 (rw t))
        | inr t ↦ rw t (
            pprof_round_skip _ (bytes_field num v) (encode_message P fs) h.0 (rw t)
            ∙ pprof_loop-encode_message fuel fs h.1
                (message_rest_fits P law (bytes_field num v) fs fuel h.0 k))
      ]

  -- On a well-formed message `parseQueryResponsePprofProto` returns the bytes of the first field 6
  -- of bytes, and fails with "not found" if there is none.
  pub parse_query_response_pprof_proto-encode_message :
      (fs : List Field)
      → All IsField fs
      → parse_query_response_pprof_proto P (encode_message P fs) ≡ first_pprof fs
  unfolding parse_query_response_pprof_proto
  parse_query_response_pprof_proto-encode_message fs h =
      pprof_loop-encode_message _ fs h (omega arith)
