-- ===== src/Proto/Query.antt =====
-- `buildQueryRequestProto` and `encodeTimestampProto` as lists of fields.
use tilt_common.Proto.{
  not_before_epoch, Protowire, varint_type, bytes_type, encode_timestamp_proto, merge_profile,
  build_query_request_proto,
}
use tilt_common.Base.Int.{pos_part, ℤ, pos, negsuc}
use tilt_common.Proto.Wire.{
  encode_field, IsProtowire, Field, varint_field, bytes_field, encode_message,
}
use mathlib.Core.Path.{ap₂}
use tilt_common.Base.{
  ℕ, ◌*◌, ◌/◌, ◌%◌, ◌^◌, ◌<◌, ◌≡◌, ap, ◌∙◌, List, [], ◌∷◌, ◌++◌, append-nil, append_assoc, arith,
  Bytes, codes,
}

-- Seconds and nanoseconds since the epoch, both 0 for a time before it.
unfoldable pub timestamp_fields : ℤ → List Field
timestamp_fields (pos t) = varint_field 1 (t / 10 ^ 9) ∷ varint_field 2 (t % 10 ^ 9) ∷ []
timestamp_fields (negsuc t) = varint_field 1 0 ∷ varint_field 2 0 ∷ []

-- What Parca is asked for: mode MERGE (2) over the profile type's samples from the epoch to `now`,
-- and a report of type PPROF (1).
unfoldable pub request_fields : Protowire → Bytes → ℤ → List Field
request_fields P profile_type now =
    varint_field 1 2
    ∷ bytes_field 3 (
        encode_message P (
          bytes_field 1 (profile_type ++ codes "{}")
          ∷ bytes_field 2 (encode_message P (timestamp_fields (pos 0)))
          ∷ bytes_field 3 (encode_message P (timestamp_fields now))
          ∷ []))
    ∷ varint_field 5 1
    ∷ []

-- Before the year 292 277 026 596, as far as an int64 counts seconds.
abbrev pub IsTime : ℤ → Type 0
IsTime t = pos_part t < 2 ^ 63 * 10 ^ 9

not_before_epoch_pos : (t : ℕ) → not_before_epoch (pos t) ≡ pos t
unfolding not_before_epoch
not_before_epoch_pos t = ground arith

not_before_epoch_negsuc : (t : ℕ) → not_before_epoch (negsuc t) ≡ pos 0
unfolding not_before_epoch
not_before_epoch_negsuc t = ground arith

module _ (P : Protowire) (law : IsProtowire P) where
  append_varint_field :
      (b : Bytes) (num v : ℕ)
      → P.append_varint (P.append_tag b num varint_type) v
        ≡ b ++ encode_field P (varint_field num v)
  append_varint_field b num v =
      law.append_varint-append (P.append_tag b num varint_type) v
      ∙ ap (λ s. s ++ P.append_varint [] v) (law.append_tag-append b num varint_type)
      ∙ append_assoc b _ _

  append_bytes_field :
      (b : Bytes) (num : ℕ) (v : Bytes)
      → P.append_bytes (P.append_tag b num bytes_type) v ≡ b ++ encode_field P (bytes_field num v)
  append_bytes_field b num v =
      law.append_bytes-append (P.append_tag b num bytes_type) v
      ∙ ap (λ s. s ++ P.append_bytes [] v) (law.append_tag-append b num bytes_type)
      ∙ append_assoc b _ _

  two_fields : (f g : Field) → encode_field P f ++ encode_field P g ≡ encode_message P (f ∷ g ∷ [])
  unfolding encode_message
  two_fields f g = rw append-nil

  three_fields :
      (f g h : Field)
      → (encode_field P f ++ encode_field P g) ++ encode_field P h
        ≡ encode_message P (f ∷ g ∷ h ∷ [])
  unfolding encode_message
  three_fields f g h =
      append_assoc (encode_field P f) (encode_field P g) (encode_field P h) ∙ rw append-nil

  two_varints :
      (v w : ℕ)
      → P.append_varint
          (P.append_tag (P.append_varint (P.append_tag [] 1 varint_type) v) 2 varint_type)
          w
        ≡ encode_message P (varint_field 1 v ∷ varint_field 2 w ∷ [])
  two_varints v w =
      append_varint_field _ 2 w
      ∙ ap (λ b. b ++ encode_field P (varint_field 2 w)) (append_varint_field [] 1 v)
      ∙ two_fields (varint_field 1 v) (varint_field 2 w)

  encode_timestamp-encode_message :
      (t : ℤ) → IsTime t → encode_timestamp_proto P t ≡ encode_message P (timestamp_fields t)
  unfolding encode_timestamp_proto encode_message
  encode_timestamp-encode_message (pos t) h =
      rw (encode_timestamp_proto, not_before_epoch_pos t)
        (two_varints (t / 10 ^ 9 % 2 ^ 64) (t % 10 ^ 9 % 2 ^ 64)
          ∙ unfold timestamp_fields in
            ap₂ (λ v w. encode_message P (varint_field 1 v ∷ varint_field 2 w ∷ [])) (omega arith)
              (omega arith))
  encode_timestamp-encode_message (negsuc t) h =
      rw (encode_timestamp_proto, not_before_epoch_negsuc t)
        (unfold timestamp_fields in two_varints 0 0)

  merge_profile-encode_message :
      (profile_type start end : Bytes)
      → merge_profile P profile_type start end
        ≡ encode_message P (
            bytes_field 1 (profile_type ++ codes "{}")
            ∷ bytes_field 2 start
            ∷ bytes_field 3 end
            ∷ [])
  unfolding merge_profile
  merge_profile-encode_message profile_type start end =
      append_bytes_field _ 3 end
      ∙ ap (λ b. b ++ encode_field P (bytes_field 3 end))
          (append_bytes_field _ 2 start
            ∙ ap (λ b. b ++ encode_field P (bytes_field 2 start))
                (law.append_string-append_bytes _ _
                  ∙ append_bytes_field [] 1 (profile_type ++ codes "{}")))
      ∙ three_fields (bytes_field 1 (profile_type ++ codes "{}")) (bytes_field 2 start)
          (bytes_field 3 end)

  -- At a time that an int64 counts in seconds, the request that `buildQueryRequestProto` writes is
  -- the message with mode 2, the merge query over the samples of the profile type from the epoch to
  -- that time, or to the epoch if it lies before, and report type 1.
  pub build_query_request_proto-encode_message :
      (profile_type : Bytes) (now : ℤ)
      → IsTime now
      → build_query_request_proto P profile_type now
        ≡ encode_message P (request_fields P profile_type now)
  unfolding build_query_request_proto request_fields
  build_query_request_proto-encode_message profile_type now h =
      append_varint_field _ 5 1
      ∙ ap (λ b. b ++ encode_field P (varint_field 5 1))
          (append_bytes_field _ 3 _
            ∙ ap (λ b. b ++ encode_field P (bytes_field 3 merge)) (append_varint_field [] 1 2))
      ∙ three_fields (varint_field 1 2) (bytes_field 3 merge) (varint_field 5 1)
      ∙ ap (λ m. encode_message P (varint_field 1 2 ∷ bytes_field 3 m ∷ varint_field 5 1 ∷ []))
          (merge_profile-encode_message profile_type _ _
            ∙ ap₂
                (λ a b. encode_message P (
                  bytes_field 1 (profile_type ++ codes "{}")
                  ∷ bytes_field 2 a
                  ∷ bytes_field 3 b
                  ∷ []))
                (encode_timestamp-encode_message (pos 0) (omega arith))
                (encode_timestamp-encode_message now h))
    where
      merge : Bytes
      merge =
          merge_profile P profile_type (encode_timestamp_proto P (pos 0))
            (encode_timestamp_proto P now)
