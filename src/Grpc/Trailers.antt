-- ===== src/Grpc/Trailers.antt =====
-- `parseGRPCWebTrailer` on a block of header fields.
use tilt_common.Text.{atoi, trim_space}
use tilt_common.Base.Int.{ℤ, pos}
use tilt_common.Base.{
  Option, none, some, Bool, true, ◌≢◌, ap, ◌∙◌, codes, same, same_iff, if◌then◌else◌, ℕ, ◌≡◌, refl,
  List, [], ◌∷◌, ◌++◌, map, is_empty, false, Bytes, All,
}
use tilt_common.Grpc.{
  Trailer, no_trailer, set_field, set_status, trailer_key, trailer_line, parse_grpc_web_trailer,
}
use tilt_common.Text.Split.{Lacks, cut_at_sep, end_lines, split_crlf-end_lines}
use mathlib.Core.List.{foldl}

-- A field as the server writes it, before white space and case are dealt with.
pub record Field : Type 0 where
  pub name : Bytes
  pub value : Bytes

abbrev pub field_line : Field → Bytes
field_line f = f.name ++ b':' ∷ f.value

pub record IsField (f : Field) : Type 0 where
  pub no_colon : Lacks b':' f.name
  pub one_line : Lacks b'\r' (field_line f)

unfoldable pub encode_fields : List Field → Bytes
encode_fields fs = end_lines (map field_line fs)

is_empty-append_cons : (s : Bytes) (c : ℕ) (t : Bytes) → is_empty (s ++ c ∷ t) ≡ false
is_empty-append_cons [] c t = refl
is_empty-append_cons (d ∷ s) c t = refl

lines_lack : (fs : List Field) → All IsField fs → All (Lacks b'\r') (map field_line fs)
lines_lack [] h = tt
lines_lack (f ∷ fs) (hf, h) = (hf.one_line, lines_lack fs h)

module _ (unicode_lower : Bytes → Bytes) where
  -- The fields in order: each `grpc-status` that is a number and each `grpc-message` replaces what
  -- came before it.
  unfoldable pub fold_fields : Trailer → List Field → Trailer
  fold_fields t [] = t
  fold_fields t (f ∷ fs) =
      fold_fields (set_field t (trailer_key unicode_lower f.name) (trim_space f.value)) fs

  trailer_line-field_line :
      (t : Trailer) (f : Field)
      → IsField f
      → trailer_line unicode_lower t (field_line f)
        ≡ set_field t (trailer_key unicode_lower f.name) (trim_space f.value)
  unfolding trailer_line
  trailer_line-field_line t f h =
      rw (is_empty-append_cons f.name b':' f.value, cut_at_sep b':' f.name f.value h.no_colon)

  foldl-trailer_line :
      (t : Trailer) (fs : List Field)
      → All IsField fs
      → foldl (trailer_line unicode_lower) t (map field_line fs ++ [] ∷ []) ≡ fold_fields t fs
  unfolding fold_fields
  foldl-trailer_line t [] h = unfold trailer_line in refl
  foldl-trailer_line t (f ∷ fs) (hf, h) =
      rw (trailer_line-field_line t f hf, foldl)
        (foldl-trailer_line (set_field t (trailer_key unicode_lower f.name) (trim_space f.value)) fs
          h)

abbrev or_kept : Option ℤ → ℤ → ℤ
or_kept none v = v
or_kept (some n) v = n

abbrev pub trailer_of : ℤ → Bytes → Trailer
trailer_of status message = record { status = status; message = message }

-- Setting a field by two tests of its name that cannot both hold.
by_tests :
    (a b : Bool) (t : Trailer) (n : Option ℤ) (v : Bytes)
    → (a ≡ true → b ≡ false)
    → (if a then set_status t n else if b then record t { message = v } else t)
      ≡ trailer_of (if a then or_kept n t.status else t.status) (if b then v else t.message)
by_tests true true t n v h = absurd (true-ne-false (h refl))
  where
    true-ne-false : true ≢ false
    true-ne-false e = cc
by_tests true false t none v h = refl
by_tests true false t (some n) v h = refl
by_tests false true t n v h = refl
by_tests false false t n v h = refl

module _ (unicode_lower : Bytes → Bytes) where
  -- A name without regard to case and to the white space round it.
  abbrev pub is_named : Bytes → Field → Bool
  is_named key f = same (trailer_key unicode_lower f.name) key

  -- The number of the last `grpc-status` field that holds one, and `v` if there is none.
  unfoldable pub last_status : ℤ → List Field → ℤ
  last_status v [] = v
  last_status v (f ∷ fs) =
      last_status
        (if is_named (codes "grpc-status") f then or_kept (atoi (trim_space f.value)) v else v) fs

  -- The value of the last `grpc-message` field, and `v` if there is none.
  unfoldable pub last_message : Bytes → List Field → Bytes
  last_message v [] = v
  last_message v (f ∷ fs) =
      last_message (if is_named (codes "grpc-message") f then trim_space f.value else v) fs

  one_name :
      (k : Bytes) → same k (codes "grpc-status") ≡ true → same k (codes "grpc-message") ≡ false
  unfolding same
  one_name k e = rw ((same_iff k (codes "grpc-status")).0 e)

  set_field-trailer_of :
      (t : Trailer) (f : Field)
      → set_field t (trailer_key unicode_lower f.name) (trim_space f.value)
        ≡ trailer_of (last_status t.status (f ∷ [])) (last_message t.message (f ∷ []))
  unfolding set_field last_status last_message
  set_field-trailer_of t f =
      by_tests (is_named (codes "grpc-status") f) (is_named (codes "grpc-message") f) t
        (atoi (trim_space f.value)) (trim_space f.value)
        (one_name (trailer_key unicode_lower f.name))

  fold_fields-trailer_of :
      (t : Trailer) (fs : List Field)
      → fold_fields unicode_lower t fs
        ≡ trailer_of (last_status t.status fs) (last_message t.message fs)
  unfolding fold_fields last_status last_message
  fold_fields-trailer_of t [] = refl
  fold_fields-trailer_of t (f ∷ fs) =
      fold_fields-trailer_of (set_field t (trailer_key unicode_lower f.name) (trim_space f.value))
        fs
      ∙ ap (λ u. trailer_of (last_status u.status fs) (last_message u.message fs))
          (set_field-trailer_of t f)

  -- `parseGRPCWebTrailer` on a block of header fields, each ended by "\r\n": the status is that of
  -- the last `grpc-status` field whose value is a number, 0 if there is none, and the message that of
  -- the last `grpc-message` field. Names count without case, names and values without the white space
  -- round them. A name holds no colon, and neither part a carriage return.
  pub parse_grpc_web_trailer-encode_fields :
      (fs : List Field)
      → All IsField fs
      → parse_grpc_web_trailer unicode_lower (encode_fields fs)
        ≡ trailer_of (last_status (pos 0) fs) (last_message [] fs)
  unfolding parse_grpc_web_trailer encode_fields
  parse_grpc_web_trailer-encode_fields fs h =
      rw (split_crlf-end_lines (map field_line fs) (lines_lack fs h))
        (foldl-trailer_line unicode_lower no_trailer fs h)
      ∙ fold_fields-trailer_of no_trailer fs
