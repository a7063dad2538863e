-- ===== src/Proto/Wire.antt =====
-- What the protobuf parsers and the builder rely on of protowire, and messages as lists of fields.
use tilt_common.Base.{
  suc, ℕ, ◌^◌, ◌≤◌, ◌<◌, ◌≡◌, List, [], ◌∷◌, ◌++◌, append_assoc, arith, Bytes, length, drop,
  length-append, drop-append,
}
use tilt_common.Base.Int.{ℤ}
use tilt_common.Errors.{Fault, Result, ◌>>=◌}
use tilt_common.Proto.{expect, Consumed, took, varint_type, bytes_type, Protowire}

-- The documented behaviour: a `Consume` function takes a part of its input and reads back what the
-- `Append` function of its kind wrote, and an `Append` function adds to the end of its buffer.
pub record IsProtowire (P : Protowire) : Type 0 where
  pub tag_takes :
      (b : Bytes) (x : ℕ × ℕ) (n : ℕ) → P.consume_tag b ≡ took x n → (0 < n) × (n ≤ length b)
  pub bytes_takes : (b v : Bytes) (n : ℕ) → P.consume_bytes b ≡ took v n → n ≤ length b
  pub field_takes :
      (num wire_type : ℕ) (b : Bytes) (n : ℕ)
      → P.consume_field_value num wire_type b ≡ took tt n
      → n ≤ length b
  pub append_tag-append :
      (b : Bytes) (num wire_type : ℕ)
      → P.append_tag b num wire_type ≡ b ++ P.append_tag [] num wire_type
  pub append_varint-append : (b : Bytes) (v : ℕ) → P.append_varint b v ≡ b ++ P.append_varint [] v
  pub append_bytes-append : (b v : Bytes) → P.append_bytes b v ≡ b ++ P.append_bytes [] v
  pub append_string-append_bytes : (b v : Bytes) → P.append_string b v ≡ P.append_bytes b v
  pub consume_tag-append_tag :
      (num wire_type : ℕ) (rest : Bytes)
      → 0 < num
      → num < 2 ^ 29
      → wire_type < 8
      → P.consume_tag (P.append_tag [] num wire_type ++ rest)
        ≡ took (num, wire_type) (length (P.append_tag [] num wire_type))
  pub consume_bytes-append_bytes :
      (v rest : Bytes)
      → length v < 2 ^ 63
      → P.consume_bytes (P.append_bytes [] v ++ rest) ≡ took v (length (P.append_bytes [] v))
  pub consume_field_value-append_bytes :
      (num : ℕ) (v rest : Bytes)
      → length v < 2 ^ 63
      → P.consume_field_value num bytes_type (P.append_bytes [] v ++ rest)
        ≡ took tt (length (P.append_bytes [] v))
  pub consume_field_value-append_varint :
      (num v : ℕ) (rest : Bytes)
      → v < 2 ^ 64
      → P.consume_field_value num varint_type (P.append_varint [] v ++ rest)
        ≡ took tt (length (P.append_varint [] v))

-- A call that took a value goes on with it.
pub expect-bind :
    {A B : Type 0} (f : ℤ → Fault) (k : A × ℕ → Result B) {c : Consumed A} {a : A} {n : ℕ}
    → c ≡ took a n
    → (expect f c >>= k) ≡ k (a, n)
expect-bind f k e = rw e

-- The two kinds of field that Parca's messages hold. An embedded message is a field of bytes.
pub data Field : Type 0 where
  varint_field : ℕ → ℕ → Field
  bytes_field : ℕ → Bytes → Field

abbrev pub IsFieldNumber : ℕ → Type 0
IsFieldNumber num = (0 < num) × (num < 2 ^ 29)

abbrev pub IsField : Field → Type 0
IsField (varint_field num v) = IsFieldNumber num × (v < 2 ^ 64)
IsField (bytes_field num v) = IsFieldNumber num × (length v < 2 ^ 63)

abbrev pub number : Field → ℕ
number (varint_field num v) = num
number (bytes_field num v) = num

abbrev pub wire_type_of : Field → ℕ
wire_type_of (varint_field num v) = varint_type
wire_type_of (bytes_field num v) = bytes_type

module _ (P : Protowire) where
  abbrev pub tag : Field → Bytes
  tag f = P.append_tag [] (number f) (wire_type_of f)

  abbrev pub value : Field → Bytes
  value (varint_field num v) = P.append_varint [] v
  value (bytes_field num v) = P.append_bytes [] v

  abbrev pub encode_field : Field → Bytes
  encode_field f = tag f ++ value f

  unfoldable pub encode_message : List Field → Bytes
  encode_message [] = []
  encode_message (f ∷ fs) = encode_field f ++ encode_message fs

  pub drop-tag :
      (f : Field) (rest : Bytes) → drop (length (tag f)) (encode_field f ++ rest) ≡ value f ++ rest
  drop-tag f rest = rw (append_assoc (tag f) (value f) rest) (drop-append (tag f) (value f ++ rest))

  module _ (law : IsProtowire P) where
    tag_fits : (f : Field) → IsField f → IsFieldNumber (number f) × (wire_type_of f < 8)
    tag_fits (varint_field num v) h = (h.0, omega arith)
    tag_fits (bytes_field num v) h = (h.0, omega arith)

    pub read_tag :
        (f : Field) (rest : Bytes)
        → IsField f
        → P.consume_tag (encode_field f ++ rest) ≡ took (number f, wire_type_of f) (length (tag f))
    read_tag f rest h = rw (append_assoc (tag f) (value f) rest) (
        law.consume_tag-append_tag _ _ (value f ++ rest) (tag_fits f h).0.0 (tag_fits f h).0.1
          (tag_fits f h).1)

    pub read_value :
        (f : Field) (rest : Bytes)
        → IsField f
        → P.consume_field_value (number f) (wire_type_of f) (value f ++ rest)
          ≡ took tt (length (value f))
    read_value (varint_field num v) rest h = law.consume_field_value-append_varint num v rest h.1
    read_value (bytes_field num v) rest h = law.consume_field_value-append_bytes num v rest h.1

    -- An encoded field is not empty, so a loop that reads one takes a round for it.
    pub encode_field-pos :
        (f : Field) (rest : Bytes) → IsField f → 0 < length (encode_field f ++ rest)
    encode_field-pos f rest h = omega (
      arith,
      law.tag_takes _ _ _ (read_tag f [] h),
      length-append (tag f) (value f),
      length-append (encode_field f) rest,
    )

    pub message_rest_fits :
        (f : Field) (fs : List Field) (fuel : ℕ)
        → IsField f
        → length (encode_message (f ∷ fs)) ≤ suc fuel
        → length (encode_message fs) ≤ fuel
    unfolding encode_message
    message_rest_fits f fs fuel h k = omega (
      arith,
      law.tag_takes _ _ _ (read_tag f [] h),
      length-append (tag f) (value f),
      length-append (encode_field f) (encode_message fs),
    )

    pub message-pos :
        (f : Field) (fs : List Field) → IsField f → 0 < length (encode_message (f ∷ fs))
    unfolding encode_message
    message-pos f fs h = encode_field-pos f (encode_message fs) h
