-- ===== src/Grpc.antt =====
-- gRPC-Web framing of cmd/observability-export/pprof.go: `parseGRPCWebResponse`,
-- `parseGRPCWebTrailer`, `looksLikeHTML` and the request frame that `grpcWebUnary` builds.
pub mod Frames
pub mod Malformed
pub mod Trailers
pub mod Total
use tilt_common.Base.{
  ℕ, zero, suc, ◌+◌, ◌*◌, ◌/◌, ◌%◌, ◌^◌, ◌-◌, Bool, true, ◌||◌, Option, none, some, List, [], ◌∷◌,
  ◌++◌, ltb, ◌==◌, if◌then◌else◌, Bytes, codes, same, is_empty, length, take, drop,
}
use tilt_common.Base.Int.{ℤ, pos}
use tilt_common.Errors.{
  Fault, frame_too_short, frame_length, request_too_large, Error, fault, Result, ok, err, stuck,
}
use tilt_common.Text.{to_lower, trim_space, has_prefix, contains, cut, split_crlf, atoi}
use Prim.Native.Nat.{bit_and}
use mathlib.Core.List.{foldl}

-- `binary.BigEndian.PutUint32` and `binary.BigEndian.Uint32`
unfoldable pub put_uint32 : ℕ → Bytes
put_uint32 n = n / 2 ^ 24 % 256 ∷ n / 2 ^ 16 % 256 ∷ n / 2 ^ 8 % 256 ∷ n % 256 ∷ []

unfoldable pub uint32 : ℕ → ℕ → ℕ → ℕ → ℕ
uint32 a b c d = ((a * 256 + b) * 256 + c) * 256 + d

-- What `parseGRPCWebTrailer` returns, and with the message what `parseGRPCWebResponse` collects.
pub record Trailer : Type 0 where
  pub status : ℤ
  pub message : Bytes

pub record Reply : Type 0 where
  pub payload : Bytes
  pub trailer : Trailer

abbrev pub no_trailer : Trailer
no_trailer = record { status = pos 0; message = [] }

abbrev pub no_reply : Reply
no_reply = record { payload = []; trailer = no_trailer }

-- `if parsed, err := strconv.Atoi(value); err == nil`
abbrev pub set_status : Trailer → Option ℤ → Trailer
set_status t none = t
set_status t (some n) = record t { status = n }

-- The `switch key`.
unfoldable pub set_field : Trailer → Bytes → Bytes → Trailer
set_field t key value =
    if same key (codes "grpc-status")
    then set_status t (atoi value)
    else if same key (codes "grpc-message")
    then record t { message = value }
    else t

module _ (unicode_lower : Bytes → Bytes) where
  abbrev pub trailer_key : Bytes → Bytes
  trailer_key name = trim_space (to_lower unicode_lower name)

  abbrev split_field : Trailer → Bytes × Option Bytes → Trailer
  split_field t (name, none) = t
  split_field t (name, some value) = set_field t (trailer_key name) (trim_space value)

  -- One round of the loop over the lines.
  unfoldable pub trailer_line : Trailer → Bytes → Trailer
  trailer_line t line = if is_empty line then t else split_field t (cut b':' line)

  unfoldable pub parse_grpc_web_trailer : Bytes → Trailer
  unfolding trailer_line set_field
  parse_grpc_web_trailer payload = foldl trailer_line no_trailer (split_crlf payload)

  -- What one frame does to the variables of `parseGRPCWebResponse`.
  unfoldable pub absorb : Reply → ℕ → Bytes → Reply
  absorb r frame_type frame_payload =
      if bit_and frame_type 0x80 == 0x80
      then record r { trailer = parse_grpc_web_trailer frame_payload }
      else record r { payload = r.payload ++ frame_payload }

  -- The loop. Its fuel counts the frames that may still come.
  unfoldable pub parse_frames : ℕ → Bytes → Reply → Result Reply
  parse_frames fuel [] r = ok r
  parse_frames zero (b ∷ body) r = stuck
  parse_frames (suc fuel) (frame_type ∷ a ∷ b ∷ c ∷ d ∷ body) r =
      let frame_len = uint32 a b c d in
      let more =
        parse_frames fuel (drop frame_len body) (absorb r frame_type (take frame_len body)) in
      if ltb (length body) frame_len
      then err (fault (frame_length frame_len (length body)))
      else more
  parse_frames (suc fuel) (b ∷ body) r = err (fault frame_too_short)

  -- A frame takes five bytes at least, so the length of the body is fuel enough.
  unfoldable pub parse_grpc_web_response : Bytes → Result Reply
  unfolding parse_frames absorb uint32
  parse_grpc_web_response body = parse_frames (length body) body no_reply

  unfoldable pub looks_like_html : Bytes → Bytes → Bool
  looks_like_html content_type body =
      let trimmed = trim_space (to_lower unicode_lower body) in
      let ctype = to_lower unicode_lower content_type in
      if contains ctype (codes "text/html")
      then true
      else has_prefix trimmed (codes "<!doctype html") || has_prefix trimmed (codes "<html")

-- The part of `grpcWebUnary` that frames the request message.
unfoldable pub frame_request : Bytes → Result Bytes
unfolding put_uint32
frame_request message =
    if ltb (2 ^ 32 - 1) (length message)
    then err (fault (request_too_large (length message)))
    else ok (0x00 ∷ (put_uint32 (length message) ++ message))
