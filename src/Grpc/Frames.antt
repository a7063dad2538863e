-- ===== src/Grpc/Frames.antt =====
-- Bodies that are sequences of frames: `parseGRPCWebResponse` accepts them and no others.
use Prim.Native.Nat.{bit_and}
use tilt_common.Base.{
  Bool, true, false, ◌==◌, if◌then◌else◌, append_assoc, ap, sym, append-nil, ◌↔◌, ℕ, zero, suc, ◌/◌,
  ◌%◌, ◌^◌, ◌-◌, ◌≤◌, ◌<◌, ◌≡◌, refl, ◌∙◌, List, [], ◌∷◌, ◌++◌, arith, ltb_ge, Bytes, length, drop,
  All, length-append, take-append, drop-append,
}
use tilt_common.Errors.{ok}
use tilt_common.Grpc.{
  Trailer, parse_grpc_web_trailer, no_trailer, put_uint32, uint32, Reply, no_reply, absorb,
  parse_frames, parse_grpc_web_response, frame_request,
}

abbrev pub IsByte : ℕ → Type 0
IsByte b = b < 256

pub record Frame : Type 0 where
  pub kind : ℕ
  pub payload : Bytes

-- The frame on the wire.
unfoldable pub encode_frame : Frame → Bytes
encode_frame f = f.kind ∷ (put_uint32 (length f.payload) ++ f.payload)

unfoldable pub encode_frames : List Frame → Bytes
unfolding encode_frame
encode_frames [] = []
encode_frames (f ∷ fs) = encode_frame f ++ encode_frames fs

-- A length prefix has 32 bits.
abbrev pub Fits : Frame → Type 0
Fits f = length f.payload < 2 ^ 32

pub uint32-put_uint32 :
    (n : ℕ)
    → n < 2 ^ 32
    → uint32 (n / 2 ^ 24 % 256) (n / 2 ^ 16 % 256) (n / 2 ^ 8 % 256) (n % 256) ≡ n
unfolding uint32
uint32-put_uint32 n h = omega arith

pub uint32-lt : (a b c d : ℕ) → IsByte a → IsByte b → IsByte c → IsByte d → uint32 a b c d < 2 ^ 32
unfolding uint32
uint32-lt a b c d ha hb hc hd = omega arith

pub put_uint32-uint32 :
    (a b c d : ℕ)
    → IsByte a
    → IsByte b
    → IsByte c
    → IsByte d
    → put_uint32 (uint32 a b c d) ≡ a ∷ b ∷ c ∷ d ∷ []
unfolding put_uint32 uint32
put_uint32-uint32 a b c d ha hb hc hd = ground arith

pub All-drop : (n : ℕ) (s : Bytes) → All IsByte s → All IsByte (drop n s)
All-drop zero s h = h
All-drop (suc n) [] h = h
All-drop (suc n) (x ∷ s) h = All-drop n s h.1

module _ (unicode_lower : Bytes → Bytes) where
  -- What the frames add up to: the messages in order, and the last trailer.
  unfoldable pub fold_frames : Reply → List Frame → Reply
  fold_frames r [] = r
  fold_frames r (f ∷ fs) = fold_frames (absorb unicode_lower r f.kind f.payload) fs

  -- One frame is taken off the front, whatever follows it.
  pub parse_frames-encode_frame :
      (fuel : ℕ) (f : Frame) (rest : Bytes) (r : Reply)
      → Fits f
      → parse_frames unicode_lower (suc fuel) (encode_frame f ++ rest) r
        ≡ parse_frames unicode_lower fuel rest (absorb unicode_lower r f.kind f.payload)
  unfolding parse_frames encode_frame put_uint32
  parse_frames-encode_frame fuel f rest r h = rw (
    uint32-put_uint32 (length f.payload) h,
    take-append f.payload rest,
    drop-append f.payload rest,
    ltb_ge (length (f.payload ++ rest)) (length f.payload)
        (omega (arith, length-append f.payload rest)),
  )

  parse_frames-encode_frames :
      (fuel : ℕ) (fs : List Frame) (r : Reply)
      → All Fits fs
      → length (encode_frames fs) ≤ fuel
      → parse_frames unicode_lower fuel (encode_frames fs) r ≡ ok (fold_frames r fs)
  unfolding encode_frames fold_frames
  parse_frames-encode_frames fuel [] r h k = unfold parse_frames in refl
  parse_frames-encode_frames zero (f ∷ fs) r h k = absurd (omega arith)
  parse_frames-encode_frames (suc fuel) (f ∷ fs) r (hf, hfs) k =
      parse_frames-encode_frame fuel f (encode_frames fs) r hf
      ∙ parse_frames-encode_frames fuel fs _ hfs (
          omega
            (arith, length-append (put_uint32 (length f.payload) ++ f.payload) (encode_frames fs)))

abbrev pub reply_of : Bytes → Trailer → Reply
reply_of payload trailer = record { payload = payload; trailer = trailer }

-- The flag of a trailer frame.
abbrev pub is_trailer : Frame → Bool
is_trailer f = bit_and f.kind 0x80 == 0x80

unfoldable pub messages : List Frame → Bytes
messages [] = []
messages (f ∷ fs) = if is_trailer f then messages fs else f.payload ++ messages fs

module _ (unicode_lower : Bytes → Bytes) where
  -- The trailer of the last trailer frame, and `t` if there is none.
  unfoldable pub last_trailer : Trailer → List Frame → Trailer
  last_trailer t [] = t
  last_trailer t (f ∷ fs) =
      last_trailer (if is_trailer f then parse_grpc_web_trailer unicode_lower f.payload else t) fs

  fold_frames-messages :
      (r : Reply) (fs : List Frame)
      → fold_frames unicode_lower r fs
        ≡ record { payload = r.payload ++ messages fs; trailer = last_trailer r.trailer fs }
  unfolding fold_frames messages last_trailer absorb
  fold_frames-messages r [] =
      ap (λ p. record { payload = p; trailer = r.trailer }) (sym (append-nil r.payload))
  fold_frames-messages r (f ∷ fs) =
      fold_frames-messages (absorb unicode_lower r f.kind f.payload) fs ∙ by_flag (is_trailer f)
    where
      after : Bool → Reply
      after b =
          if b
          then record r { trailer = parse_grpc_web_trailer unicode_lower f.payload }
          else record r { payload = r.payload ++ f.payload }

      by_flag :
          (b : Bool)
          → reply_of ((after b).payload ++ messages fs) (last_trailer (after b).trailer fs)
            ≡ reply_of (r.payload ++ (if b then messages fs else f.payload ++ messages fs)) (
                last_trailer
                  (if b then parse_grpc_web_trailer unicode_lower f.payload else r.trailer)
                  fs)
      by_flag true = refl
      by_flag false =
          ap (λ p. reply_of p (last_trailer r.trailer fs))
            (append_assoc r.payload f.payload (messages fs))

  -- A body that is a sequence of frames is accepted: the payload is that of its message frames, joined
  -- in their order, and the trailer that of the last trailer frame, status 0 if there is none. A
  -- payload's length fits into the 32 bits of a frame's prefix.
  pub parse_grpc_web_response-encode_frames :
      (fs : List Frame)
      → All Fits fs
      → parse_grpc_web_response unicode_lower (encode_frames fs)
        ≡ ok (record { payload = messages fs; trailer = last_trailer no_trailer fs })
  unfolding parse_grpc_web_response
  parse_grpc_web_response-encode_frames fs h =
      parse_frames-encode_frames unicode_lower _ fs no_reply h (omega arith)
      ∙ ap ok (fold_frames-messages no_reply fs)

frame_request-encode_frame :
    (message : Bytes)
    → length message < 2 ^ 32
    → frame_request message ≡ ok (encode_frame (record { kind = 0; payload = message }))
unfolding frame_request encode_frame
frame_request-encode_frame message h = rw (ltb_ge (2 ^ 32 - 1) (length message) (omega arith))

frame_request-length :
    (message framed : Bytes) → frame_request message ≡ ok framed → length message < 2 ^ 32
unfolding frame_request
frame_request-length message framed e = ground (arith, e)

parse-one_frame :
    (unicode_lower : Bytes → Bytes) (message : Bytes)
    → length message < 2 ^ 32
    → parse_grpc_web_response unicode_lower (encode_frame (record { kind = 0; payload = message }))
      ≡ ok (record { payload = message; trailer = no_trailer })
unfolding encode_frames messages last_trailer
parse-one_frame unicode_lower message h =
    let f : Frame = record { kind = 0; payload = message } in
    ap (parse_grpc_web_response unicode_lower) (sym (append-nil (encode_frame f)))
    ∙ parse_grpc_web_response-encode_frames unicode_lower (f ∷ []) (h, tt)
    ∙ ap (λ p. ok (record { payload = p; trailer = no_trailer })) (append-nil message)

-- A message is framed exactly if its length fits into 32 bits, and what `grpcWebUnary` frames,
-- `parseGRPCWebResponse` reads back as a payload with no trailer.
pub parse_grpc_web_response-frame_request :
    (unicode_lower : Bytes → Bytes) (message : Bytes)
    → (length message < 2 ^ 32) ↔ (
        (framed : Bytes) × (frame_request message ≡ ok framed)
        × (parse_grpc_web_response unicode_lower framed
            ≡ ok (record { payload = message; trailer = no_trailer })))
parse_grpc_web_response-frame_request unicode_lower message = (
  λ h. (_, frame_request-encode_frame message h, parse-one_frame unicode_lower message h),
  λ x. frame_request-length message x.0 x.1,
)
