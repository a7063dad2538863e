-- ===== src/Grpc/Malformed.antt =====
-- `parseGRPCWebResponse` on any bytes: it takes whole frames as long as it can, and the bytes that
-- are left decide how it ends.
use tilt_common.Base.{
  ℕ, zero, suc, ◌≤◌, ◌<◌, ◌≡◌, refl, ap, ◌∙◌, sym, inl, inr, List, [], ◌∷◌, ◌++◌, append_assoc, min,
  arith, ltb, Bool-cases, ltb→lt, Bytes, length, take, drop, All, take-append-drop, length-take,
  length-drop,
}
use tilt_common.Errors.{frame_too_short, frame_length, fault, Result, ok, err}
use tilt_common.Grpc.{uint32, Reply, no_reply, absorb, parse_frames, parse_grpc_web_response}
use tilt_common.Grpc.Frames.{
  IsByte, Frame, encode_frame, encode_frames, Fits, fold_frames, put_uint32-uint32, uint32-lt,
  All-drop,
}

-- How the loop ends on the bytes `tail` behind the whole frames, which left it at `r`.
pub data Ending (r : Reply) : Bytes → Result Reply → Type 0 where
  complete : Ending r [] (ok r)
  short_header :
      (b : ℕ) (tail : Bytes)
      → length (b ∷ tail) < 5
      → Ending r (b ∷ tail) (err (fault frame_too_short))
  short_payload :
      (kind a b c d : ℕ) (tail : Bytes)
      → length tail < uint32 a b c d
      → Ending r
          (kind ∷ a ∷ b ∷ c ∷ d ∷ tail)
          (err (fault (frame_length (uint32 a b c d) (length tail))))

pub record Outcome (unicode_lower : Bytes → Bytes) (r : Reply) (body : Bytes)
    (result : Result Reply) : Type 0 where
  pub frames : List Frame
  pub tail : Bytes
  pub fit : All Fits frames
  pub splits : body ≡ encode_frames frames ++ tail
  pub ending : Ending (fold_frames unicode_lower r frames) tail result

split_frame :
    (kind a b c d : ℕ) (body : Bytes)
    → IsByte a
    → IsByte b
    → IsByte c
    → IsByte d
    → uint32 a b c d ≤ length body
    → kind ∷ a ∷ b ∷ c ∷ d ∷ body
      ≡ encode_frame (record { kind = kind; payload = take (uint32 a b c d) body })
        ++ drop (uint32 a b c d) body
unfolding encode_frame
split_frame kind a b c d body ha hb hc hd h = rw (
  length-take (uint32 a b c d) body,
  min_left,
  put_uint32-uint32 a b c d ha hb hc hd,
  take-append-drop (uint32 a b c d) body,
)
  where
    min_left : min (uint32 a b c d) (length body) ≡ uint32 a b c d
    min_left = omega arith

fits :
    (kind a b c d : ℕ) (body : Bytes)
    → IsByte a
    → IsByte b
    → IsByte c
    → IsByte d
    → Fits (record { kind = kind; payload = take (uint32 a b c d) body })
fits kind a b c d body ha hb hc hd =
    omega (arith, length-take (uint32 a b c d) body, uint32-lt a b c d ha hb hc hd)

module _ (unicode_lower : Bytes → Bytes) where
  no_frames :
      {r : Reply} {tail : Bytes} {result : Result Reply}
      → Ending r tail result
      → Outcome unicode_lower r tail result
  unfolding encode_frames fold_frames
  no_frames e = record { frames = []; tail = _; fit = tt; splits = refl; ending = e }

  one_more :
      (f : Frame) {r : Reply} {body rest : Bytes} {result : Result Reply}
      → Fits f
      → body ≡ encode_frame f ++ rest
      → Outcome unicode_lower (absorb unicode_lower r f.kind f.payload) rest result
      → Outcome unicode_lower r body result
  unfolding encode_frames fold_frames
  one_more f h e o = record {
    frames = f ∷ o.frames;
    tail = o.tail;
    fit = (h, o.fit);
    splits =
        e
        ∙ ap (λ s. encode_frame f ++ s) o.splits
        ∙ sym (append_assoc (encode_frame f) (encode_frames o.frames) o.tail);
    ending = o.ending;
  }

  parse_frames-Outcome :
      (fuel : ℕ) (body : Bytes) (r : Reply)
      → length body ≤ fuel
      → All IsByte body
      → Outcome unicode_lower r body (parse_frames unicode_lower fuel body r)
  unfolding parse_frames
  parse_frames-Outcome fuel [] r k h = no_frames complete
  parse_frames-Outcome zero (b ∷ body) r k h = absurd (omega arith)
  parse_frames-Outcome (suc fuel) (t ∷ []) r k h = no_frames (short_header _ _ (omega arith))
  parse_frames-Outcome (suc fuel) (t ∷ a ∷ []) r k h = no_frames (short_header _ _ (omega arith))
  parse_frames-Outcome (suc fuel) (t ∷ a ∷ b ∷ []) r k h =
      no_frames (short_header _ _ (omega arith))
  parse_frames-Outcome (suc fuel) (t ∷ a ∷ b ∷ c ∷ []) r k h =
      no_frames (short_header _ _ (omega arith))
  parse_frames-Outcome (suc fuel) (t ∷ a ∷ b ∷ c ∷ d ∷ body) r k (ht, (ha, (hb, (hc, (hd, hs))))) =
      elim (Bool-cases (ltb (length body) (uint32 a b c d))) [
        | inl less ↦ rw less (no_frames (short_payload t a b c d body (ltb→lt _ _ less)))
        | inr more ↦ rw more (
            one_more (record { kind = t; payload = take (uint32 a b c d) body })
              (fits t a b c d body ha hb hc hd)
              (split_frame t a b c d body ha hb hc hd (ground arith))
              (parse_frames-Outcome fuel (drop (uint32 a b c d) body) _
                (omega (arith, length-drop (uint32 a b c d) body)) (All-drop _ body hs)))
      ]

-- On every sequence of bytes `parseGRPCWebResponse` ends in one of three ways. The body is whole
-- frames and it returns what they add up to; or whole frames and one to four bytes more, and it
-- fails with "too short"; or whole frames, a header, and less than the header announces, and it
-- fails with the two lengths.
pub parse_grpc_web_response-Outcome :
    (unicode_lower : Bytes → Bytes) (body : Bytes)
    → All IsByte body
    → Outcome unicode_lower no_reply body (parse_grpc_web_response unicode_lower body)
unfolding parse_grpc_web_response
parse_grpc_web_response-Outcome unicode_lower body h =
    parse_frames-Outcome unicode_lower (length body) body no_reply (omega arith) h
