-- ===== src/Grpc/Total.antt =====
-- `parseGRPCWebResponse`: its fuel.
use tilt_common.Base.{
  ℕ, zero, suc, ◌≤◌, ◌≢◌, [], ◌∷◌, Bool-cases, inl, inr, ltb, arith, Bytes, length, length-drop,
}
use tilt_common.Errors.{stuck}
use tilt_common.Grpc.{uint32, Reply, no_reply, parse_frames, parse_grpc_web_response}

module _ (unicode_lower : Bytes → Bytes) where
  parse_frames-ne-stuck :
      (fuel : ℕ) (body : Bytes) (r : Reply)
      → length body ≤ fuel
      → parse_frames unicode_lower fuel body r ≢ stuck
  unfolding parse_frames
  parse_frames-ne-stuck fuel [] r k = λ p. cc
  parse_frames-ne-stuck zero (b ∷ body) r k = absurd (omega arith)
  parse_frames-ne-stuck (suc fuel) (t ∷ []) r k = λ p. cc
  parse_frames-ne-stuck (suc fuel) (t ∷ a ∷ []) r k = λ p. cc
  parse_frames-ne-stuck (suc fuel) (t ∷ a ∷ b ∷ []) r k = λ p. cc
  parse_frames-ne-stuck (suc fuel) (t ∷ a ∷ b ∷ c ∷ []) r k = λ p. cc
  parse_frames-ne-stuck (suc fuel) (t ∷ a ∷ b ∷ c ∷ d ∷ body) r k =
      elim (Bool-cases (ltb (length body) (uint32 a b c d))) [
        | inl less ↦ rw less (λ p. cc)
        | inr more ↦
            rw more
              (parse_frames-ne-stuck fuel _ _ (omega (arith, length-drop (uint32 a b c d) body)))
      ]

  pub parse_grpc_web_response-ne-stuck :
      (body : Bytes) → parse_grpc_web_response unicode_lower body ≢ stuck
  unfolding parse_grpc_web_response
  parse_grpc_web_response-ne-stuck body =
      parse_frames-ne-stuck (length body) body no_reply (omega arith)
