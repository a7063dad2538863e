-- ===== src/Export/Status.antt =====
-- `determineStatus`: when each status arises.
use tilt_common.Base.{ℕ, ◌≤◌, ◌<◌, ◌≡◌, ◌↔◌, arith}
use tilt_common.Export.{status_success, status_partial, status_failure, determine_status}

-- With at most as many successes as attempts, the status is success exactly if all attempts
-- succeeded, partial exactly if some did and some did not, and failure exactly if none of at least
-- one did.
pub determine_status_iff :
    (attempted succeeded : ℕ)
    → succeeded ≤ attempted
    → ((determine_status attempted succeeded ≡ status_success) ↔ (succeeded ≡ attempted))
      × (((determine_status attempted succeeded ≡ status_partial)
            ↔ ((0 < succeeded) × (succeeded < attempted)))
          × ((determine_status attempted succeeded ≡ status_failure)
              ↔ ((succeeded ≡ 0) × (0 < attempted))))
unfolding determine_status
determine_status_iff attempted succeeded h = (
  (λ p. ground arith, λ p. ground arith),
  (
    (λ p. (ground arith, ground arith), λ p. ground arith),
    (λ p. (ground arith, ground arith), λ p. ground arith),
  ),
)
