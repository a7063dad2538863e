-- ===== src/Host/Held.antt =====
-- Which resources are open after a trace, the last opened first: a machine that steps on its events.
use tilt_common.Base.{◌≡◌, Bool, true, false, List, [], ◌∷◌}
use tilt_common.Host.{Resource, Event, opened, closed, Trace}

abbrev pub is_plain : Event → Bool
is_plain (opened q) = false
is_plain (closed q) = false
is_plain _ = true

-- Only what was opened last, of what is open, can be closed.
pub data Held : List Resource → Trace → Type 0 where
  nothing : Held [] []
  opening :
      (r : Resource) {rs : List Resource} {tr : Trace} → Held rs tr → Held (r ∷ rs) (opened r ∷ tr)
  closing :
      (r : Resource) {rs : List Resource} {tr : Trace} → Held (r ∷ rs) tr → Held rs (closed r ∷ tr)
  other :
      (e : Event) {rs : List Resource} {tr : Trace}
      → is_plain e ≡ true
      → Held rs tr
      → Held rs (e ∷ tr)
