-- ===== src/Parca/Names.antt =====
-- `sanitizeProfileName`: what it promises of the names of profile files.
use mathlib.Core.Path.{subst}
use tilt_common.Base.{◌↔◌, ℕ, ◌≡◌, ◌≢◌, refl, [], ◌∷◌, map, arith, Bytes, All, length, length-map}
use tilt_common.Parca.{sanitize_byte, sanitize_profile_name}

-- No byte that separates paths, and neither a colon nor a blank.
abbrev pub IsSafe : ℕ → Type 0
IsSafe c = (c ≢ b':') × ((c ≢ b'/') × (c ≢ b' '))

sanitize_byte-IsSafe : (c : ℕ) → IsSafe (sanitize_byte c)
unfolding sanitize_byte
sanitize_byte-IsSafe c = (ground arith, (ground arith, ground arith))

sanitize_byte_id : (c : ℕ) → IsSafe c → sanitize_byte c ≡ c
unfolding sanitize_byte
sanitize_byte_id c h = ground arith

IsSafe-map : (s : Bytes) → All IsSafe (map sanitize_byte s)
IsSafe-map [] = tt
IsSafe-map (c ∷ s) = (sanitize_byte-IsSafe c, IsSafe-map s)

map_id : (s : Bytes) → All IsSafe s → map sanitize_byte s ≡ s
map_id [] h = refl
map_id (c ∷ s) (h, hs) = rw (sanitize_byte_id c h, map_id s hs)

-- A sanitized name is as long as the profile type and holds no colon, slash or blank, and it is the
-- profile type itself exactly if that holds none.
pub sanitize_profile_name-IsSafe :
    (s : Bytes)
    → (length (sanitize_profile_name s) ≡ length s)
      × ((All IsSafe (sanitize_profile_name s)) × ((sanitize_profile_name s ≡ s) ↔ All IsSafe s))
unfolding sanitize_profile_name
sanitize_profile_name-IsSafe s = (
  length-map sanitize_byte s,
  (IsSafe-map s, (λ e. subst (All IsSafe) e (IsSafe-map s), map_id s)),
)
