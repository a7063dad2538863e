-- ===== src/Base/Dict.antt =====
-- Go's `map[string]V`. A map is an association list, the first entry of a key being the one that
-- counts; statements go by `lookup`, so the order of a Go map's entries does not show in them.
use tilt_common.Base.Tests.{if◌then◌else◌}
use tilt_common.Base.Strings.{Bytes, same, same_iff}
use mathlib.Core.Path.{ap, sym, ◌∙◌, ◌≡◌, refl}
use mathlib.Core.Option.{Option, none, some}
use mathlib.Core.List.{List, [], ◌∷◌}
use mathlib.Core.Bool.{Bool, true, false}
use native.Mathlib.Omega.{arith}

abbrev pub Dict {ℓ} : Type ℓ → Type ℓ
Dict V = List (Bytes × V)

module _ {ℓ} {V : Type ℓ} where
  -- `v, found := m[k]`
  unfoldable pub lookup : Bytes → Dict V → Option V
  lookup k [] = none
  lookup k ((j, v) ∷ m) = if same j k then some v else lookup k m

  -- `m[k] = v`
  unfoldable pub insert : Bytes → V → Dict V → Dict V
  insert k v [] = (k, v) ∷ []
  insert k v ((j, w) ∷ m) = if same j k then (k, v) ∷ m else (j, w) ∷ insert k v m

  -- `delete(m, k)`
  unfoldable pub erase : Bytes → Dict V → Dict V
  erase k [] = []
  erase k ((j, w) ∷ m) = let rest = erase k m in if same j k then rest else (j, w) ∷ rest

  pub lookup-insert :
      (j k : Bytes) (v : V) (m : Dict V)
      → lookup j (insert k v m) ≡ (if same k j then some v else lookup j m)
  unfolding lookup insert
  lookup-insert j k v [] = refl
  lookup-insert j k v ((i, w) ∷ m) =
      ground (arith, same_iff k j, same_iff i k, same_iff i j, lookup-insert j k v m)

  pub lookup-erase :
      (j k : Bytes) (m : Dict V) → lookup j (erase k m) ≡ (if same k j then none else lookup j m)
  unfolding lookup erase
  lookup-erase j k [] = ground arith
  lookup-erase j k ((i, w) ∷ m) =
      ground (arith, same_iff k j, same_iff i k, same_iff i j, lookup-erase j k m)

  -- No key stands in it twice, as in every Go map.
  abbrev pub IsMap : Dict V → Type ℓ
  IsMap [] = Unit
  IsMap ((k, v) ∷ m) = (lookup k m ≡ none) × IsMap m

  pub erase-IsMap : (k : Bytes) (m : Dict V) → IsMap m → IsMap (erase k m)
  unfolding erase
  erase-IsMap k [] h = tt
  erase-IsMap k ((j, w) ∷ m) (h, hs) =
      by_key (same j k) (lookup-erase j k m ∙ if_none (same k j) h) (erase-IsMap k m hs)
    where
      if_none : (b : Bool) {o : Option V} → o ≡ none → (if b then none else o) ≡ none
      if_none true p = refl
      if_none false p = p

      by_key :
          (b : Bool)
          → lookup j (erase k m) ≡ none
          → IsMap (erase k m)
          → IsMap (if b then erase k m else (j, w) ∷ erase k m)
      by_key true p q = q
      by_key false p q = (p, q)

pub lookup-nil {ℓ} : {V : Type ℓ} (k : Bytes) → lookup {V = V} k [] ≡ none
unfolding lookup
lookup-nil k = refl

pub ruleset dict_laws = (lookup-nil, lookup-insert, lookup-erase)

abbrev pub or_else {ℓ} : {A : Type ℓ} → Option A → Option A → Option A
or_else none o = o
or_else (some a) o = some a

-- One round of a loop that copies a map but for some keys: `skips` says whether the round's key is
-- left out, `left_out` whether the key asked for is, and `hit` whether they are the same.
pub copy_step {ℓ} :
    {A : Type ℓ} (skips left_out hit : Bool) (v : A) (later before : Option A)
    → (hit ≡ true → (skips ≡ left_out) × (later ≡ none))
    → (if left_out
        then (if skips then before else if hit then some v else before)
        else or_else later (if skips then before else if hit then some v else before))
      ≡ (if left_out then before else or_else (if hit then some v else later) before)
copy_step skips left_out hit v none before h = ground arith
copy_step skips left_out hit v (some w) before h = ground arith

pub lookup-if_insert {ℓ} :
    {V : Type ℓ} (skips : Bool) (k j : Bytes) (v : V) (m : Dict V)
    → lookup k (if skips then m else insert j v m)
      ≡ (if skips then lookup k m else if same j k then some v else lookup k m)
lookup-if_insert true k j v m = refl
lookup-if_insert false k j v m = lookup-insert k j v m

-- Two names of one key, the first of which has its only entry in front of `m`.
pub one_key {ℓ} :
    {V : Type ℓ} (skips : Bytes → Bool) (k j : Bytes) (m : Dict V)
    → lookup j m ≡ none
    → same j k ≡ true
    → (skips j ≡ skips k) × (lookup k m ≡ none)
one_key skips k j m h e =
    let p = (same_iff j k).0 e in (ap skips p, ap (λ x. lookup x m) (sym p) ∙ h)
