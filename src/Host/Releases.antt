-- ===== src/Host/Releases.antt =====
-- Whether actions close what they open, in the right order: rules for each way to build an action.
use tilt_common.Base.{◌≡◌, refl, sym, subst, true, Option, none, some, List, [], ◌∷◌, ◌++◌}
use tilt_common.Errors.{Step, Error, Result, ok, err, stuck, wrapping}
use tilt_common.Host.{Resource, Event, logged, LogLine, Trace}
use tilt_common.Host.Held.{Held, opening, closing, other, is_plain}
use tilt_common.Host.Io.{
  Io, ◌>>=◌, lift, continue, wrapped, attempt, deferring, act, acquire, close, granted, log, ask,
}

-- The resources `qs`, opened one after the other on top of what is open.
abbrev pub onto : List Resource → List Resource → List Resource
onto [] rs = rs
onto (q ∷ qs) rs = onto qs (q ∷ rs)

onto-append : (ps qs rs : List Resource) → onto qs (onto ps rs) ≡ onto (ps ++ qs) rs
onto-append [] qs rs = refl
onto-append (p ∷ ps) qs rs = onto-append ps qs (p ∷ rs)

-- What is open behind an action that leaves `qs` open if it returns with no error.
abbrev pub left {ℓ} : {A : Type ℓ} → List Resource → List Resource → Result A → List Resource
left qs rs (ok a) = onto qs rs
left qs rs (err e) = rs
left qs rs stuck = rs

-- If `m` starts with the resources `ps` open on top of others, it ends with `qs` in their place if it
-- returns with no error, and with only the others otherwise.
pub record Moves {ℓ} {A : Type ℓ} (ps qs : List Resource) (m : Io A) : Type ℓ where
  pub at :
      (rs : List Resource) (tr : Trace) → Held (onto ps rs) tr → Held (left qs rs (m tr).0) (m tr).1

-- However `m` ends, it closes what it opens, and the resources `qs` on top of that.
abbrev pub Discharges {ℓ} : {A : Type ℓ} → List Resource → Io A → Type ℓ
Discharges qs m = Moves qs [] m

abbrev pub Releases {ℓ} : {A : Type ℓ} → Io A → Type ℓ
Releases m = Moves [] [] m

-- If `m` returns with no error it leaves the resources `qs` open, and nothing otherwise.
abbrev pub Acquires {ℓ} : {A : Type ℓ} → List Resource → Io A → Type ℓ
Acquires qs m = Moves [] qs m

module _ {ℓ} {A : Type ℓ} where
  pub left-nil : (rs : List Resource) (a : Result A) → left [] rs a ≡ rs
  left-nil rs (ok a) = refl
  left-nil rs (err e) = refl
  left-nil rs stuck = refl

  Held-left : (rs : List Resource) (a : Result A) {tr : Trace} → Held rs tr → Held (left [] rs a) tr
  Held-left rs a {tr} h = subst (λ x. Held x tr) (sym (left-nil rs a)) h

  left-Held : (rs : List Resource) (a : Result A) {tr : Trace} → Held (left [] rs a) tr → Held rs tr
  left-Held rs a {tr} h = subst (λ x. Held x tr) (left-nil rs a) h

  left-wrapping :
      (qs rs : List Resource) (s : Step) (a : Result A) → left qs rs (wrapping s a) ≡ left qs rs a
  left-wrapping qs rs s (ok a) = refl
  left-wrapping qs rs s (err e) = refl
  left-wrapping qs rs s stuck = refl

  pub Moves-ok : (qs : List Resource) (a : A) → Moves qs qs (lift (ok a))
  unfolding lift
  Moves-ok qs a = record { at = λ rs tr h. h }

  pub Moves-err : (qs : List Resource) (e : Error) → Moves {A = A} [] qs (lift (err e))
  unfolding lift
  Moves-err qs e = record { at = λ rs tr h. h }

  pub Moves-stuck : (qs : List Resource) → Moves {A = A} [] qs (lift stuck)
  unfolding lift
  Moves-stuck qs = record { at = λ rs tr h. h }

  pub Releases-lift : (a : Result A) → Releases (lift a)
  unfolding lift
  Releases-lift a = record { at = λ rs tr h. Held-left rs a h }

  pub Releases-ask : (f : Trace → A) → Releases (ask f)
  unfolding ask
  Releases-ask f = record { at = λ rs tr h. h }

  pub Moves-wrapped :
      (ps qs : List Resource) (s : Step) (m : Io A) → Moves ps qs m → Moves ps qs (wrapped s m)
  unfolding wrapped
  Moves-wrapped ps qs s m h = record {
    at = λ rs tr k.
        subst (λ x. Held x (m tr).1) (sym (left-wrapping qs rs s (m tr).0)) (h.at rs tr k);
  }

  pub Discharges-wrapped :
      (qs : List Resource) (s : Step) (m : Io A) → Discharges qs m → Discharges qs (wrapped s m)
  Discharges-wrapped qs s m h = Moves-wrapped qs [] s m h

  pub Acquires-wrapped :
      (qs : List Resource) (s : Step) (m : Io A) → Acquires qs m → Acquires qs (wrapped s m)
  Acquires-wrapped qs s m h = Moves-wrapped [] qs s m h

  pub Releases-attempt : (m : Io A) → Releases m → Releases (attempt m)
  unfolding attempt
  Releases-attempt m h = record { at = λ rs tr k. left-Held rs (m tr).0 (h.at rs tr k) }

  pub Discharges-deferring :
      (qs : List Resource) (q : Resource) (m : Io A)
      → Discharges qs m
      → Discharges (q ∷ qs) (deferring q m)
  unfolding deferring
  Discharges-deferring qs q m h = record {
    at = λ rs tr k.
        Held-left rs (m tr).0 (closing q (left-Held (q ∷ rs) (m tr).0 (h.at (q ∷ rs) tr k)));
  }

pub Releases-act :
    (e : Event) (answer : Trace → Option Error) → is_plain e ≡ true → Releases (act e answer)
unfolding act
Releases-act e answer p = record { at = λ rs tr h. Held-left rs _ (other e p h) }

pub Releases-log : (l : LogLine) → Releases (log l)
unfolding log
Releases-log l = record { at = λ rs tr h. other (logged l) refl h }

pub Discharges-close : (q : Resource) → Discharges (q ∷ []) (close q)
unfolding close
Discharges-close q = record { at = λ rs tr h. closing q h }

pub Acquires-acquire :
    (q : Resource) (answer : Trace → Option Error) → Acquires (q ∷ []) (acquire q answer)
unfolding acquire
Acquires-acquire q answer = record { at = λ rs tr h. by_answer rs tr (answer tr) h }
  where
    by_answer :
        (rs : List Resource) (tr : Trace) (o : Option Error)
        → Held rs tr
        → Held (left (q ∷ []) rs (granted q o tr).0) (granted q o tr).1
    by_answer rs tr none h = opening q h
    by_answer rs tr (some e) h = h

module _ {ℓ κ} {A : Type ℓ} {B : Type κ} where
  continue-Held :
      (qs ss : List Resource) (f : A → Io B) (rs : List Resource) (a : Result A) (after : Trace)
      → ((a : A) → Moves qs ss (f a))
      → Held (left qs rs a) after
      → Held (left ss rs (continue a f after).0) (continue a f after).1
  continue-Held qs ss f rs (ok a) after h k = (h a).at rs after k
  continue-Held qs ss f rs (err e) after h k = k
  continue-Held qs ss f rs stuck after h k = k

  -- What `m` leaves open, the rest starts with.
  pub Moves-bind :
      (ps qs ss : List Resource) (m : Io A) (f : A → Io B)
      → Moves ps qs m
      → ((a : A) → Moves qs ss (f a))
      → Moves ps ss (m >>= f)
  unfolding ◌>>=◌
  Moves-bind ps qs ss m f h k = record {
    at = λ rs tr l. continue-Held qs ss f rs (m tr).0 (m tr).1 k (h.at rs tr l);
  }

  pub Acquires-bind :
      (qs : List Resource) (m : Io A) (f : A → Io B)
      → Acquires qs m
      → ((a : A) → Discharges qs (f a))
      → Releases (m >>= f)
  Acquires-bind qs m f h k = Moves-bind [] qs [] m f h k

  pub Releases-bind :
      (m : Io A) (f : A → Io B) → Releases m → ((a : A) → Releases (f a)) → Releases (m >>= f)
  Releases-bind m f h k = Moves-bind [] [] [] m f h k

  handled-Held :
      (ps qs ss : List Resource) (f : Result A → Io B) (rs : List Resource) (a : Result A)
      (after : Trace)
      → ((a : A) → Moves (ps ++ qs) ss (f (ok a)))
      → ((e : Error) → Moves ps ss (f (err e)))
      → Moves ps ss (f stuck)
      → Held (left qs (onto ps rs) a) after
      → Held (left ss rs (f a after).0) (f a after).1
  handled-Held ps qs ss f rs (ok a) after h k l held =
      (h a).at rs after (subst (λ x. Held x after) (onto-append ps qs rs) held)
  handled-Held ps qs ss f rs (err e) after h k l held = (k e).at rs after held
  handled-Held ps qs ss f rs stuck after h k l held = l.at rs after held

  -- An acquisition whose failure the rest handles, with the resources `ps` open.
  pub Acquires-attempt-bind :
      (ps qs ss : List Resource) (m : Io A) (f : Result A → Io B)
      → Acquires qs m
      → ((a : A) → Moves (ps ++ qs) ss (f (ok a)))
      → ((e : Error) → Moves ps ss (f (err e)))
      → Moves ps ss (f stuck)
      → Moves ps ss (attempt m >>= f)
  unfolding ◌>>=◌ attempt
  Acquires-attempt-bind ps qs ss m f h k l s = record {
    at = λ rs tr held.
        handled-Held ps qs ss f rs (m tr).0 (m tr).1 k l s (h.at (onto ps rs) tr held);
  }
