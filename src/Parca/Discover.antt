-- ===== src/Parca/Discover.antt =====
-- `discoverParcaAPI`: which candidate it settles on.
use mathlib.Core.Path.{subst}
use tilt_common.Base.{ap, ◌↔◌, sym, ◌∙◌, ◌≡◌, refl, Option, List, [], ◌∷◌, Bytes}
use tilt_common.Errors.{Error, Result, ok, err, stuck}
use tilt_common.Host.{Client, Host, Trace}
use tilt_common.Host.Io.{◌>>=◌, lift, attempt}
use tilt_common.Parca.{
  ParcaApi, fetch_profile_types_with_api, found_or_next, probe, discover_parca_api, noting,
  parca_api_candidates,
}

module _ (H : Host) (client : Option Client) (url : Bytes) where
  abbrev fetched : ParcaApi → Trace → Result (List Bytes)
  fetched api tr = (fetch_profile_types_with_api H client url api tr).0

  abbrev behind : ParcaApi → Trace → Trace
  behind api tr = (fetch_profile_types_with_api H client url api tr).1

  -- `Answers candidates tr api types`: asked in turn, the candidates before `api` fail, each after
  -- the ones before it, and `api` answers with `types`.
  pub data Answers : List ParcaApi → Trace → ParcaApi → List Bytes → Type 0 where
    here :
        {candidates : List ParcaApi} {tr : Trace} {api : ParcaApi} {types : List Bytes}
        → fetched api tr ≡ ok types
        → Answers (api ∷ candidates) tr api types
    there :
        {first : ParcaApi} {candidates : List ParcaApi} {tr : Trace} {api : ParcaApi}
        {types : List Bytes} {e : Error}
        → fetched first tr ≡ err e
        → Answers candidates (behind first tr) api types
        → Answers (first ∷ candidates) tr api types

  noting-eq-ok :
      (path : Bytes) (e : Error) (r : Result (ParcaApi × List Bytes))
      {found : ParcaApi × List Bytes}
      → noting path e r ≡ ok found
      → r ≡ ok found
  noting-eq-ok path e (ok x) h = h
  noting-eq-ok path e (err x) h = cc
  noting-eq-ok path e stuck h = cc

  probe-step :
      (first : ParcaApi) (candidates : List ParcaApi) (tr : Trace) {r : Result (List Bytes)}
      → fetched first tr ≡ r
      → (probe H client url (first ∷ candidates) tr).0
        ≡ (found_or_next H first r (probe H client url candidates) (behind first tr)).0
  unfolding probe attempt ◌>>=◌
  probe-step first candidates tr p = rw p

  -- One step of the theorem that follows, by what the first candidate answers.
  first_answer :
      (first : ParcaApi) (candidates : List ParcaApi) (tr : Trace) {api : ParcaApi}
      {types : List Bytes} (r : Result (List Bytes))
      → fetched first tr ≡ r
      → ((probe H client url candidates (behind first tr)).0 ≡ ok (api, types)
          → Answers candidates (behind first tr) api types)
      → (found_or_next H first r (probe H client url candidates) (behind first tr)).0
        ≡ ok (api, types)
      → Answers (first ∷ candidates) tr api types
  unfolding found_or_next
  first_answer first candidates tr {api} {types} (ok found) p later h =
      subst (λ a. Answers (first ∷ candidates) tr a.0 a.1) (ap answer h) (here p)
    where
      answer : Result (ParcaApi × List Bytes) → ParcaApi × List Bytes
      answer (ok found) = found
      answer (err e) = (api, types)
      answer stuck = (api, types)
  first_answer first candidates tr (err e) p later h =
      there p (later (noting-eq-ok first.profile_types_path e _ h))
  first_answer first candidates tr stuck p later h = cc

  probe-Answers :
      (candidates : List ParcaApi) (tr : Trace) {api : ParcaApi} {types : List Bytes}
      → (probe H client url candidates tr).0 ≡ ok (api, types)
      → Answers candidates tr api types
  unfolding lift
  probe-Answers [] tr h = unfold probe in cc
  probe-Answers (first ∷ candidates) tr h =
      first_answer first candidates tr (fetched first tr) refl
        (probe-Answers candidates (behind first tr)) (sym (probe-step first candidates tr refl) ∙ h)

  Answers-probe :
      {candidates : List ParcaApi} {tr : Trace} {api : ParcaApi} {types : List Bytes}
      → Answers candidates tr api types
      → (probe H client url candidates tr).0 ≡ ok (api, types)
  unfolding probe attempt ◌>>=◌ found_or_next
  Answers-probe (here p) = rw p
  Answers-probe (there p a) = rw (p, Answers-probe a)

  -- Discovery settles on a candidate exactly if the candidate answers its request for the profile
  -- types and all candidates before it, asked in their order, failed; its types are those of the
  -- answer.
  pub discover_parca_api_iff :
      (tr : Trace) (api : ParcaApi) (types : List Bytes)
      → ((discover_parca_api H client url tr).0 ≡ ok (api, types))
        ↔ Answers parca_api_candidates tr api types
  unfolding discover_parca_api
  discover_parca_api_iff tr api types = (probe-Answers parca_api_candidates tr, Answers-probe)
