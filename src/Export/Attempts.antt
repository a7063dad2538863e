-- ===== src/Export/Attempts.antt =====
-- The loop over the exporters: which of them ran, from which trace, and what is kept of each.
use tilt_common.Base.{
  ℕ, suc, ◌+◌, ◌≡◌, refl, sym, subst, ◌∙◌, Bool, true, false, List, [], ◌∷◌, ◌++◌, append-nil,
  append_assoc, if◌then◌else◌, arith, length,
}
use tilt_common.Errors.{exporting, Error, wrap, Result, ok, err, stuck}
use tilt_common.Export.{Exporter, Tally, count_result, run_exporter, run_exporters}
use tilt_common.Host.{Trace}
use tilt_common.Host.Io.{◌>>=◌, lift, attempt}

-- The exporters in turn, between two traces: how many ran, how many of them returned no error, and
-- the errors of the others, in their order and with the exporter's name.
pub data Attempts : List Exporter → Trace → Trace → ℕ → ℕ → List Error → Type 0 where
  all_done : (tr : Trace) → Attempts [] tr tr 0 0 []
  left_out :
      (exp : Exporter) {exporters : List Exporter} {tr tr' : Trace} {m n : ℕ} {errors : List Error}
      → exp.skip ≡ true
      → Attempts exporters tr tr' m n errors
      → Attempts (exp ∷ exporters) tr tr' m n errors
  worked :
      (exp : Exporter) {exporters : List Exporter} {tr tr' : Trace} {m n : ℕ} {errors : List Error}
      → exp.skip ≡ false
      → (exp.run tr).0 ≡ ok tt
      → Attempts exporters (exp.run tr).1 tr' m n errors
      → Attempts (exp ∷ exporters) tr tr' (suc m) (suc n) errors
  failed :
      (exp : Exporter) {exporters : List Exporter} {tr tr' : Trace} {m n : ℕ} {errors : List Error}
      (e : Error)
      → exp.skip ≡ false
      → (exp.run tr).0 ≡ err e
      → Attempts exporters (exp.run tr).1 tr' m n errors
      → Attempts (exp ∷ exporters) tr tr' (suc m) n (wrap (exporting exp.name) e ∷ errors)

-- What the loop has added to its variables.
pub record Tallied (exporters : List Exporter) (t t' : Tally) (tr tr' : Trace) : Type 0 where
  pub attempts : ℕ
  pub successes : ℕ
  pub failures : List Error
  pub ran : Attempts exporters tr tr' attempts successes failures
  pub attempted : t'.attempted ≡ t.attempted + attempts
  pub succeeded : t'.succeeded ≡ t.succeeded + successes
  pub errors : t'.errors ≡ t.errors ++ failures

abbrev Tallies : List Exporter → Tally → Trace → Result Tally × Trace → Type 0
Tallies exporters t tr (result, tr') = (t' : Tally) → result ≡ ok t' → Tallied exporters t t' tr tr'

-- One exporter, by what its run returns.
Tallies-count_result :
    (exp : Exporter) (exporters : List Exporter) (t : Tally) (tr : Trace)
    (result : Result (Unit {0}))
    → exp.skip ≡ false
    → (exp.run tr).0 ≡ result
    → ((t' : Tally) (tr' : Trace) → Tallies exporters t' tr' (run_exporters exporters t' tr'))
    → Tallies
        (exp ∷ exporters)
        t
        tr
        ((count_result exp.name t result >>= run_exporters exporters) (exp.run tr).1)
unfolding count_result ◌>>=◌ lift
Tallies-count_result exp exporters t tr (ok u) skip p rest t' h =
    let a = rest _ (exp.run tr).1 t' h in
    record {
      attempts = suc a.attempts;
      successes = suc a.successes;
      failures = a.failures;
      ran = worked exp skip p a.ran;
      attempted = omega (arith, a.attempted);
      succeeded = omega (arith, a.succeeded);
      errors = a.errors;
    }
Tallies-count_result exp exporters t tr (err e) skip p rest t' h =
    let a = rest _ (exp.run tr).1 t' h in
    record {
      attempts = suc a.attempts;
      successes = a.successes;
      failures = wrap (exporting exp.name) e ∷ a.failures;
      ran = failed exp e skip p a.ran;
      attempted = omega (arith, a.attempted);
      succeeded = a.succeeded;
      errors = a.errors ∙ append_assoc t.errors (wrap (exporting exp.name) e ∷ []) a.failures;
    }
Tallies-count_result exp exporters t tr stuck skip p rest t' h = absurd (cc)

none_left : (t t' : Tally) (tr : Trace) → ok t ≡ ok t' → Tallied [] t t' tr tr
none_left t t' tr h =
    let e : t ≡ t' = cc in
    subst (λ x. Tallied [] t x tr tr) e
      (record {
        attempts = 0;
        successes = 0;
        failures = [];
        ran = all_done tr;
        attempted = omega arith;
        succeeded = omega arith;
        errors = sym (append-nil t.errors);
      })

-- When the loop over the exporters ends, every exporter that is not skipped was run in turn, whether
-- or not others failed before it; as many attempts are counted as exporters ran, and as many
-- successes as returned no error; and the errors of the others are kept, in their order and with the
-- exporter's name.
pub run_exporters-Tallied :
    (exporters : List Exporter) (t : Tally) (tr : Trace)
    → (t' : Tally) → (run_exporters exporters t tr).0 ≡ ok t'
    → Tallied exporters t t' tr (run_exporters exporters t tr).1
unfolding run_exporters run_exporter lift ◌>>=◌ attempt
run_exporters-Tallied [] t tr = λ t' h. none_left t t' tr h
run_exporters-Tallied (exp ∷ exporters) t tr =
    by_skip exp.skip refl (λ t₁ tr₁. run_exporters-Tallied exporters t₁ tr₁)
  where
    by_skip :
        (b : Bool)
        → exp.skip ≡ b
        → ((t' : Tally) (tr' : Trace) → Tallies exporters t' tr' (run_exporters exporters t' tr'))
        → Tallies (exp ∷ exporters) t tr (
            ((if b then lift (ok t) else attempt exp.run >>= count_result exp.name t)
                >>= run_exporters exporters)
              tr)
    by_skip true p rest = λ t' h.
        let a = rest t tr t' h in
        record {
          attempts = a.attempts;
          successes = a.successes;
          failures = a.failures;
          ran = left_out exp p a.ran;
          attempted = a.attempted;
          succeeded = a.succeeded;
          errors = a.errors;
        }
    by_skip false p rest = Tallies-count_result exp exporters t tr (exp.run tr).0 p refl rest

-- Each attempt is a success or leaves an error.
pub Attempts-length :
    {exporters : List Exporter} {tr tr' : Trace} {m n : ℕ} {errors : List Error}
    → Attempts exporters tr tr' m n errors
    → m ≡ n + length errors
Attempts-length (all_done tr) = refl
Attempts-length (left_out exp p a) = Attempts-length a
Attempts-length (worked exp p e a) = omega (arith, Attempts-length a)
Attempts-length (failed exp x p e a) = omega (arith, Attempts-length a)
