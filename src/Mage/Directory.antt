-- ===== src/Mage/Directory.antt =====
-- The working directory of magefile.go's `E2e.ObservabilityFull`.
use mathlib.Core.Path.{subst}
use tilt_common.Base.{◌≡◌, refl, sym, ◌∙◌, Option, none, some, Bytes}
use tilt_common.Effect.{◌>>=◌, continue, lift, wrapped, attempt}
use tilt_common.Errors.{
  Error, resolving_e2e_dir, getting_directory, changing_to_e2e, Result, ok, err, stuck, wrapping,
}
use tilt_common.Effect.Keeps.{Keeps, view-continue, Keeps-bind}
use tilt_common.Mage.{
  World, Tools, Task, finally, remove, run_binary, getwd, chdir, abs, ensure_e2e_tools, save_images,
  load_images, deploy_from, deploy_and_test, preloaded, observability_full, named_dir, moved,
  resolved, e2e_path,
}

abbrev directory : World → Bytes
directory w = w.cwd

module _ (T : Tools) where
  Keeps-ensure_e2e_tools : Keeps directory (ensure_e2e_tools T)
  unfolding ensure_e2e_tools wrapped lift
  Keeps-ensure_e2e_tools =
      Keeps-bind directory _ _ (λ w. refl)
        λ u.
          Keeps-bind directory _ _ (λ w. refl)
            λ v.
              Keeps-bind directory _ _ (λ w. refl)
                λ x. Keeps-bind directory _ _ (λ w. refl) λ dir w. refl

  module _ (d : Bytes) (back : (w : World) → T.chdir_error w d ≡ none) where
    finally-chdir : (m : Task (Unit {0})) (w : World) → (finally (chdir T d) m w).1.cwd ≡ d
    unfolding finally chdir
    finally-chdir m w = rw (back (m w).1)

    moved-deploy :
        (o : Option Error) (dir env : Bytes) (w : World)
        → w.cwd ≡ d
        → (continue
            (wrapping changing_to_e2e (moved T o dir w).0)
            (λ u. deploy_from T d env)
            (moved T o dir w).1).1.cwd
          ≡ d
    unfolding deploy_from
    moved-deploy none dir env w h = finally-chdir _ _
    moved-deploy (some e) dir env w h = h

  -- Going back to `d` works wherever the process is.
  abbrev pub Back : Bytes → Type 0
  Back d = (w : World) → T.chdir_error w d ≡ none

  from_named :
      (o : Option Error) (dir env : Bytes) (w : World)
      → Back w.cwd
      → (continue
          (wrapping getting_directory (named_dir T o w))
          (λ original. wrapped changing_to_e2e (chdir T dir) >>= λ u. deploy_from T original env)
          w).1.cwd
        ≡ w.cwd
  unfolding ◌>>=◌ wrapped chdir
  from_named none dir env w back = moved-deploy w.cwd back (T.chdir_error w dir) dir env w refl
  from_named (some e) dir env w back = refl

  deploy_and_test-cwd :
      (env : Bytes) (w : World) → Back w.cwd → (deploy_and_test T env w).1.cwd ≡ w.cwd
  unfolding deploy_and_test ◌>>=◌ wrapped abs getwd
  deploy_and_test-cwd env w back =
      view-continue directory
        (wrapping resolving_e2e_dir (resolved T (T.abs_path w.cwd (e2e_path T)))) _ w
        (λ dir. from_named (T.getwd_error w) dir env w back)

  deploy_and_test-eq :
      (d env : Bytes) (w : World) → Back d → w.cwd ≡ d → (deploy_and_test T env w).1.cwd ≡ d
  deploy_and_test-eq d env w back h =
      deploy_and_test-cwd env w (λ w'. subst (λ c. T.chdir_error w' c ≡ none) (sym h) (back w')) ∙ h

  preloaded-cwd :
      (d env : Bytes) (saved : Result (Unit {0})) (w : World)
      → Back d
      → w.cwd ≡ d
      → (preloaded T saved (deploy_and_test T env) w).1.cwd ≡ d
  unfolding preloaded finally remove attempt ◌>>=◌ load_images run_binary lift
  preloaded-cwd d env (ok u) w back h = deploy_and_test-eq d env _ back h
  preloaded-cwd d env (err e) w back h = deploy_and_test-eq d env w back h
  preloaded-cwd d env stuck w back h = h

  full_from-cwd :
      (r : Result Bytes) (w : World)
      → Back w.cwd
      → (continue r
          (λ env. attempt (save_images T) >>= λ saved. preloaded T saved (deploy_and_test T env))
          w).1.cwd
        ≡ w.cwd
  unfolding ◌>>=◌ attempt save_images run_binary
  full_from-cwd (ok env) w back = preloaded-cwd w.cwd env _ _ back refl
  full_from-cwd (err e) w back = refl
  full_from-cwd stuck w back = refl

  -- If the process can go back to the directory that the target starts in, it is in that directory
  -- when the target ends, on every path.
  pub observability_full-cwd :
      (w : World)
      → ((w' : World) → T.chdir_error w' w.cwd ≡ none)
      → (observability_full T w).1.cwd ≡ w.cwd
  unfolding observability_full ◌>>=◌
  observability_full-cwd w back =
      let e = Keeps-ensure_e2e_tools w in
      full_from-cwd (ensure_e2e_tools T w).0 (ensure_e2e_tools T w).1
        (λ w'. subst (λ c. T.chdir_error w' c ≡ none) (sym e) (back w'))
      ∙ e
