-- ===== src/Mage/Order.antt =====
-- Which programs the end-to-end targets start, where, and in which order.
use tilt_common.Base.{
  ◌≡◌, refl, sym, ap, ◌∙◌, Bool, true, false, Option, none, some, List, [], ◌∷◌, Bytes, codes,
  if◌then◌else◌,
}
use tilt_common.Effect.{◌>>=◌, continue, lift, wrapped, attempt}
use tilt_common.Effect.Outcomes.{bind-eq-ok, bind-step, wrapping-eq-ok}
use tilt_common.Errors.{
  Error, resolving_tools_dir, resolving_e2e_dir, getting_directory, changing_to_e2e,
  deploying_with_tilt, changing_back, ok,
}
use tilt_common.Mage.{
  Action, ensured, ran, removed, World, Tools, refusal, finally, remove, images, ensure, run_binary,
  getwd, chdir, abs, path_env, tools_path, ensure_e2e_tools, save_images, load_images, deploy,
  test_e2e, deploy_from, deploy_and_test, preloaded, observability_full, named_dir, moved, resolved,
  archive_path, e2e_path,
}

-- The tools that were ensured, the latest first.
abbrev pub tools_ready : List Action → List Action
tools_ready history =
    ensured (codes "kubectl") ∷ ensured (codes "helm") ∷ ensured (codes "tilt") ∷ history

abbrev pub ready : World → World
ready w = record w { history = tools_ready w.history }

abbrev pub e2e_test_args : List Bytes
e2e_test_args =
    codes "test"
    ∷ codes "-v"
    ∷ codes "-count=1"
    ∷ codes "-timeout=15m"
    ∷ codes "-tags=e2e"
    ∷ codes "./tests/observability/"
    ∷ []

module _ (T : Tools) where
  resolved-eq-ok : (o : Option Bytes) {dir : Bytes} → resolved T o ≡ ok dir → o ≡ some dir
  resolved-eq-ok none h = cc
  resolved-eq-ok (some d) h = cc

  pub ensure_e2e_tools-eq-ok :
      (w : World) {env : Bytes}
      → (ensure_e2e_tools T w).0 ≡ ok env
      → (dir : Bytes) × (T.abs_path w.cwd (tools_path T) ≡ some dir)
        × (ensure_e2e_tools T w ≡ (ok (path_env T dir), ready w))
  unfolding ensure_e2e_tools ensure abs wrapped lift
  ensure_e2e_tools-eq-ok w h =
      let (u1, p1, q1) = bind-eq-ok (ensure T (codes "tilt")) _ w h in
      let (u2, p2, q2) = bind-eq-ok (ensure T (codes "helm")) _ _ q1 in
      let (u3, p3, q3) = bind-eq-ok (ensure T (codes "kubectl")) _ _ q2 in
      let (dir, p4, q4) = bind-eq-ok (wrapped resolving_tools_dir (abs T (tools_path T))) _ _ q3 in
      (
        dir,
        resolved-eq-ok _ (wrapping-eq-ok resolving_tools_dir _ p4),
        bind-step (ensure T (codes "tilt")) _ w p1
            ∙ bind-step (ensure T (codes "helm")) _ _ p2
            ∙ bind-step (ensure T (codes "kubectl")) _ _ p3
            ∙ bind-step (wrapped resolving_tools_dir (abs T (tools_path T))) _ _ p4,
      )

  chdir-eq-ok :
      (dir : Bytes) (w : World) {u : Unit {0}}
      → (chdir T dir w).0 ≡ ok u
      → (chdir T dir w).1 ≡ record w { cwd = dir }
  unfolding chdir
  chdir-eq-ok dir w = by_error (T.chdir_error w dir)
    where
      by_error :
          (o : Option Error) {u : Unit {0}}
          → (moved T o dir w).0 ≡ ok u
          → (moved T o dir w).1 ≡ record w { cwd = dir }
      by_error none h = refl
      by_error (some e) h = cc

  chdir-history : (dir : Bytes) (w : World) → (chdir T dir w).1.history ≡ w.history
  unfolding chdir
  chdir-history dir w = by_error (T.chdir_error w dir)
    where
      by_error : (o : Option Error) → (moved T o dir w).1.history ≡ w.history
      by_error none = refl
      by_error (some e) = refl

  named-eq-ok :
      (o : Option Error) (w : World) {dir : Bytes} → named_dir T o w ≡ ok dir → dir ≡ w.cwd
  named-eq-ok none w h = cc
  named-eq-ok (some e) w h = cc

  -- `tilt ci` in the directory of the tests, then the tests in `dir`.
  abbrev pub tested : Bytes → Bytes → Bytes → List Action → List Action
  tested e2e_dir dir env history =
      ran (codes "go") dir e2e_test_args (env ∷ codes "CGO_ENABLED=1" ∷ [])
      ∷ ran (codes "tilt") e2e_dir (codes "ci" ∷ codes "--timeout=5m" ∷ []) (env ∷ [])
      ∷ history

  deploy_from-eq-ok :
      (d env : Bytes) (w : World)
      → (deploy_from T d env w).0 ≡ ok tt
      → (deploy_from T d env w).1.history ≡ tested w.cwd d env w.history
  unfolding deploy_from finally deploy test_e2e run_binary wrapped
  deploy_from-eq-ok d env w h =
      let (u1, p1, q1) = bind-eq-ok (wrapped deploying_with_tilt (deploy T env)) _ w h in
      let (u2, p2, q2) = bind-eq-ok (wrapped changing_back (chdir T d)) _ _ q1 in
      chdir-history d _
      ∙ ap (λ x. x.1.history)
          (bind-step (wrapped deploying_with_tilt (deploy T env)) _ w p1
            ∙ bind-step (wrapped changing_back (chdir T d)) _ _ p2)
      ∙ ap
          (λ (v : World).
            ran (codes "go") v.cwd e2e_test_args (env ∷ codes "CGO_ENABLED=1" ∷ []) ∷ v.history)
          (chdir-eq-ok d _ (wrapping-eq-ok changing_back _ p2))

  deploy_and_test-eq-ok :
      (env : Bytes) (w : World)
      → (deploy_and_test T env w).0 ≡ ok tt
      → (e2e_dir : Bytes) × (T.abs_path w.cwd (e2e_path T) ≡ some e2e_dir)
        × ((deploy_and_test T env w).1.history ≡ tested e2e_dir w.cwd env w.history)
  unfolding deploy_and_test abs getwd wrapped
  deploy_and_test-eq-ok env w h =
      let (e2e_dir, p1, q1) = bind-eq-ok (wrapped resolving_e2e_dir (abs T (e2e_path T))) _ w h in
      let (d, p2, q2) = bind-eq-ok (wrapped getting_directory (getwd T)) _ w q1 in
      let (u, p3, q3) = bind-eq-ok (wrapped changing_to_e2e (chdir T e2e_dir)) _ w q2 in
      let there = chdir-eq-ok e2e_dir w (wrapping-eq-ok changing_to_e2e _ p3) in
      let here = named-eq-ok (T.getwd_error w) w (wrapping-eq-ok getting_directory _ p2) in
      (
        e2e_dir,
        resolved-eq-ok _ (wrapping-eq-ok resolving_e2e_dir _ p1),
        ap (λ x. x.1.history)
              (bind-step (wrapped resolving_e2e_dir (abs T (e2e_path T))) _ w p1
                ∙ bind-step (wrapped getting_directory (getwd T)) _ w p2
                ∙ bind-step (wrapped changing_to_e2e (chdir T e2e_dir)) _ w p3)
            ∙ deploy_from-eq-ok d env (chdir T e2e_dir w).1 q3
            ∙ ap (λ (v : World). tested v.cwd d env v.history) there
            ∙ ap (λ c. tested e2e_dir c env w.history) here,
      )

  -- `kind load` of the archive.
  abbrev pub loading : Bytes → Action
  loading dir =
      ran (codes "kind") dir
        (codes "load"
          ∷ codes "image-archive"
          ∷ archive_path T
          ∷ codes "--name"
          ∷ codes "tilt-dev"
          ∷ [])
        []

  -- `docker save` of the images.
  abbrev pub saving : Bytes → Action
  saving dir = ran (codes "docker") dir (codes "save" ∷ codes "-o" ∷ archive_path T ∷ images) []

  -- Whether the images are saved.
  abbrev pub worked : Option Error → Bool
  worked none = true
  worked (some e) = false

  abbrev pub after_saving : Bool → Bytes → Bytes → Bytes → List Action → List Action
  after_saving saved e2e_dir dir env history =
      if saved
      then removed (archive_path T) ∷ tested e2e_dir dir env (loading dir ∷ history)
      else tested e2e_dir dir env history

  preloaded-eq-ok :
      (o : Option Error) (env : Bytes) (w : World)
      → (preloaded T (refusal o) (deploy_and_test T env) w).0 ≡ ok tt
      → (e2e_dir : Bytes) × (T.abs_path w.cwd (e2e_path T) ≡ some e2e_dir)
        × ((preloaded T (refusal o) (deploy_and_test T env) w).1.history
            ≡ after_saving (worked o) e2e_dir w.cwd env w.history)
  unfolding preloaded finally remove load_images run_binary attempt ◌>>=◌
  preloaded-eq-ok none env w h =
      let (e2e_dir, p, q) =
        deploy_and_test-eq-ok env (record w { history = loading w.cwd ∷ w.history }) h in
      (e2e_dir, p, ap (λ actions. removed (archive_path T) ∷ actions) q)
  preloaded-eq-ok (some e) env w h = deploy_and_test-eq-ok env w h

  -- The error of `docker save`, once the tools are there.
  abbrev pub save_error : World → Option Error
  save_error w =
      T.run_error (ready w) (codes "docker") (codes "save" ∷ codes "-o" ∷ archive_path T ∷ images)
        []

  -- `ObservabilityFull` ends with no error only if it did all of this, in this order: it ensured
  -- tilt, helm and kubectl; ran `docker save`, and `kind load` if that worked; ran `tilt ci` in the
  -- directory of the tests, with the tools first on the path; ran the tests in the directory that it
  -- started in; and removed the archive if it was saved.
  pub observability_full-eq-ok :
      (w : World)
      → (observability_full T w).0 ≡ ok tt
      → (tools_dir : Bytes) × (e2e_dir : Bytes) × (T.abs_path w.cwd (tools_path T) ≡ some tools_dir)
        × (T.abs_path w.cwd (e2e_path T) ≡ some e2e_dir)
        × ((observability_full T w).1.history
            ≡ after_saving
                (worked (save_error w))
                e2e_dir
                w.cwd
                (path_env T tools_dir)
                (saving w.cwd ∷ tools_ready w.history))
  unfolding observability_full attempt save_images run_binary ◌>>=◌
  observability_full-eq-ok w h =
      let (env, p, q) = bind-eq-ok (ensure_e2e_tools T) _ w h in
      let (tools_dir, path, e) = ensure_e2e_tools-eq-ok w p in
      let rest = λ (env : Bytes).
        attempt (save_images T) >>= λ saved. preloaded T saved (deploy_and_test T env) in
      let run = ap (λ x. continue x.0 rest x.1) e in
      let (e2e_dir, path', done) =
        preloaded-eq-ok (save_error w) (path_env T tools_dir)
          (record w { history = saving w.cwd ∷ tools_ready w.history })
          (sym (ap (λ x. x.0) run) ∙ h) in
      (tools_dir, e2e_dir, path, path', ap (λ x. x.1.history) run ∙ done)
