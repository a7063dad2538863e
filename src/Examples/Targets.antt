-- ===== src/Examples/Targets.antt =====
-- The theorems on the build targets at concrete inputs.
use tilt_common.Base.{◌≡◌, refl, some, List, [], ◌∷◌, Bytes, codes}
use tilt_common.Effect.{◌>>=◌, wrapped, attempt, lift}
use tilt_common.Mage.{
  ensure, run_binary, getwd, chdir, abs, finally, remove, ensure_e2e_tools, path_env, tools_path,
  e2e_path, deploy, test_e2e, deploy_from, deploy_and_test, load_images, save_images, preloaded,
  observability_full,
}
use tilt_common.Mage.Directory.{observability_full-cwd}
use tilt_common.Mage.Order.{
  worked, save_error, after_saving, saving, tools_ready, observability_full-eq-ok,
}
use tilt_common.Samples.{working, repository}

observability_full-cwd_example : (observability_full working repository).1.cwd ≡ codes "repo"
observability_full-cwd_example = observability_full-cwd working repository (λ w. refl)

observability_full-eq-ok_example :
    (tools_dir : Bytes) × (e2e_dir : Bytes) × (working.abs_path (codes "repo") (tools_path working)
      ≡ some tools_dir)
    × (working.abs_path (codes "repo") (e2e_path working) ≡ some e2e_dir)
    × ((observability_full working repository).1.history
        ≡ after_saving working
            (worked working (save_error working repository))
            e2e_dir
            (codes "repo")
            (path_env working tools_dir)
            (saving working (codes "repo") ∷ tools_ready []))
unfolding observability_full ensure_e2e_tools ensure run_binary getwd chdir abs finally remove
    deploy test_e2e deploy_from deploy_and_test load_images save_images preloaded ◌>>=◌ wrapped
    attempt lift
observability_full-eq-ok_example = observability_full-eq-ok working repository refl

abbrev packages : List Bytes
packages = codes "./tests/observability/" ∷ []
