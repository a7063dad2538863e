-- ===== src/Mage.antt =====
-- magefile.go: the targets that lint, build and test the repository. The programs that they start,
-- mage-common's tools and package os are a parameter.
pub mod Order
pub mod Guard
pub mod Directory
use tilt_common.Base.{ℕ, Option, none, some, List, [], ◌∷◌, ◌++◌, Bool, true, false, Bytes, codes}
use tilt_common.Effect.{Effect, ◌>>=◌, ◌>>◌, lift, pure, wrapped, attempt, ask}
use tilt_common.Errors.{
  resolving_tools_dir, resolving_e2e_dir, getting_directory, changing_to_e2e, deploying_with_tilt,
  changing_back, running_e2e_tests, Error, Result, ok, err, stuck,
}

-- What a target did, that others can see.
pub data Action : Type 0 where
  ensured : Bytes → Action
  -- a program, the directory it ran in, its arguments and the additions to its environment
  ran : Bytes → Bytes → List Bytes → List Bytes → Action
  -- a tool that mage-common runs, and its arguments
  ran_tool : Bytes → List Bytes → Action
  removed : Bytes → Action

-- The working directory of the process, by the name that `os.Getwd` has for it, and what was done,
-- the latest first.
pub record World : Type 0 where
  pub cwd : Bytes
  pub history : List Action

pub record Tools : Type 0 where
  pub ensure_error : World → Bytes → Option Error
  pub run_tool_error : World → Bytes → List Bytes → Option Error
  pub run_error : World → Bytes → List Bytes → List Bytes → Option Error
  pub getwd_error : World → Option Error
  pub chdir_error : World → Bytes → Option Error
  pub abs_path : Bytes → Bytes → Option Bytes
  pub abs_error : Error
  pub join_path : List Bytes → Bytes
  pub getenv : Bytes → Bytes
  pub temp_dir : Bytes
  pub goos : Bytes
  pub goarch : Bytes

abbrev pub Task {ℓ} : Type ℓ → Type ℓ
Task A = Effect World A

abbrev pub refusal : Option Error → Result (Unit {0})
refusal none = ok tt
refusal (some e) = err e

-- `defer f()`, where what `f` returns is dropped.
unfoldable pub finally {ℓ} : {A : Type ℓ} → Task (Unit {0}) → Task A → Task A
finally cleanup m w = let (r, w') = m w in (r, (cleanup w').1)

-- `os.Remove(path)`
unfoldable pub remove : Bytes → Task (Unit {0})
remove path w = (ok tt, record w { history = removed path ∷ w.history })

abbrev cluster_name : Bytes
cluster_name = codes "tilt-dev"

unfoldable pub images : List Bytes
images =
    codes "victoriametrics/victoria-metrics:latest"
    ∷ codes "victoriametrics/victoria-logs:latest"
    ∷ codes "victoriametrics/victoria-traces:latest"
    ∷ codes "victoriametrics/vmagent:latest"
    ∷ codes "ghcr.io/parca-dev/parca:v0.25.0"
    ∷ []

abbrev cgo_enabled : Bytes
cgo_enabled = codes "CGO_ENABLED=1"

module _ (T : Tools) where
  -- `magetools.Ensure`
  unfoldable pub ensure : Bytes → Task (Unit {0})
  ensure tool w = (refusal (T.ensure_error w tool), record w { history = ensured tool ∷ w.history })

  -- `magetools.Run`, but for the output
  unfoldable pub run_tool : Bytes → List Bytes → Task (Unit {0})
  run_tool tool args w = (
    refusal (T.run_tool_error w tool args),
    record w { history = ran_tool tool args ∷ w.history },
  )

  -- `magetools.RunBinary` with `WithEnv` options, but for the output
  unfoldable pub run_binary : Bytes → List Bytes → List Bytes → Task (Unit {0})
  run_binary tool args env w = (
    refusal (T.run_error w tool args env),
    record w { history = ran tool w.cwd args env ∷ w.history },
  )

  -- `os.Getwd`
  abbrev named_dir : Option Error → World → Result Bytes
  named_dir none w = ok w.cwd
  named_dir (some e) w = err e

  unfoldable pub getwd : Task Bytes
  getwd w = (named_dir (T.getwd_error w) w, w)

  -- `os.Chdir`
  abbrev moved : Option Error → Bytes → World → Result (Unit {0}) × World
  moved none dir w = (ok tt, record w { cwd = dir })
  moved (some e) dir w = (err e, w)

  unfoldable pub chdir : Bytes → Task (Unit {0})
  chdir dir w = moved (T.chdir_error w dir) dir w

  -- `filepath.Abs`
  abbrev resolved : Option Bytes → Result Bytes
  resolved none = err T.abs_error
  resolved (some path) = ok path

  unfoldable pub abs : Bytes → Task Bytes
  abs path w = (resolved (T.abs_path w.cwd path), w)

  unfoldable pub lint_go : Task (Unit {0})
  lint_go = run_tool (codes "golangci-lint") (codes "run" ∷ codes "./..." ∷ [])

  unfoldable pub lint_starlark : Task (Unit {0})
  lint_starlark = run_tool (codes "buildifier") (
      codes "--lint=warn"
      ∷ codes "--warnings=-print"
      ∷ codes "--mode=check"
      ∷ codes "--type=bzl"
      ∷ codes "-r"
      ∷ codes "extensions/"
      ∷ [])

  unfoldable pub lint_all : Task (Unit {0})
  unfolding lint_go lint_starlark
  lint_all = lint_go >> lint_starlark

  unfoldable pub build_all : Task (Unit {0})
  build_all = run_binary (codes "go") (codes "build" ∷ codes "./..." ∷ []) []

  unfoldable pub build_export_cli : Task (Unit {0})
  build_export_cli =
      run_binary (codes "go")
        (codes "build"
          ∷ codes "-o"
          ∷ codes "bin/observability-export"
          ∷ codes "./cmd/observability-export/"
          ∷ [])
        (cgo_enabled ∷ [])

  unfoldable pub test_unit : Task (Unit {0})
  test_unit =
      run_binary (codes "go")
        (codes "test"
          ∷ codes "./..."
          ∷ codes "-count=1"
          ∷ codes "-timeout=120s"
          ∷ codes "-race"
          ∷ [])
        []

  -- `fmt.Sprintf("PATH=%s:%s", toolsDir, os.Getenv("PATH"))`
  unfoldable pub path_env : Bytes → Bytes
  path_env tools_dir = codes "PATH=" ++ (tools_dir ++ b':' ∷ T.getenv (codes "PATH"))

  abbrev pub tools_path : Bytes
  tools_path = T.join_path (codes "hack" ∷ codes "bin" ∷ T.goos ∷ T.goarch ∷ [])

  unfoldable pub ensure_e2e_tools : Task Bytes
  unfolding path_env ensure abs
  ensure_e2e_tools = do
    ensure (codes "tilt")
    ensure (codes "helm")
    ensure (codes "kubectl")
    tools_dir ← wrapped resolving_tools_dir (abs tools_path)
    pure (path_env tools_dir)

  abbrev pub e2e_args : List Bytes
  e2e_args = codes "test" ∷ codes "-v" ∷ codes "-count=1" ∷ codes "-timeout=120s" ∷ []

  unfoldable pub run_e2e_tests : List Bytes → Task (Unit {0})
  unfolding ensure_e2e_tools run_binary
  run_e2e_tests pkgs = do
    env ← ensure_e2e_tools
    run_binary (codes "go") (e2e_args ++ pkgs) (env ∷ [])

  unfoldable pub e2e_observability : Task (Unit {0})
  unfolding run_e2e_tests
  e2e_observability = run_e2e_tests (codes "./tests/observability/" ∷ [])

  unfoldable pub e2e_all : Task (Unit {0})
  unfolding run_e2e_tests
  e2e_all = run_e2e_tests (codes "./tests/observability/" ∷ codes "./tests/k3d-gpu/" ∷ [])

  abbrev pub archive_path : Bytes
  archive_path = T.join_path (T.temp_dir ∷ codes "observability-images.tar" ∷ [])

  -- `docker save` of the images
  unfoldable pub save_images : Task (Unit {0})
  unfolding images
  save_images = run_binary (codes "docker") (codes "save" ∷ codes "-o" ∷ archive_path ∷ images) []

  -- `kind load image-archive`
  unfoldable pub load_images : Task (Unit {0})
  load_images =
      run_binary (codes "kind")
        (codes "load" ∷ codes "image-archive" ∷ archive_path ∷ codes "--name" ∷ cluster_name ∷ [])
        []

  -- `tilt ci`
  unfoldable pub deploy : Bytes → Task (Unit {0})
  deploy env = run_binary (codes "tilt") (codes "ci" ∷ codes "--timeout=5m" ∷ []) (env ∷ [])

  -- the tests behind the tag `e2e`
  unfoldable pub test_e2e : Bytes → Task (Unit {0})
  test_e2e env =
      run_binary (codes "go")
        (codes "test"
          ∷ codes "-v"
          ∷ codes "-count=1"
          ∷ codes "-timeout=15m"
          ∷ codes "-tags=e2e"
          ∷ codes "./tests/observability/"
          ∷ [])
        (env ∷ cgo_enabled ∷ [])

  -- What is done in the directory of the tests; the directory is left on every path.
  unfoldable pub deploy_from : Bytes → Bytes → Task (Unit {0})
  unfolding deploy test_e2e chdir
  deploy_from original_dir env = finally (chdir original_dir) do
    wrapped deploying_with_tilt (deploy env)
    wrapped changing_back (chdir original_dir)
    wrapped running_e2e_tests (test_e2e env)

  abbrev pub e2e_path : Bytes
  e2e_path = T.join_path (codes "tests" ∷ codes "observability" ∷ codes "e2e" ∷ [])

  -- The part of `ObservabilityFull` behind the images.
  unfoldable pub deploy_and_test : Bytes → Task (Unit {0})
  unfolding deploy_from getwd
  deploy_and_test env = do
    e2e_dir ← wrapped resolving_e2e_dir (abs e2e_path)
    original_dir ← wrapped getting_directory getwd
    wrapped changing_to_e2e (chdir e2e_dir)
    deploy_from original_dir env

  -- Images that cannot be saved or loaded are no error; a saved archive is removed at the end.
  unfoldable pub preloaded : Result (Unit {0}) → Task (Unit {0}) → Task (Unit {0})
  unfolding load_images
  preloaded (ok u) rest = finally (remove archive_path) do loaded ← attempt load_images; rest
  preloaded (err e) rest = rest
  preloaded stuck rest = lift stuck

  unfoldable pub observability_full : Task (Unit {0})
  unfolding save_images preloaded deploy_and_test
  observability_full = do
    env ← ensure_e2e_tools
    saved ← attempt save_images
    preloaded saved (deploy_and_test env)
