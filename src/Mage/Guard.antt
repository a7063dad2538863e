-- ===== src/Mage/Guard.antt =====
-- What the end-to-end targets do without their tools.
use tilt_common.Base.{◌≡◌, none, some, codes, List, [], ◌∷◌}
use tilt_common.Errors.{Error}
use tilt_common.Effect.Keeps.{Keeps}
use tilt_common.Mage.{Action, ensured, ran, ran_tool, removed, World, Tools, tools_path}

module _ (T : Tools) where
  -- The programs that were started.
  abbrev pub starts : List Action → List Action
  starts [] = []
  starts (ran tool dir args env ∷ actions) = ran tool dir args env ∷ starts actions
  starts (ran_tool tool args ∷ actions) = ran_tool tool args ∷ starts actions
  starts (ensured tool ∷ actions) = starts actions
  starts (removed path ∷ actions) = starts actions

  -- What keeps the end-to-end targets from starting: one of the three tools cannot be ensured, or the
  -- directory of the tools has no absolute path.
  pub data Unready (w : World) : Type 0 where
    no_tilt : (e : Error) → ((w' : World) → T.ensure_error w' (codes "tilt") ≡ some e) → Unready w
    no_helm : (e : Error) → ((w' : World) → T.ensure_error w' (codes "helm") ≡ some e) → Unready w
    no_kubectl :
        (e : Error) → ((w' : World) → T.ensure_error w' (codes "kubectl") ≡ some e) → Unready w
    no_tools_dir : T.abs_path w.cwd (tools_path T) ≡ none → Unready w
