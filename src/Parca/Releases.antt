-- ===== src/Parca/Releases.antt =====
-- What the download of profiles opens and closes.
use tilt_common.Base.{
  ◌≡◌, sym, subst, ℕ, List, [], ◌∷◌, Option, refl, Bool, true, false, if◌then◌else◌, is_empty,
  Bytes,
}
use tilt_common.Host.Held.{Held}
use tilt_common.Base.Int.{ℤ}
use tilt_common.Errors.{Error, Result, ok, err, stuck, fault, no_pprof}
use tilt_common.Host.{Client, Host, Resource, response_body, profile_file}
use tilt_common.Host.Io.{Io, lift}
use tilt_common.Host.Releases.{
  left, Releases, Releases-lift, Releases-ask, Releases-log, Releases-act, Releases-bind,
  Releases-attempt, Moves-bind, Acquires-acquire, Acquires-bind, Acquires-wrapped,
  Discharges-wrapped, Discharges-deferring,
}
use tilt_common.Http.Releases.{Acquires-send}
use tilt_common.Parca.{
  ParcaApi, noting, grpc_web_unary, types_over_grpc, types_over_json, fetch_profile_types_with_api,
  found_or_next, probe, discover_parca_api, parca_api_candidates, download_profile_grpc_web,
  save_profile, save_over_grpc, save_over_json, download_profile, count_download, download_profiles,
  download_found, export_profiles,
}

-- Both branches of a test release what they open.
Releases-if :
    {A : Type 0} (b : Bool) (m n : Io A) → Releases m → Releases n → Releases (if b then m else n)
Releases-if true m n hm hn = hm
Releases-if false m n hm hn = hn

left-noting :
    (path : Bytes) (e : Error) (rs : List Resource) (r : Result (ParcaApi × List Bytes))
    → left [] rs (noting path e r) ≡ left [] rs r
left-noting path e rs (ok found) = refl
left-noting path e rs (err x) = refl
left-noting path e rs stuck = refl

module _ (H : Host) (client : Option Client) (parca_url : Bytes) where
  Releases-grpc_web_unary :
      (c : Client) (path message : Bytes) → Releases (grpc_web_unary H c parca_url path message)
  unfolding grpc_web_unary
  Releases-grpc_web_unary c path message = Releases-bind _ _ (Releases-lift _) λ u.
      Releases-bind _ _ (Releases-lift _) λ framed. Releases-bind _ _ (Releases-lift _) λ v.
        Acquires-bind (response_body ∷ []) _ _ (Acquires-wrapped _ _ _ (Acquires-send H _ _))
          λ resp. Discharges-deferring [] response_body _ (Releases-lift _)

  Releases-types_over_grpc : (api : ParcaApi) → Releases (types_over_grpc H client parca_url api)
  unfolding types_over_grpc
  Releases-types_over_grpc api =
      Releases-bind _ _ (Discharges-wrapped [] _ _ (Releases-grpc_web_unary _ _ []))
        λ payload. Releases-lift _

  Releases-types_over_json : (api : ParcaApi) → Releases (types_over_json H client parca_url api)
  unfolding types_over_json
  Releases-types_over_json api = Releases-bind _ _ (Releases-lift _) λ u.
      Releases-bind _ _ (Releases-lift _) λ v.
        Acquires-bind (response_body ∷ []) _ _ (Acquires-wrapped _ _ _ (Acquires-send H _ _))
          λ resp.
            Discharges-deferring [] response_body _
              (Releases-bind _ _ (Releases-lift _) λ body. Releases-lift _)

  Releases-fetch_types :
      (api : ParcaApi) → Releases (fetch_profile_types_with_api H client parca_url api)
  unfolding fetch_profile_types_with_api
  Releases-fetch_types api =
      Releases-if api.grpc_web (types_over_grpc H client parca_url api)
        (types_over_json H client parca_url api) (Releases-types_over_grpc api)
        (Releases-types_over_json api)

  Releases-found_or_next :
      (api : ParcaApi) (types : Result (List Bytes)) (next : Io (ParcaApi × List Bytes))
      → Releases next
      → Releases (found_or_next H api types next)
  unfolding found_or_next
  Releases-found_or_next api (ok types) next h = record { at = λ rs tr k. k }
  Releases-found_or_next api (err e) next h = record {
    at = λ rs tr k.
        subst (λ x. Held x (next tr).1) (sym (left-noting api.profile_types_path e rs (next tr).0))
          (h.at rs tr k);
  }
  Releases-found_or_next api stuck next h = record { at = λ rs tr k. k }

  Releases-probe : (candidates : List ParcaApi) → Releases (probe H client parca_url candidates)
  unfolding probe
  Releases-probe [] = Releases-lift _
  Releases-probe (api ∷ candidates) =
      Releases-bind _ _ (Releases-attempt _ (Releases-fetch_types api))
        λ types. Releases-found_or_next api types _ (Releases-probe candidates)

  Releases-save_profile :
      (dir profile_type : Bytes) (now : ℤ) (pprof : Bytes)
      → Releases (save_profile H dir profile_type now pprof)
  unfolding save_profile
  Releases-save_profile dir profile_type now pprof =
      Acquires-bind (profile_file ∷ []) _ _
        (Acquires-wrapped _ _ _ (
          Moves-bind [] [] (profile_file ∷ []) _ _ (Releases-act _ _ refl)
            λ u. Acquires-acquire profile_file _))
        λ u.
          Discharges-deferring [] profile_file _ (Discharges-wrapped [] _ _ (Releases-act _ _ refl))

  Releases-download_grpc_web :
      (c : Client) (api : ParcaApi) (profile_type : Bytes) (now : ℤ)
      → Releases (download_profile_grpc_web H c parca_url api profile_type now)
  unfolding download_profile_grpc_web
  Releases-download_grpc_web c api profile_type now =
      Releases-bind _ _ (Discharges-wrapped [] _ _ (Releases-grpc_web_unary _ _ _))
        λ payload. Releases-bind _ _ (Releases-lift _) λ pprof. Releases-empty pprof
    where
      Releases-empty :
          (pprof : Bytes)
          → Releases (
              if is_empty pprof
              then lift (err (fault (no_pprof profile_type)))
              else lift (ok pprof))
      Releases-empty [] = Releases-lift _
      Releases-empty (b ∷ pprof) = Releases-lift _

  Releases-save_over_grpc :
      (api : ParcaApi) (profile_type dir : Bytes) (now : ℤ)
      → Releases (save_over_grpc H client parca_url api profile_type dir now)
  unfolding save_over_grpc
  Releases-save_over_grpc api profile_type dir now =
      Releases-bind _ _ (Releases-download_grpc_web _ api profile_type now)
        λ pprof. Releases-save_profile dir profile_type now pprof

  Releases-save_over_json :
      (api : ParcaApi) (profile_type dir : Bytes) (now : ℤ)
      → Releases (save_over_json H client parca_url api profile_type dir now)
  unfolding save_over_json
  Releases-save_over_json api profile_type dir now = Releases-bind _ _ (Releases-lift _) λ u.
      Releases-bind _ _ (Releases-lift _) λ payload. Releases-bind _ _ (Releases-lift _) λ v.
        Acquires-bind (response_body ∷ []) _ _ (Acquires-wrapped _ _ _ (Acquires-send H _ _))
          λ resp. Discharges-deferring [] response_body _ (
            Releases-bind _ _ (Releases-lift _)
              λ pprof. Releases-save_profile dir profile_type now pprof)

  Releases-download_profile :
      (api : ParcaApi) (profile_type dir : Bytes)
      → Releases (download_profile H client parca_url api profile_type dir)
  unfolding download_profile
  Releases-download_profile api profile_type dir = Releases-bind _ _ (Releases-ask _) λ now.
      Releases-if api.grpc_web (save_over_grpc H client parca_url api profile_type dir now)
        (save_over_json H client parca_url api profile_type dir now)
        (Releases-save_over_grpc api profile_type dir now)
        (Releases-save_over_json api profile_type dir now)

  Releases-count_download :
      (profile_type : Bytes) (downloaded : ℕ) (r : Result (Unit {0}))
      → Releases (count_download H profile_type downloaded r)
  unfolding count_download
  Releases-count_download profile_type downloaded (ok u) = Releases-lift _
  Releases-count_download profile_type downloaded (err e) =
      Releases-bind _ _ (Releases-log _) λ u. Releases-lift _
  Releases-count_download profile_type downloaded stuck = Releases-lift _

  Releases-download_profiles :
      (api : ParcaApi) (dir : Bytes) (types : List Bytes) (downloaded : ℕ)
      → Releases (download_profiles H client parca_url api dir types downloaded)
  unfolding download_profiles
  Releases-download_profiles api dir [] downloaded = Releases-lift _
  Releases-download_profiles api dir (profile_type ∷ types) downloaded =
      Releases-bind _ _ (Releases-attempt _ (Releases-download_profile api profile_type dir))
        λ done.
          Releases-bind _ _ (Releases-count_download profile_type downloaded done)
            λ downloaded'. Releases-download_profiles api dir types downloaded'

  Releases-download_found :
      (dir : Bytes) (found : Result (ParcaApi × List Bytes))
      → Releases (download_found H client parca_url dir found)
  unfolding download_found
  Releases-download_found dir (err e) = Releases-log _
  Releases-download_found dir stuck = Releases-lift _
  Releases-download_found dir (ok (api, [])) = Releases-lift _
  Releases-download_found dir (ok (api, t ∷ types)) =
      Releases-bind _ _ (Releases-download_profiles api dir (t ∷ types) 0)
        λ downloaded. Releases-log _

  pub Releases-export_profiles :
      (output_dir : Bytes) → Releases (export_profiles H parca_url output_dir client)
  unfolding export_profiles discover_parca_api
  Releases-export_profiles output_dir =
      Releases-bind _ _ (Discharges-wrapped [] _ _ (Releases-act _ _ refl)) λ u.
        Releases-bind _ _ (Releases-attempt _ (Releases-probe parca_api_candidates))
          λ found. Releases-download_found _ found
