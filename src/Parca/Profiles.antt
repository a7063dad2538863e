-- ===== src/Parca/Profiles.antt =====
-- `ExportProfiles`: which errors it returns.
use tilt_common.Base.{◌≢◌, ◌≡◌, refl, inl, inr, Option, none, some, List, [], ◌∷◌, Bytes, codes, ℕ}
use tilt_common.Errors.{Error, wrap, creating_directory, Result, ok, err, stuck, wrapping}
use tilt_common.Host.{Client, Host, Trace, made_dir}
use tilt_common.Host.Io.{◌>>=◌, lift, wrapped, attempt, act, log, refusal}
use tilt_common.Effect.Outcomes.{bind-eq-err}
use tilt_common.Parca.{
  ParcaApi, count_download, download_profile, download_profiles, download_found, discover_parca_api,
  export_profiles,
}

refused :
    (s : _) (o : Option Error) {e : Error}
    → wrapping s (refusal o) ≡ err e
    → (e' : Error) × (o ≡ some e') × (e ≡ wrap s e')
refused s none h = cc
refused s (some x) h = (x, refl, cc)

module _ (H : Host) where
  count_download-ne-err :
      (profile_type : Bytes) (n : ℕ) (r : Result (Unit {0})) (tr : Trace) (e : Error)
      → (count_download H profile_type n r tr).0 ≢ err e
  unfolding count_download ◌>>=◌ lift log
  count_download-ne-err profile_type n (ok u) tr e = λ h. cc
  count_download-ne-err profile_type n (err x) tr e = λ h. cc
  count_download-ne-err profile_type n stuck tr e = λ h. cc

  download_profiles-ne-err :
      (client : Option Client) (url : Bytes) (api : ParcaApi) (dir : Bytes) (types : List Bytes)
      (n : ℕ) (tr : Trace) (e : Error)
      → (download_profiles H client url api dir types n tr).0 ≢ err e
  unfolding download_profiles lift attempt
  download_profiles-ne-err client url api dir [] n tr e = λ h. cc
  download_profiles-ne-err client url api dir (profile_type ∷ types) n tr e = λ h.
      elim (bind-eq-err (attempt (download_profile H client url api profile_type dir))
        (λ done. count_download H profile_type n done >>= λ n'.
          download_profiles H client url api dir types n')
        tr h) [
          | inl p ↦ cc
          | inr (done, p, q) ↦
              elim (bind-eq-err (count_download H profile_type n done)
                (λ n'. download_profiles H client url api dir types n') _ q) [
                  | inl r ↦ count_download-ne-err profile_type n done _ e r
                  | inr (n', r, s) ↦ download_profiles-ne-err client url api dir types n' _ e s
                ]
        ]

  download_found-ne-err :
      (client : Option Client) (url dir : Bytes) (r : Result (ParcaApi × List Bytes)) (tr : Trace)
      (e : Error)
      → (download_found H client url dir r tr).0 ≢ err e
  unfolding download_found lift log
  download_found-ne-err client url dir (err x) tr e = λ h. cc
  download_found-ne-err client url dir stuck tr e = λ h. cc
  download_found-ne-err client url dir (ok (api, [])) tr e = λ h. cc
  download_found-ne-err client url dir (ok (api, profile_type ∷ types)) tr e = λ h.
      elim (bind-eq-err (download_profiles H client url api dir (profile_type ∷ types) 0) _ tr h) [
        | inl p ↦ download_profiles-ne-err client url api dir (profile_type ∷ types) 0 tr e p
        | inr (n, p, q) ↦ cc
      ]

  -- The only error of `ExportProfiles` is that of making the directory of the profiles: a Parca that
  -- does not answer, and a profile that cannot be fetched, decoded or saved, are no errors of it.
  pub export_profiles-err :
      (url output_dir : Bytes) (client : Option Client) (tr : Trace) (e : Error)
      → (export_profiles H url output_dir client tr).0 ≡ err e
      → (e' : Error) × (H.mkdir_error tr (H.join_path output_dir (codes "profiles")) ≡ some e')
        × (e ≡ wrap (creating_directory (H.join_path output_dir (codes "profiles"))) e')
  unfolding export_profiles wrapped act attempt
  export_profiles-err url output_dir client tr e h =
      let dir = H.join_path output_dir (codes "profiles") in
      elim (bind-eq-err
        (wrapped (creating_directory dir) (act (made_dir dir) (λ tr. H.mkdir_error tr dir))) _ tr
        h) [
          | inl p ↦ refused (creating_directory dir) (H.mkdir_error tr dir) p
          | inr (u, p, q) ↦ elim (bind-eq-err (attempt (discover_parca_api H client url)) _ _ q) [
            | inl r ↦ absurd (cc)
            | inr (found, r, s) ↦ absurd (download_found-ne-err client url dir found _ e s)
          ]
        ]
