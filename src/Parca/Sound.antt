-- ===== src/Parca/Sound.antt =====
-- The download of profiles: whether it returns, and the rows of its trace.
use tilt_common.Base.{
  codes, ℕ, ◌≢◌, refl, ltb, ◌^◌, ◌-◌, ◌==◌, List, [], ◌∷◌, Option, none, some, if◌then◌else◌,
  is_empty, Bytes, length,
}
use tilt_common.Base.Dict.{Dict, lookup}
use tilt_common.Base.Int.{ℤ, pos, negsuc}
use tilt_common.Errors.{Error, Result, ok, err, stuck, fault, grpc_status}
use tilt_common.Grpc.{Reply, frame_request}
use tilt_common.Grpc.Total.{parse_grpc_web_response-ne-stuck}
use tilt_common.Host.{Client, Host, Response, response_body, profile_file}
use tilt_common.Host.Io.{Io}
use tilt_common.Host.Sound.{
  Answers, Sound, ok-ne-stuck, err-ne-stuck, wrapping-ne-stuck, bind-ne-stuck, if-ne-stuck,
  refusal-ne-stuck, Sound-lift, Sound-pure, Sound-raise, Sound-ask, Sound-log, Sound-wrapped,
  Sound-deferring, Sound-bind, Sound-if, Sound-act, Sound-acquire, Sound-attempt, Sound-weaken,
}
use tilt_common.Http.Sound.{Sound-send}
use tilt_common.Parca.{
  ParcaApi, check_reply, read_response, read_grpc_web_response, grpc_web_unary, types_at, types_in,
  parse_profile_type_names, types_over_grpc, types_over_json, fetch_profile_types_with_api, noting,
  found_or_next, probe, discover_parca_api, parca_api_candidates, download_profile_grpc_web,
  pprof_of_response, response_pprof_text, save_profile, save_over_grpc, save_over_json,
  download_profile, count_download, download_profiles, download_found, export_profiles,
}
use tilt_common.Proto.Total.{proto_parsers-ne-stuck}

module _ (H : Host) where
  read_response-ne-stuck : (what : Bytes) (resp : Response) → read_response H what resp ≢ stuck
  unfolding read_response
  read_response-ne-stuck what resp =
      if-ne-stuck (resp.status == 200) _ _
        (bind-ne-stuck _ _ (wrapping-ne-stuck _ _ (read_all-ne-stuck resp.body.broken))
          λ body. if-ne-stuck _ _ _ (err-ne-stuck _) (ok-ne-stuck body))
        (err-ne-stuck _)
    where
      read_all-ne-stuck :
          (o : Option Error) → elim o [ none ↦ ok resp.body.content | some e ↦ err e ] ≢ stuck
      read_all-ne-stuck none = ok-ne-stuck _
      read_all-ne-stuck (some e) = err-ne-stuck e

  check_reply-ne-stuck : (path : Bytes) (reply : Reply) → check_reply H path reply ≢ stuck
  unfolding check_reply
  check_reply-ne-stuck path reply = by_status reply.trailer.status
    where
      by_status :
          (n : ℤ)
          → elim n [
            | pos n ↦
                if n == 0
                then ok reply.payload
                else err (fault (grpc_status (pos n) path reply.trailer.message))
            | negsuc n ↦ err (fault (grpc_status (negsuc n) path reply.trailer.message))
          ]
            ≢ stuck
      by_status (pos n) = if-ne-stuck (n == 0) _ _ (ok-ne-stuck _) (err-ne-stuck _)
      by_status (negsuc n) = err-ne-stuck _

  read_grpc_web_response-ne-stuck :
      (path : Bytes) (resp : Response) → read_grpc_web_response H path resp ≢ stuck
  unfolding read_grpc_web_response
  read_grpc_web_response-ne-stuck path resp =
      bind-ne-stuck _ _ (read_response-ne-stuck path resp) λ body.
        bind-ne-stuck _ _ (parse_grpc_web_response-ne-stuck H.unicode_lower body)
          λ reply. check_reply-ne-stuck path reply

  frame_request-ne-stuck : (message : Bytes) → frame_request message ≢ stuck
  unfolding frame_request
  frame_request-ne-stuck message =
      if-ne-stuck (ltb (2 ^ 32 - 1) (length message)) _ _ (err-ne-stuck _) (ok-ne-stuck _)

  types_in-ne-stuck : (raw : Dict Bytes) (keys : List Bytes) → types_in H raw keys ≢ stuck
  unfolding types_in
  types_in-ne-stuck raw [] = err-ne-stuck _
  types_in-ne-stuck raw (key ∷ keys) =
      by_types (types_at H (lookup key raw)) (types_in-ne-stuck raw keys)
    where
      by_types :
          (o : Option (List Bytes))
          → types_in H raw keys ≢ stuck
          → elim o [ some names ↦ ok names | none ↦ types_in H raw keys ] ≢ stuck
      by_types (some names) h = ok-ne-stuck names
      by_types none h = h

  type_names-ne-stuck : (body : Bytes) → Answers H → parse_profile_type_names H body ≢ stuck
  unfolding parse_profile_type_names
  type_names-ne-stuck body law =
      bind-ne-stuck _ _ (wrapping-ne-stuck _ _ (law.unmarshal_object body))
        λ raw. types_in-ne-stuck raw (codes "profileTypes" ∷ codes "types" ∷ codes "data" ∷ [])

  pprof_of_response-ne-stuck :
      (profile_type body : Bytes) → Answers H → pprof_of_response H profile_type body ≢ stuck
  unfolding pprof_of_response
  pprof_of_response-ne-stuck profile_type body law =
      bind-ne-stuck _ _ (wrapping-ne-stuck _ _ (law.unmarshal_query_response body)) λ r.
        if-ne-stuck (is_empty (response_pprof_text r)) _ _ (err-ne-stuck _)
          (wrapping-ne-stuck _ _ (law.base64_decode (response_pprof_text r)))

  module _ (client : Option Client) (parca_url : Bytes) where
    Sound-grpc_web_unary :
        (c : Client) (path message : Bytes)
        → Sound (Answers H) (grpc_web_unary H c parca_url path message)
    unfolding grpc_web_unary
    Sound-grpc_web_unary c path message =
        Sound-bind _ _ (Sound-lift _ (λ law. wrapping-ne-stuck _ _ (law.url_parse parca_url))) λ u.
          Sound-bind _ _ (Sound-lift _ (λ law. frame_request-ne-stuck message)) λ framed.
            Sound-bind _ _ (Sound-lift _ (λ law. wrapping-ne-stuck _ _ (refusal-ne-stuck _))) λ v.
              Sound-bind _ _ (Sound-wrapped _ _ (Sound-send H _ _)) λ resp.
                Sound-deferring response_body _
                  (Sound-lift _ (λ law. read_grpc_web_response-ne-stuck path resp))

    Sound-types_over_grpc :
        (api : ParcaApi) → Sound (Answers H) (types_over_grpc H client parca_url api)
    unfolding types_over_grpc
    Sound-types_over_grpc api =
        Sound-bind _ _ (Sound-wrapped _ _ (Sound-grpc_web_unary _ _ [])) λ payload.
          Sound-lift _ (λ law.
            wrapping-ne-stuck _ _ (proto_parsers-ne-stuck H.protowire law.protowire payload).0)

    Sound-types_over_json :
        (api : ParcaApi) → Sound (Answers H) (types_over_json H client parca_url api)
    unfolding types_over_json
    Sound-types_over_json api =
        Sound-bind _ _ (Sound-lift _ (λ law. wrapping-ne-stuck _ _ (law.url_parse parca_url))) λ u.
          Sound-bind _ _ (Sound-lift _ (λ law. wrapping-ne-stuck _ _ (refusal-ne-stuck _))) λ v.
            Sound-bind _ _ (Sound-wrapped _ _ (Sound-send H _ _)) λ resp.
              Sound-deferring response_body _ (
                Sound-bind _ _ (Sound-lift _ (λ law. read_response-ne-stuck _ resp)) λ body.
                  Sound-lift _ (λ law. wrapping-ne-stuck _ _ (type_names-ne-stuck body law)))

    Sound-fetch_types :
        (api : ParcaApi) → Sound (Answers H) (fetch_profile_types_with_api H client parca_url api)
    unfolding fetch_profile_types_with_api
    Sound-fetch_types api =
        Sound-if api.grpc_web _ _ (Sound-types_over_grpc api) (Sound-types_over_json api)

    noting-ne-stuck :
        (path : Bytes) (e : Error) (r : Result (ParcaApi × List Bytes))
        → r ≢ stuck
        → noting path e r ≢ stuck
    noting-ne-stuck path e (ok found) h = ok-ne-stuck found
    noting-ne-stuck path e (err rest) h = err-ne-stuck _
    noting-ne-stuck path e stuck h = absurd (h refl)

    Sound-found_or_next :
        (api : ParcaApi) (types : Result (List Bytes)) (next : Io (ParcaApi × List Bytes))
        → Sound (Answers H) next
        → Sound (Answers H × (types ≢ stuck)) (found_or_next H api types next)
    unfolding found_or_next
    Sound-found_or_next api (ok types) next h = record {
      typed = λ tr t. t;
      returns = λ p tr. ok-ne-stuck _;
    }
    Sound-found_or_next api (err e) next h = record {
      typed = h.typed;
      returns = λ p tr. noting-ne-stuck api.profile_types_path e (next tr).0 (h.returns p.0 tr);
    }
    Sound-found_or_next api stuck next h = record {
      typed = λ tr t. t;
      returns = λ p tr. absurd (p.1 refl);
    }

    Sound-probe :
        (candidates : List ParcaApi) → Sound (Answers H) (probe H client parca_url candidates)
    unfolding probe
    Sound-probe [] = Sound-raise _
    Sound-probe (api ∷ candidates) =
        Sound-attempt _ _ (Sound-fetch_types api)
          λ types. Sound-found_or_next api types _ (Sound-probe candidates)

    Sound-save_profile :
        (dir profile_type : Bytes) (now : ℤ) (pprof : Bytes)
        → Sound (Answers H) (save_profile H dir profile_type now pprof)
    unfolding save_profile
    Sound-save_profile dir profile_type now pprof =
        Sound-bind _ _
          (Sound-wrapped _ _ (Sound-bind _ _ (Sound-act _ _ tt) λ u. Sound-acquire profile_file _))
          λ u. Sound-deferring profile_file _ (Sound-wrapped _ _ (Sound-act _ _ tt))

    Sound-download_grpc_web :
        (c : Client) (api : ParcaApi) (profile_type : Bytes) (now : ℤ)
        → Sound (Answers H) (download_profile_grpc_web H c parca_url api profile_type now)
    unfolding download_profile_grpc_web
    Sound-download_grpc_web c api profile_type now =
        Sound-bind _ _ (Sound-wrapped _ _ (Sound-grpc_web_unary _ _ _)) λ payload.
          Sound-bind _ _
            (Sound-lift _ (λ law.
              wrapping-ne-stuck _ _ (proto_parsers-ne-stuck H.protowire law.protowire payload).1))
            λ pprof. Sound-if (is_empty pprof) _ _ (Sound-raise _) (Sound-pure pprof)

    Sound-save_over_grpc :
        (api : ParcaApi) (profile_type dir : Bytes) (now : ℤ)
        → Sound (Answers H) (save_over_grpc H client parca_url api profile_type dir now)
    unfolding save_over_grpc
    Sound-save_over_grpc api profile_type dir now =
        Sound-bind _ _ (Sound-download_grpc_web _ api profile_type now)
          λ pprof. Sound-save_profile dir profile_type now pprof

    Sound-save_over_json :
        (api : ParcaApi) (profile_type dir : Bytes) (now : ℤ)
        → Sound (Answers H) (save_over_json H client parca_url api profile_type dir now)
    unfolding save_over_json
    Sound-save_over_json api profile_type dir now =
        Sound-bind _ _ (Sound-lift _ (λ law. wrapping-ne-stuck _ _ (law.url_parse parca_url))) λ u.
          Sound-bind _ _ (Sound-lift _ (λ law. wrapping-ne-stuck _ _ (law.marshal_query_request _)))
            λ payload.
              Sound-bind _ _ (Sound-lift _ (λ law. wrapping-ne-stuck _ _ (refusal-ne-stuck _))) λ v.
                Sound-bind _ _ (Sound-wrapped _ _ (Sound-send H _ _)) λ resp.
                  Sound-deferring response_body _ (
                    Sound-bind _ _
                      (Sound-lift _ (λ law.
                        bind-ne-stuck _ _ (read_response-ne-stuck profile_type resp)
                          λ body. pprof_of_response-ne-stuck profile_type body law))
                      λ pprof. Sound-save_profile dir profile_type now pprof)

    Sound-download_profile :
        (api : ParcaApi) (profile_type dir : Bytes)
        → Sound (Answers H) (download_profile H client parca_url api profile_type dir)
    unfolding download_profile
    Sound-download_profile api profile_type dir = Sound-bind _ _ (Sound-ask _) λ now.
        Sound-if api.grpc_web _ _ (Sound-save_over_grpc api profile_type dir now)
          (Sound-save_over_json api profile_type dir now)

    Sound-count_download :
        (profile_type : Bytes) (downloaded : ℕ) (r : Result (Unit {0}))
        → Sound (Answers H × (r ≢ stuck)) (count_download H profile_type downloaded r)
    unfolding count_download
    Sound-count_download profile_type downloaded (ok u) = Sound-pure _
    Sound-count_download profile_type downloaded (err e) =
        Sound-bind _ _ (Sound-log _) λ u. Sound-pure downloaded
    Sound-count_download profile_type downloaded stuck = Sound-lift stuck (λ p. absurd (p.1 refl))

    Sound-download_profiles :
        (api : ParcaApi) (dir : Bytes) (types : List Bytes) (downloaded : ℕ)
        → Sound (Answers H) (download_profiles H client parca_url api dir types downloaded)
    unfolding download_profiles
    Sound-download_profiles api dir [] downloaded = Sound-pure downloaded
    Sound-download_profiles api dir (profile_type ∷ types) downloaded =
        Sound-attempt _ _ (Sound-download_profile api profile_type dir) λ done.
          Sound-bind _ _ (Sound-count_download profile_type downloaded done)
            λ n. Sound-weaken (λ p. p.0) (Sound-download_profiles api dir types n)

    Sound-download_found :
        (dir : Bytes) (found : Result (ParcaApi × List Bytes))
        → Sound (Answers H × (found ≢ stuck)) (download_found H client parca_url dir found)
    unfolding download_found
    Sound-download_found dir (err e) = Sound-log _
    Sound-download_found dir stuck = Sound-lift stuck (λ p. absurd (p.1 refl))
    Sound-download_found dir (ok (api, [])) = Sound-pure tt
    Sound-download_found dir (ok (api, t ∷ types)) =
        Sound-bind _ _ (Sound-weaken (λ p. p.0) (Sound-download_profiles api dir (t ∷ types) 0))
          λ downloaded. Sound-log _

    pub Sound-export_profiles :
        (output_dir : Bytes) → Sound (Answers H) (export_profiles H parca_url output_dir client)
    unfolding export_profiles discover_parca_api
    Sound-export_profiles output_dir = Sound-bind _ _ (Sound-wrapped _ _ (Sound-act _ _ tt)) λ u.
        Sound-attempt _ _ (Sound-probe parca_api_candidates) λ found. Sound-download_found _ found
