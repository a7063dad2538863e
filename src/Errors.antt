-- ===== src/Errors.antt =====
-- Go's error values and (value, error) results. An error keeps what its
-- text is made of: which `fmt.Errorf` made it, its arguments and the error that it wraps.
use tilt_common.Base.{◌||◌, ℕ, Bytes, Bool, true, false, ◌≡◌, refl, ◌⊎◌, inl, inr}
use tilt_common.Base.Int.{ℤ}

-- Errors that the program makes itself.
pub data Fault : Type 0 where
  unexpected_http_status : ℕ → Bytes → Fault
  driver_type_assertion : Fault
  missing_time : Fault
  frame_too_short : Fault
  frame_length : ℕ → ℕ → Fault
  request_too_large : ℕ → Fault
  grpc_status : ℤ → Bytes → Bytes → Fault
  html_response : Bytes → Fault
  -- the wire parsers, with the negative length that protowire returned
  types_tag types_field types_entry : ℤ → Fault
  entry_tag entry_name entry_field : ℤ → Fault
  response_tag response_pprof response_field : ℤ → Fault
  pprof_not_found : Fault
  no_pprof : Bytes → Fault
  no_types_field : Fault
  no_endpoint : Fault
  line_too_long : Fault
  no_route : Bytes → Fault
  no_selector : Bytes → Fault
  no_pods : Bytes → Bytes → Fault

-- The texts that errors are wrapped in.
pub data Step : Type 0 where
  parsing_url : Bytes → Step
  creating_request : Bytes → Step
  fetching : Bytes → Step
  reading_response : Bytes → Step
  decoding_response : Bytes → Step
  obtaining_connection : Step
  creating_appender : Bytes → Step
  initializing_appender : Bytes → Step
  building_export_url : Step
  appending_row : Bytes → Step
  reading_lines : Bytes → Step
  flushing_appender : Bytes → Step
  parsing_line : Step
  parsing_log_timestamp : Bytes → Step
  listing_services : Step
  fetching_services : Step
  fetching_traces : Bytes → Step
  decoding_traces : Bytes → Step
  writing_spans : Step
  creating_directory : Bytes → Step
  opening_database : Bytes → Step
  creating_table : Bytes → Step
  creating_schema : Step
  exporting : Bytes → Step
  fetching_types : Step
  fetching_types_grpc : Step
  decoding_types : Step
  decoding_types_grpc : Step
  sending_grpc : Step
  encoding_query : Bytes → Step
  querying_profile : Bytes → Step
  querying_profile_grpc : Bytes → Step
  decoding_query : Bytes → Step
  decoding_query_grpc : Bytes → Step
  decoding_base64 : Bytes → Step
  creating_profile_file : Bytes → Step
  writing_profile : Step
  parsing_address : Bytes → Step
  getting_service : Bytes → Step
  listing_pods : Bytes → Step
  forwarding_to : Bytes → Step
  loading_kubeconfig : Step
  creating_kube_client : Step
  connecting_cluster : Bytes → Step
  -- the build targets
  resolving_tools_dir resolving_e2e_dir getting_directory changing_to_e2e : Step
  deploying_with_tilt changing_back running_e2e_tests : Step

pub data Error : Type 0 where
  -- an error value of other code
  library : ℕ → Error
  fault : Fault → Error
  -- `fmt.Errorf("…: %w", …, err)`
  wrap : Step → Error → Error
  -- `fmt.Errorf("kubeconfig %q failed (%w); in-cluster config also failed: %w", …)`
  both_failed : Bytes → Error → Error → Error
  -- `fmt.Sprintf("%s: %v", path, err)` in front of further such texts
  tried : Bytes → Error → Error → Error

-- A function's (value, nil) or (nil, err). `stuck` is no Go value: a loop of the model ran out of
-- fuel.
pub data Result {ℓ} (A : Type ℓ) : Type ℓ where
  ok : A → Result A
  err : Error → Result A
  stuck : Result A

-- `if err != nil { return …, err }`
infixl 5 ◌>>=◌
abbrev pub ◌>>=◌ {ℓ κ} : {A : Type ℓ} {B : Type κ} → Result A → (A → Result B) → Result B
ok a >>= f = f a
err e >>= f = err e
stuck >>= f = stuck

-- `if err != nil { return …, fmt.Errorf("…: %w", err) }`
abbrev pub wrapping {ℓ} : {A : Type ℓ} → Step → Result A → Result A
wrapping s (ok a) = ok a
wrapping s (err e) = err (wrap s e)
wrapping s stuck = stuck

pub Result-cases {ℓ} :
    {A : Type ℓ} (r : Result A)
    → ((a : A) × (r ≡ ok a)) ⊎ (((e : Error) × (r ≡ err e)) ⊎ (r ≡ stuck))
Result-cases (ok a) = inl (a, refl)
Result-cases (err e) = inr (inl (e, refl))
Result-cases stuck = inr (inr refl)

abbrev is_sentinel : Fault → Fault → Bool
is_sentinel (unexpected_http_status _ _) (unexpected_http_status _ _) = true
is_sentinel driver_type_assertion driver_type_assertion = true
is_sentinel missing_time missing_time = true
is_sentinel _ _ = false

-- `errors.Is(err, sentinel)` for the three sentinels: through every `%w`, not through `%v`.
unfoldable pub is_error : Fault → Error → Bool
is_error sentinel (library n) = false
is_error sentinel (fault f) = is_sentinel sentinel f
is_error sentinel (wrap s e) = is_error sentinel e
is_error sentinel (both_failed p e f) = is_error sentinel e || is_error sentinel f
is_error sentinel (tried p e rest) = false
