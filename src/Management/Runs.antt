-- ===== src/Management/Runs.antt =====
-- What a management request can start.
use cpa_auto_refresh_quota.Service.Status.{Summaries}
use cpa_auto_refresh_quota.Management.{
  ManagementRequest, ManualRunRequest, shows_accepted, ManagementJson, ManagementResponse,
  status_route, run_route, max_management_body_bytes, encoded_response, start_status, bad_request,
  described, json_management_response, options, read_run_request, run_options, after_start,
  start_asked, handle_management,
}
use Prim.Native.String.{◌++◌ as ◌<>◌}
use mathlib.Core.Path.{subst}
use cpa_auto_refresh_quota.Service.Manual.{
  normalize_manual_run_options, normalize_manual_run_options_lem,
}
use cpa_auto_refresh_quota.Service.Runs.{start_manual}
use cpa_auto_refresh_quota.Service.{ManualRunOptions, Error, Service, Effect}
use cpa_auto_refresh_quota.Base.{
  ℕ, String, ◌≡◌, refl, sym, ap, ◌∙◌, ◌≢◌, ◌⊎◌, inl, inr, ◌&&◌, Option, List, [], ◌∷◌, arith, ◌==◌,
  eq_iff, ltb, Bool-cases, Result, refuse_if, >>=-eq-ok, ok_inj, ok, err,
}
use cpa_auto_refresh_quota.Base.Text.{trim_space, byte_length}
use cpa_auto_refresh_quota.Base.Dict.{AllDistinct}
use cpa_auto_refresh_quota.Management.Refusals.{
  bad_request-ok, described-ok, bad_request-Refuses, refuse_if-Refuses, bind-Refuses,
  start_status-refused, start_manual-LeftAlone, nonempty, named_options-ok, Refuses, LeftAlone,
}

module _ (json : ManagementJson) where
  -- What the options of a body say of its request.
  pub record Asks (body : String) (asked : ManualRunOptions) : Type 0 where
    pub request : ManualRunRequest
    pub read : read_run_request json body ≡ ok request
    pub dry_run : asked.dry_run ≡ request.dry_run
    pub distinct : AllDistinct asked.auth_indices
    pub unnamed : asked.auth_indices ≡ [] → trim_space request.auth_indices ≡ ""

  options-ok :
      (request : ManualRunRequest) (asked : ManualRunOptions)
      → options json request ≡ ok asked
      → (asked.dry_run ≡ request.dry_run)
        × ((trim_space request.auth_indices ≡ "")
            ⊎ ((index : String) × (indices : List String) × (asked.auth_indices ≡ index ∷ indices)))
  unfolding options
  options-ok request asked = elim (Bool-cases (trim_space request.auth_indices == "")) [
    | inl e ↦ rw e (λ h. (sym (ap (λ o. o.dry_run) (ok_inj h)), inl ((eq_iff _ _).0 e)))
    | inr e ↦ rw e (elim (Bool-cases (trim_space request.auth_indices == "null")) [
      | inl f ↦ rw f (λ h. cc)
      | inr f ↦ rw f (λ h.
          let (same, index, indices, named) = named_options-ok _ _ _ h in
          (same, inr (index, indices, named)))
    ])
  ]

  run_options-Asks :
      (body : String) (asked : ManualRunOptions)
      → run_options json body ≡ ok asked
      → Asks body asked
  unfolding run_options
  run_options-Asks body asked h =
      let (_, _, h1) =
        >>=-eq-ok
          (refuse_if (ltb max_management_body_bytes (byte_length body))
            (413, "request body is too large"))
          _ h in
      let (request, read, h2) = >>=-eq-ok (bad_request (read_run_request json body)) _ h1 in
      let (named, got, h3) = >>=-eq-ok (bad_request (options json request)) _ h2 in
      let (same, cases) = options-ok request named (bad_request-ok _ _ got) in
      let (_, kept, distinct, _, members) =
        normalize_manual_run_options_lem named asked (described-ok _ _ (bad_request-ok _ _ h3)) in
      record {
        request = request;
        read = bad_request-ok _ _ read;
        dry_run = kept ∙ same;
        distinct = distinct;
        unnamed = λ none_left. elim cases [
          | inl blank ↦ blank
          | inr (index, indices, e) ↦
              elim (nonempty named.auth_indices asked.auth_indices index indices e members
                none_left) [ ]
        ];
      }

  run_options-Refuses : (body : String) → Refuses (run_options json body)
  unfolding run_options
  run_options-Refuses body =
      bind-Refuses _ _
        (refuse_if-Refuses (ltb max_management_body_bytes (byte_length body))
          "request body is too large")
        (λ _. bind-Refuses _ _ (bad_request-Refuses (read_run_request json body)) (λ request.
          bind-Refuses _ _ (bad_request-Refuses (options json request))
            (λ asked. bad_request-Refuses (described (normalize_manual_run_options asked)))))

  encoded-refused :
      (status_code : ℕ) (r : Result String String)
      → status_code ≢ 202
      → (encoded_response status_code r).status_code ≢ 202
  encoded-refused status_code (ok body) n h = n h
  encoded-refused status_code (err e) n h = omega (arith, h)

  module _ (summaries : Summaries) (random_error : String) (s : Service)
      (request : ManagementRequest) (run_id : Option String) (ctx now : ℕ) where
    -- What a request leaves and answers: the service as it is, with another status than 202; or a run,
    -- begun as a POST to the run's route asks.
    pub data Handled (r : ManagementResponse × Service × List Effect) : Type 0 where
      left_alone : r.0.status_code ≢ 202 → r.1 ≡ s → r.2 ≡ [] → Handled r
      begun :
          (asked : ManualRunOptions) (id : String)
          → request.method ≡ "POST"
          → request.path ≡ "/v0/management" <> run_route
          → Asks request.body asked
          → start_manual s asked run_id ctx now ≡ (ok id, r.1, r.2)
          → r.0 ≡ json_management_response json 202 (shows_accepted id)
          → Handled r

    after_start-Handled :
        (asked : ManualRunOptions) (r : Result Error String × Service × List Effect)
        → request.method ≡ "POST"
        → request.path ≡ "/v0/management" <> run_route
        → Asks request.body asked
        → start_manual s asked run_id ctx now ≡ r
        → Handled (after_start json summaries random_error r)
    after_start-Handled asked (ok id, s', effects) post here asks e =
        begun asked id post here asks e refl
    after_start-Handled asked (err x, s', effects) post here asks e =
        let (same, nothing) =
          subst (LeftAlone s) e (start_manual-LeftAlone s asked run_id ctx now) x refl in
        left_alone
          (unfold json_management_response in
            encoded-refused (start_status x) _ (start_status-refused x))
          same nothing

    start_asked-Handled :
        (asked : Result (ℕ × String) ManualRunOptions)
        → request.method ≡ "POST"
        → request.path ≡ "/v0/management" <> run_route
        → run_options json request.body ≡ asked
        → Handled (start_asked json summaries random_error s asked run_id ctx now)
    start_asked-Handled (ok asked) post here e =
        after_start-Handled asked _ post here (run_options-Asks request.body asked e) refl
    start_asked-Handled (err (status_code, x)) post here e =
        left_alone
          (unfold json_management_response in
            encoded-refused status_code _ (run_options-Refuses request.body (status_code, x) e))
          refl refl

    -- A management request begins a run only as a POST to the run's route whose body is accepted:
    -- with the body's choice of a dry run, with indices of which none comes twice, and with no
    -- indices, which stands for all credentials, only where the body names none; the answer is
    -- then 202 with the run's id. Every other request leaves the service as it is, starts
    -- nothing, and is not answered with 202.
    pub handle_management-Handled :
        Handled (handle_management json summaries random_error s request run_id ctx now)
    unfolding handle_management
    handle_management-Handled =
        elim (Bool-cases
          (request.method == "GET" && request.path == "/v0/management" <> status_route)) [
            | inl e ↦ rw e (
                left_alone
                  (unfold json_management_response in encoded-refused 200 _ (λ h. omega (arith, h)))
                  refl refl)
            | inr e ↦
                rw e
                  (elim (Bool-cases
                    (request.method == "POST" && request.path == "/v0/management" <> run_route)) [
                      | inl f ↦ rw f (
                          start_asked-Handled (run_options json request.body)
                            (ground (arith, f, eq_iff request.method "POST"))
                            (ground (arith, f, eq_iff request.path ("/v0/management" <> run_route)))
                            refl)
                      | inr f ↦ rw f (
                          left_alone
                            (unfold json_management_response in
                              encoded-refused 404 _ (λ h. omega (arith, h)))
                            refl refl)
                    ])
          ]
