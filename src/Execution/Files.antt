-- ===== src/Execution/Files.antt =====
-- The credential files that a whole run writes.
use mathlib.Core.Path.{subst}
use cpa_auto_refresh_quota.Execution.Writes.{Pairs, run_targets-Pairs, no_pair}
use cpa_auto_refresh_quota.Execution.Calls.{Finishes}
use cpa_auto_refresh_quota.Service.Invariant.{Action}
use cpa_auto_refresh_quota.Execution.Loop.{run_targets}
use cpa_auto_refresh_quota.Execution.Run.{
  list_failed, recovery_failed, relist_failed, fail_run, targets_of, send_requests, execute_listed,
  execute_relisted, execute_recovered, execute_first, execute_run,
}
use cpa_auto_refresh_quota.Execution.{ChatCompletionRequest, build_request_body}
use cpa_auto_refresh_quota.Transaction.Stale.{Restorations, recover_stale-Restorations}
use cpa_auto_refresh_quota.Transaction.Recovery.{recover_stale_priority_overrides}
use cpa_auto_refresh_quota.Base.{
  ℕ, String, ◌≡◌, refl, sym, ◌≢◌, ◌⊎◌, inl, inr, Bool, true, false, Option, none, some, List, [],
  ◌∷◌, arith, ◌==◌, eq_iff, Bool-cases, Result, ok, err,
}
use cpa_auto_refresh_quota.Auths.{Auth, filter_auths, has_duplicate_auth_identity}
use cpa_auto_refresh_quota.Auths.Priorities.{highest_available_priority}
use cpa_auto_refresh_quota.Config.{Config}
use cpa_auto_refresh_quota.Host.{AuthFile, Host}
use cpa_auto_refresh_quota.Host.Saves.{Records, Lists}
use cpa_auto_refresh_quota.Override.{Json}
use cpa_auto_refresh_quota.Service.{RunReport, ManualRunOptions}

-- The credentials as the host listed them after the restorations of what an earlier run left. Those
-- were for credentials of a first list, before which nothing was written.
pub record Prepared {V : Type 0} (json : Json V) {W : Type 0} (host : Host W)
    (saves : W → List AuthFile) (before recovered : List AuthFile) (auths : List Auth)
    : Type 0 where
  pub first : List Auth
  pub listed_first : Lists host saves before first
  pub restored : Restorations json host saves first before recovered
  pub listed : Lists host saves recovered auths

-- After that, pairs of an override and its restoration for the credentials that are selected of the
-- list, with the priorities that it asks for; none in a dry run.
pub record Tidy {V : Type 0} (json : Json V) {W : Type 0} (host : Host W)
    (saves : W → List AuthFile) (cfg : Config) (auth_indices : List String) (run_id : String)
    (dry_run : Bool) (before after : List AuthFile) : Type 0 where
  pub recovered : List AuthFile
  pub auths : List Auth
  pub prepared : Prepared json host saves before recovered auths
  pub paired :
      Pairs json host saves cfg run_id
        (highest_available_priority auths).0
        (highest_available_priority auths).1
        (filter_auths cfg auths auth_indices)
        recovered
        after
  pub dry : (dry_run ≡ false) ⊎ (after ≡ recovered)

module _ {V : Type 0} (json : Json V) {W : Type 0} (host : Host W)
    (marshal : ChatCompletionRequest → Result String (List ℕ)) (ctx : ℕ) (cfg : Config)
    (options : ManualRunOptions) (saves : W → List AuthFile) (records : Records host saves) where
  -- The report with which the run ends shows an error, or what was written is tidy.
  abbrev pub IsTidy : String → Bool → List AuthFile → List Action × W → Type 0
  IsTidy run_id dry_run before r =
      Finishes host
        (λ final.
          (final.error ≢ "")
          ⊎ Tidy json host saves cfg options.auth_indices run_id dry_run before (saves r.1))
        r

  fail_run-IsTidy :
      (error : String) (report : RunReport) (dry_run : Bool) (before : List AuthFile) (w : W)
      → error ≢ ""
      → IsTidy report.run_id dry_run before (fail_run json host marshal ctx cfg error report w)
  unfolding fail_run
  fail_run-IsTidy error report dry_run before w named = ([], _, refl, inl named)

  untouched :
      (run_id : String) (dry_run : Bool) (auths : List Auth) (before : List AuthFile) (w : W)
      → Prepared json host saves before (saves w) auths
      → Tidy json host saves cfg options.auth_indices run_id dry_run before (saves w)
  untouched run_id dry_run auths before w h = record {
    recovered = saves w;
    auths = auths;
    prepared = h;
    paired = no_pair (targets_of cfg options auths) (saves w);
    dry = inr refl;
  }

  send_requests-IsTidy :
      (auths : List Auth) (report : RunReport) (body : Result String (List ℕ))
      (before : List AuthFile) (w : W)
      → Prepared json host saves before (saves w) auths
      → IsTidy report.run_id false before (
          send_requests json host marshal ctx cfg auths
            (targets_of cfg options auths)
            report
            body
            w)
  unfolding send_requests
  send_requests-IsTidy auths report (err e) before w h =
      (report ∷ [], _, refl, inr (untouched report.run_id false auths before w h))
  send_requests-IsTidy auths report (ok body) before w h =
      let (highest, found) = highest_available_priority auths in
      let targets = targets_of cfg options auths in
      let (st, w') =
        run_targets json host ctx cfg report.run_id body highest found targets (report, report ∷ [])
          w in
      (
        st.1,
        st.0,
        refl,
        elim (Bool-cases (st.0.error == "")) [
          | inl e ↦ inr (record {
            recovered = saves w;
            auths = auths;
            prepared = h;
            paired =
                run_targets-Pairs json host ctx cfg report.run_id body highest found saves records
                  targets report (report ∷ []) w ((eq_iff st.0.error "").0 e);
            dry = inl refl;
          })
          | inr e ↦ inl (λ x. ground (arith, e, x, eq_iff st.0.error ""))
        ],
      )

  module _ (clean : String → String) (is_windows : Bool) where
    execute_listed-IsTidy :
        (report : RunReport) (auths : List Auth) (before : List AuthFile) (w : W)
        → Prepared json host saves before (saves w) auths
        → IsTidy report.run_id options.dry_run before
            (execute_listed json host marshal clean is_windows ctx cfg options report auths w)
    unfolding execute_listed
    execute_listed-IsTidy report auths before w h =
        elim (Bool-cases (has_duplicate_auth_identity (targets_of cfg options auths))) [
          | inl e ↦ rw e (_ ∷ [], _, refl, inl (λ x. cc))
          | inr e ↦ rw e (elim (Bool-cases options.dry_run) [
            | inl d ↦ rw d (_ ∷ [], _, refl, inr (untouched report.run_id true auths before w h))
            | inr d ↦
                rw d (send_requests-IsTidy auths _ (build_request_body marshal cfg) before w h)
          ])
        ]

    -- What ListAuths answers again, in a state with the same files.
    execute_relisted-IsTidy :
        (report : RunReport) (listed : Option (List Auth) × W) (before : List AuthFile)
        → ((auths : List Auth)
            → listed.0 ≡ some auths
            → Prepared json host saves before (saves listed.1) auths)
        → IsTidy report.run_id options.dry_run before
            (execute_relisted json host marshal clean is_windows ctx cfg options report listed)
    execute_relisted-IsTidy report (none, w) before h =
        fail_run-IsTidy relist_failed report options.dry_run before w (λ x. cc)
    execute_relisted-IsTidy report (some auths, w) before h =
        execute_listed-IsTidy report auths before w (h auths refl)

    execute_recovered-IsTidy :
        (report : RunReport) (auths : List Auth) (recovered : (Bool × Bool) × W)
        (before : List AuthFile)
        → Lists host saves before auths
        → Restorations json host saves auths before (saves recovered.1)
          × ((recovered.0.0 ≡ true) ⊎ (recovered.0.1 ≡ true) ⊎ (saves recovered.1 ≡ before))
        → IsTidy report.run_id options.dry_run before (
            execute_recovered json host marshal clean is_windows ctx cfg options report auths
              recovered)
    execute_recovered-IsTidy report auths ((recovered, true), w) before listed h =
        fail_run-IsTidy recovery_failed report options.dry_run before w (λ x. cc)
    execute_recovered-IsTidy report auths ((true, false), w) before listed h =
        execute_relisted-IsTidy report (host.list_auths ctx w) before (λ again e.
          subst (λ files. Prepared json host saves before files again) (sym (records.by_list ctx w))
            (record {
              first = auths;
              listed_first = listed;
              restored = h.0;
              listed = record { ctx = ctx; world = w; answered = e; same = refl };
            }))
    execute_recovered-IsTidy report auths ((false, false), w) before listed h =
        execute_listed-IsTidy report auths before w (record {
          first = auths;
          listed_first = listed;
          restored = h.0;
          listed = elim h.1 [
            | inl e ↦ cc
            | inr x ↦ elim x [
              | inl e ↦ cc
              | inr same ↦ subst (λ files. Lists host saves files auths) (sym same) listed
            ]
          ];
        })

    execute_first-IsTidy :
        (report : RunReport) (listed : Option (List Auth) × W) (before : List AuthFile)
        → ((auths : List Auth) → listed.0 ≡ some auths → Lists host saves before auths)
        → saves listed.1 ≡ before
        → IsTidy report.run_id options.dry_run before
            (execute_first json host marshal clean is_windows ctx cfg options report listed)
    execute_first-IsTidy report (none, w) before listed same =
        fail_run-IsTidy list_failed report options.dry_run before w (λ x. cc)
    execute_first-IsTidy report (some auths, w) before listed same =
        execute_recovered-IsTidy report auths _ before (listed auths refl) (
          subst
            (λ files.
              let (r, w') =
                recover_stale_priority_overrides json host clean is_windows ctx cfg auths w in
              Restorations json host saves auths files (saves w')
              × ((r.0 ≡ true) ⊎ (r.1 ≡ true) ⊎ (saves w' ≡ files)))
            same
            (recover_stale-Restorations json host clean is_windows ctx cfg saves records auths w))

    -- A run whose last report shows no error restores files that an earlier run left with a marker, then
    -- takes the credentials as the host lists them after that, and writes nothing but pairs, at
    -- most one for each selected credential and in their order: the override of the credential,
    -- which the host gives with the same index and id, and eligible, with the priority that it is to get among
    -- those listed, and then its restoration, which succeeds, before anything else is written;
    -- each time the file is the one that GetAuthFile gives for the credential's index, with
    -- nothing changed but its content; a dry run writes no such pair; given that only SaveAuthFile
    -- writes, and only where it answers no error.
    pub execute_run-IsTidy :
        (report : RunReport) (w : W)
        → IsTidy report.run_id options.dry_run
            (saves w)
            (execute_run json host marshal clean is_windows ctx cfg options report w)
    unfolding execute_run
    execute_run-IsTidy report w =
        execute_first-IsTidy report (host.list_auths ctx w) (saves w)
          (λ auths e. record { ctx = ctx; world = w; answered = e; same = refl })
          (records.by_list ctx w)
