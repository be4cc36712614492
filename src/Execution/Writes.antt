-- ===== src/Execution/Writes.antt =====
-- The credential files that the loop writes.
use cpa_auto_refresh_quota.Execution.Counts.{attempt-TellsStop, record_attempt-error}
use cpa_auto_refresh_quota.Execution.Loop.{
  record_attempt, skip_rest, Next, Progress, wait_between_auths, after_attempt, leave, run_targets,
  goes_on, is_canceled, is_over,
}
use mathlib.Core.Path.{subst}
use cpa_auto_refresh_quota.Execution.Round.{attempt}
use cpa_auto_refresh_quota.Execution.{Attempt}
use cpa_auto_refresh_quota.Base.{
  ℕ, String, ◌≡◌, refl, sym, ap, ◌∙◌, ◌⊎◌, inl, inr, Bool, true, List, [], ◌∷◌, ◌++◌, arith,
  Bool-cases, length, is_empty,
}
use cpa_auto_refresh_quota.Base.Int.{ℤ}
use cpa_auto_refresh_quota.Auths.{Auth}
use cpa_auto_refresh_quota.Config.{Config}
use cpa_auto_refresh_quota.Host.{AuthFile, Host}
use cpa_auto_refresh_quota.Host.Saves.{Records}
use cpa_auto_refresh_quota.Override.{Json}
use cpa_auto_refresh_quota.Service.{RunReport}
use cpa_auto_refresh_quota.Execution.RoundWrites.{Aligns, attempt-RoundWrites}

-- Of the listed credentials, in their order, some have such a pair, each one pair, and nothing else was
-- written.
pub data Pairs {V : Type 0} (json : Json V) {W : Type 0} (host : Host W) (saves : W → List AuthFile)
    (cfg : Config) (run_id : String) (highest : ℤ) (found : Bool)
    : List Auth → List AuthFile → List AuthFile → Type 0 where
  no_pair :
      (targets : List Auth) (files : List AuthFile)
      → Pairs json host saves cfg run_id highest found targets files files
  not_paired :
      (listed : Auth) (targets : List Auth) (before after : List AuthFile)
      → Pairs json host saves cfg run_id highest found targets before after
      → Pairs json host saves cfg run_id highest found (listed ∷ targets) before after
  then_pairs :
      (listed : Auth) (targets : List Auth) (before between after : List AuthFile)
      → Aligns json host saves cfg run_id highest found listed before between
      → Pairs json host saves cfg run_id highest found targets between after
      → Pairs json host saves cfg run_id highest found (listed ∷ targets) before after

module _ {V : Type 0} (json : Json V) {W : Type 0} (host : Host W) (ctx : ℕ) (cfg : Config)
    (run_id : String) (body : List ℕ) (highest : ℤ) (found : Bool) (saves : W → List AuthFile)
    (records : Records host saves) where
  after_attempt-saves :
      (delay : ℤ) (is_last : Bool) (a : Attempt) (w : W)
      → saves (after_attempt host ctx delay is_last a w).1 ≡ saves w
  unfolding after_attempt wait_between_auths
  after_attempt-saves delay is_last a w = ground (arith, records.by_timer ctx delay w)

  after_attempt-stops :
      (delay : ℤ) (is_last : Bool) (a : Attempt) (w : W)
      → a.stops ≡ true
      → (after_attempt host ctx delay is_last a w).0 ≡ is_over
  unfolding after_attempt
  after_attempt-stops delay is_last a w h = ground (arith, h)

  leave-Pairs :
      (targets : List Auth) (next : Next) (before : List AuthFile) (report : RunReport)
      (published : List RunReport) (left : ℕ) (w : W) (rest : Progress × W)
      → Pairs json host saves cfg run_id highest found targets before (saves w)
      → (next ≡ goes_on
          → Pairs json host saves cfg run_id highest found targets before (saves rest.1))
      → Pairs json host saves cfg run_id highest found targets before
          (saves (leave next (report, published) left w rest).1)
  unfolding leave
  leave-Pairs targets goes_on before report published left w rest h later = later refl
  leave-Pairs targets is_canceled before report published left w rest h later = h
  leave-Pairs targets is_over before report published left w rest h later = h

  leave-error :
      (next : Next) (report : RunReport) (published : List RunReport) (left : ℕ) (w : W)
      (rest : Progress × W)
      → next ≡ is_over
      → (leave next (report, published) left w rest).0.0.error ≡ report.error
  unfolding leave
  leave-error goes_on report published left w rest h = cc
  leave-error is_canceled report published left w rest h = cc
  leave-error is_over report published left w rest h = unfold skip_rest in refl

  leave-rest :
      (next : Next) (st : Progress) (left : ℕ) (w : W) (rest : Progress × W)
      → next ≡ goes_on
      → leave next st left w rest ≡ rest
  unfolding leave
  leave-rest goes_on st left w rest h = refl
  leave-rest is_canceled st left w rest h = cc
  leave-rest is_over st left w rest h = cc

  extend :
      (listed : Auth) (targets : List Auth) (before between after : List AuthFile)
      → (between ≡ before) ⊎ Aligns json host saves cfg run_id highest found listed before between
      → Pairs json host saves cfg run_id highest found targets between after
      → Pairs json host saves cfg run_id highest found (listed ∷ targets) before after
  extend listed targets before between after (inl e) h =
      not_paired listed targets before after
        (subst (λ files. Pairs json host saves cfg run_id highest found targets files after) e h)
  extend listed targets before between after (inr a) h =
      then_pairs listed targets before between after a h

  -- A loop that ends without an error writes credential files only in pairs, at most one for each
  -- target and in their order: the override of the credential, with the priority that it is to
  -- get, and then its restoration, which succeeded, before anything else is written; given that only SaveAuthFile writes, and only where it
  -- answers no error.
  pub run_targets-Pairs :
      (targets : List Auth) (report : RunReport) (published : List RunReport) (w : W)
      → let ((after, _), w') =
          run_targets json host ctx cfg run_id body highest found targets (report, published) w in
        after.error ≡ ""
        → Pairs json host saves cfg run_id highest found targets (saves w) (saves w')
  unfolding run_targets
  run_targets-Pairs [] report published w = λ h. no_pair [] (saves w)
  run_targets-Pairs (listed ∷ targets) report published w = elim (Bool-cases (host.is_done ctx w)) [
    | inl e ↦ rw e (λ h. no_pair (listed ∷ targets) (saves w))
    | inr e ↦ rw e (
        let (a, w1) = attempt json host ctx cfg run_id body highest found listed w in
        let report' = record_attempt report a in
        let (next, w2) = after_attempt host ctx cfg.delay_between_auths (is_empty targets) a w1 in
        let st : Progress = (report', published ++ report' ∷ []) in
        let rest = run_targets json host ctx cfg run_id body highest found targets st w2 in
        λ h. elim (Bool-cases a.stops) [
          | inl s ↦
              elim (record_attempt-error report a
                (attempt-TellsStop json host ctx cfg run_id body highest found listed w s)
                (sym (
                    leave-error next report' (published ++ report' ∷ []) (length targets) w2 rest
                      (after_attempt-stops cfg.delay_between_auths (is_empty targets) a w1 s))
                  ∙ h)) [ ]
          | inr s ↦
              extend listed targets (saves w) (saves w1) _
                (attempt-RoundWrites json host ctx cfg run_id body highest found saves records
                  listed w s)
                (leave-Pairs targets next (saves w1) report' (published ++ report' ∷ [])
                  (length targets) w2 rest (from_saves a w1 (no_pair targets (saves w2)))
                  (λ on. from_saves a w1 (
                    run_targets-Pairs targets report' (published ++ report' ∷ []) w2 (
                      sym (ap (λ r. r.0.0.error) (leave-rest next st (length targets) w2 rest on))
                      ∙ h))))
        ])
  ]
    where
      from_saves :
          (a : Attempt) (w1 : W) {after : List AuthFile}
          → Pairs json host saves cfg run_id highest found targets
              (saves (after_attempt host ctx cfg.delay_between_auths (is_empty targets) a w1).1)
              after
          → Pairs json host saves cfg run_id highest found targets (saves w1) after
      from_saves a w1 {after} h =
          subst (λ files. Pairs json host saves cfg run_id highest found targets files after)
            (after_attempt-saves cfg.delay_between_auths (is_empty targets) a w1) h
