-- ===== src/Management/Refusals.antt =====
-- What the parts of a management request answer when they fail, and when they do not.
use cpa_auto_refresh_quota.Service.Invariant.{start_run_cases}
use cpa_auto_refresh_quota.Management.{named_options, start_status, bad_request, described}
use mathlib.Core.Path.{subst}
use cpa_auto_refresh_quota.Service.Manual.{OptionsError}
use cpa_auto_refresh_quota.Service.Runs.{StartRequest, begin_run, start_manual}
use cpa_auto_refresh_quota.Service.{
  ManualRunOptions, Error, Service, Effect, busy, stopped, not_configured, duplicate, run_id_failed,
  bad_config,
}
use cpa_auto_refresh_quota.Base.{
  ℕ, String, ◌≡◌, refl, sym, ap, ◌≢◌, Bool, true, false, Option, List, [], ◌∷◌, map, arith, eq_iff,
  Result, ◌>>=◌, refuse_if, ok_inj, err_inj, ok, err,
}
use cpa_auto_refresh_quota.Base.Text.{trim_space}
use cpa_auto_refresh_quota.Base.Dict.{contains}

pub bad_request-ok : {A : Type 0} (r : Result String A) (x : A) → bad_request r ≡ ok x → r ≡ ok x
bad_request-ok (ok y) x h = ap ok (ok_inj h)
bad_request-ok (err e) x h = cc

pub described-ok : {A : Type 0} (r : Result OptionsError A) (x : A) → described r ≡ ok x → r ≡ ok x
described-ok (ok y) x h = ap ok (ok_inj h)
described-ok (err e) x h = cc

-- Of an answer with an error: its status is not 202.
abbrev pub Refuses : {A : Type 0} → Result (ℕ × String) A → Type 0
Refuses r = (e : ℕ × String) → r ≡ err e → e.0 ≢ 202

pub bad_request-Refuses : {A : Type 0} (r : Result String A) → Refuses (bad_request r)
bad_request-Refuses (ok x) e h k = cc
bad_request-Refuses (err x) e h k = omega (arith, ap (λ y. y.0) (err_inj h), k)

pub refuse_if-Refuses : (b : Bool) (text : String) → Refuses (refuse_if b (413, text))
refuse_if-Refuses true text e h k = omega (arith, ap (λ y. y.0) (err_inj h), k)
refuse_if-Refuses false text e h k = cc

pub bind-Refuses :
    {A B : Type 0} (r : Result (ℕ × String) A) (f : A → Result (ℕ × String) B)
    → Refuses r
    → ((x : A) → Refuses (f x))
    → Refuses (r >>= f)
bind-Refuses (ok x) f hr hf e h = hf x e h
bind-Refuses (err x) f hr hf e h = hr e (ap err (err_inj h))

pub start_status-refused : (e : Error) → start_status e ≢ 202
unfolding start_status
start_status-refused busy h = omega (arith, h)
start_status-refused not_configured h = omega (arith, h)
start_status-refused stopped h = omega (arith, h)
start_status-refused duplicate h = omega (arith, h)
start_status-refused run_id_failed h = omega (arith, h)
start_status-refused (bad_config e) h = omega (arith, h)

-- Without an occurrence, a start that fails leaves the state and does nothing.
abbrev pub LeftAlone : Service → Result Error String × Service × List Effect → Type 0
LeftAlone s r = (e : Error) → r.0 ≡ err e → (r.1 ≡ s) × (r.2 ≡ [])

begin_run-LeftAlone :
    (s : Service) (q : StartRequest) (run_id : String) → LeftAlone s (begin_run s q run_id)
unfolding begin_run
begin_run-LeftAlone s q run_id e h = ground (arith, h)

pub start_manual-LeftAlone :
    (s : Service) (asked : ManualRunOptions) (run_id : Option String) (ctx now : ℕ)
    → LeftAlone s (start_manual s asked run_id ctx now)
unfolding start_manual
start_manual-LeftAlone s asked run_id ctx now =
    start_run_cases (LeftAlone s) s _ (λ e x h. (refl, refl)) (λ id _ _. begin_run-LeftAlone s _ id)
      (λ id _ named _. elim (named refl) [ ])

pub nonempty :
    (given kept : List String) (index : String) (indices : List String)
    → given ≡ index ∷ indices
    → ((k : String) → contains k kept ≡ contains k (map trim_space given))
    → kept ≢ []
unfolding contains
nonempty given kept index indices e members none_left = ground (
  arith,
  subst (λ g. contains (trim_space index) kept ≡ contains (trim_space index) (map trim_space g)) e
      (members (trim_space index)),
  ap (contains (trim_space index)) none_left,
  eq_iff (trim_space index) (trim_space index),
)

pub named_options-ok :
    (dry_run : Bool) (r : Result String (List String)) (asked : ManualRunOptions)
    → named_options dry_run r ≡ ok asked
    → (asked.dry_run ≡ dry_run)
      × (index : String) × (indices : List String) × (asked.auth_indices ≡ index ∷ indices)
named_options-ok dry_run (err e) asked h = cc
named_options-ok dry_run (ok []) asked h = cc
named_options-ok dry_run (ok (index ∷ indices)) asked h = (
  sym (ap (λ o. o.dry_run) (ok_inj h)),
  index,
  indices,
  sym (ap (λ o. o.auth_indices) (ok_inj h)),
)
