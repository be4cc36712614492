-- ===== src/Config/Parse/Bounds.antt =====
-- What a configuration that ParseConfig accepts keeps to.
use mathlib.Core.Path.{subst}
use cpa_auto_refresh_quota.Config.Parse.{
  RawConfig, Trailing, ConfigError, disabled_config, supported_exit_protocol, default_text,
  from_times, from_filter, decoded_config, location_of, stated_duration, duration_of,
  check_schedule, parse_enabled, parse_config,
}
use cpa_auto_refresh_quota.Base.{
  ℕ, ◌≤◌, String, ◌≡◌, refl, sym, ◌≢◌, ◌⊎◌, inl, inr, Bool, true, false, not, ◌&&◌, ◌||◌, Option,
  List, arith, ◌==◌, eq_iff, ltb, Bool-cases, option_or, is_empty, All, Pairwise, Result, ◌>>=◌,
  ◌>>◌, refuse_if, >>=-eq-ok, ok_inj, ok, err,
}
use cpa_auto_refresh_quota.Base.Text.{trim_space, to_lower, byte_length}
use cpa_auto_refresh_quota.Base.Dict.{contains, AllDistinct}
use cpa_auto_refresh_quota.Base.Int.{ℤ, ◌≤ℤ◌, ltb_ℤ, pos}
use cpa_auto_refresh_quota.Config.Times.{TimeError, normalize_times}
use cpa_auto_refresh_quota.Config.TimeOrder.{IsTime, IsBefore, normalize_times_lem}
use cpa_auto_refresh_quota.Config.Filters.{
  normalize_strings, normalize_filter_strings, normalize_strings_lem,
}
use cpa_auto_refresh_quota.Config.{DailyTime, Config}

abbrev pub IsWithin : ℕ → ℕ → ℤ → Type 0
IsWithin low high v = (pos low ≤ℤ v) × (v ≤ℤ pos high)

-- Texts for a filter: pairwise different and none blank.
abbrev pub IsFilter : List String → Type 0
IsFilter values = AllDistinct values × (contains "" values ≡ false)

pub record IsValid (cfg : Config) : Type 0 where
  pub enabled : cfg.host_enabled ≡ true
  pub tokens : IsWithin 1 4096 cfg.max_tokens
  pub delay : IsWithin 0 3_600_000_000_000 cfg.delay_between_auths
  pub sync : IsWithin 100_000_000 60_000_000_000 cfg.priority_sync_timeout
  pub timeout : IsWithin 1_000_000_000 1_800_000_000_000 cfg.request_timeout
  pub times : All IsTime cfg.times
  pub increasing : Pairwise IsBefore cfg.times
  pub message : byte_length cfg.message ≤ 65536
  pub scheduled :
      cfg.schedule_enabled ≡ true
      → (is_empty cfg.times ≡ false) × (cfg.model ≢ "") × (trim_space cfg.message ≢ "")
  pub entry : cfg.entry_protocol ≡ "openai"
  pub exit : supported_exit_protocol cfg.exit_protocol ≡ true
  pub providers : IsFilter cfg.providers
  pub included : IsFilter cfg.include_auth_indices
  pub excluded : IsFilter cfg.exclude_auth_indices

-- What the result satisfies, where it is one.
abbrev Gives {ℓ κ μ} : {E : Type ℓ} {A : Type κ} → (A → Type μ) → Result E A → Type μ
Gives P (ok a) = P a
Gives P (err e) = Unit

Gives-eq-ok {ℓ κ μ} :
    {E : Type ℓ} {A : Type κ} (P : A → Type μ) (m : Result E A) (a : A) → Gives P m → m ≡ ok a → P a
Gives-eq-ok P m a h e = subst (Gives P) e h

>>=-Gives {ℓ κ μ ν} :
    {E : Type ℓ} {A : Type κ} {B : Type μ} {P : A → Type ν} (m : Result E A) (f : A → Result E B)
    {b : B}
    → Gives P m
    → (m >>= f) ≡ ok b
    → (a : A) × P a × (f a ≡ ok b)
>>=-Gives {P = P} m f g h = let (a, e, h') = >>=-eq-ok m f h in (a, Gives-eq-ok P m a g e, h')

guard-eq-ok {ℓ κ} :
    {E : Type ℓ} {A : Type κ} (bad : Bool) (e : E) (k : Result E A) {a : A}
    → (refuse_if bad e >> k) ≡ ok a
    → (bad ≡ false) × (k ≡ ok a)
guard-eq-ok true e k h = cc
guard-eq-ok false e k h = (refl, h)

within :
    (low high : ℕ) (v : ℤ) → (ltb_ℤ v (pos low) || ltb_ℤ (pos high) v) ≡ false → IsWithin low high v
within low high v h = ground arith

from_filter-Gives :
    (name : String) (values : List String) (lower : Bool)
    → Gives IsFilter (from_filter (normalize_filter_strings name values lower))
unfolding from_filter normalize_filter_strings
from_filter-Gives name values lower =
    elim (Bool-cases (not (is_empty values) && is_empty (normalize_strings values lower))) [
      | inl e ↦ rw e tt
      | inr e ↦
          rw e ((normalize_strings_lem values lower).0, (normalize_strings_lem values lower).1 "")
    ]

from_times-Gives :
    (values : List String)
    → Gives
        (λ times. All IsTime times × Pairwise IsBefore times)
        (from_times (normalize_times values))
unfolding from_times
from_times-Gives values = named (normalize_times values) refl
  where
    named :
        (r : Result TimeError (List DailyTime))
        → normalize_times values ≡ r
        → Gives (λ times. All IsTime times × Pairwise IsBefore times) (from_times r)
    named (ok times) e = let (_, all, order) = normalize_times_lem values times e in (all, order)
    named (err x) e = tt

duration_of-eq-ok {ℓ} :
    {B : Type ℓ} (parse_duration : String → Option ℤ) (name raw : String) (default low high : ℕ)
    (f : ℤ → Result ConfigError B) {b : B}
    → (duration_of parse_duration name raw default low high >>= f) ≡ ok b
    → (d : ℤ) × IsWithin low high d × (f d ≡ ok b)
unfolding duration_of
duration_of-eq-ok parse_duration name raw default low high f h =
    let (d, e, rest) = >>=-eq-ok (duration_of parse_duration name raw default low high) f h in
    let (d0, _, h1) = >>=-eq-ok (stated_duration parse_duration name raw default) _ e in
    let (bounds, h2) = guard-eq-ok _ _ _ h1 in
    (d, subst (IsWithin low high) (ok_inj h2) (within low high d0 bounds), rest)

from_filter-eq-ok {ℓ} :
    {B : Type ℓ} (name : String) (values : List String) (lower : Bool)
    (f : List String → Result ConfigError B) {b : B}
    → (from_filter (normalize_filter_strings name values lower) >>= f) ≡ ok b
    → (out : List String) × IsFilter out × (f out ≡ ok b)
from_filter-eq-ok name values lower f h = >>=-Gives _ f (from_filter-Gives name values lower) h

-- What a schedule needs.
abbrev HasSchedule : RawConfig → List DailyTime → Unit {0} → Type 0
HasSchedule decoded times u =
    decoded.schedule_enabled ≡ true
    → (is_empty times ≡ false) × (trim_space decoded.model ≢ "") × (trim_space decoded.message ≢ "")

check_schedule-Gives :
    (decoded : RawConfig) (times : List DailyTime)
    → Gives (HasSchedule decoded times) (check_schedule decoded times)
unfolding check_schedule
check_schedule-Gives decoded times = ground (
  arith,
  eq_iff (trim_space decoded.model) "",
  eq_iff (trim_space decoded.message) "",
  Bool-cases decoded.schedule_enabled,
  Bool-cases (is_empty times),
)

parse_enabled-IsValid :
    (load_location : String → Option String) (parse_duration : String → Option ℤ)
    (decoded : RawConfig) (cfg : Config)
    → parse_enabled load_location parse_duration decoded ≡ ok cfg
    → IsValid cfg
unfolding parse_enabled
parse_enabled-IsValid load_location parse_duration decoded cfg h =
    let zone = default_text (trim_space decoded.timezone) "Local" in
    let tokens = option_or decoded.max_tokens (pos 16) in
    let entry_protocol = default_text (to_lower (trim_space decoded.entry_protocol)) "openai" in
    let exit_protocol = default_text (to_lower (trim_space decoded.exit_protocol)) "openai" in
    let (location, _, h1) = >>=-eq-ok (location_of load_location zone) _ h in
    let (in_range, h2) = guard-eq-ok (ltb_ℤ tokens (pos 1) || ltb_ℤ (pos 4096) tokens) _ _ h1 in
    let (delay, d, h3) = duration_of-eq-ok parse_duration _ _ _ _ _ _ h2 in
    let (sync, s, h4) = duration_of-eq-ok parse_duration _ _ _ _ _ _ h3 in
    let (timeout, t, h5) = duration_of-eq-ok parse_duration _ _ _ _ _ _ h4 in
    let (times, ht, h6) =
      >>=-Gives (from_times (normalize_times decoded.times)) _ (from_times-Gives decoded.times)
        h5 in
    let (message, h7) = guard-eq-ok (ltb 65536 (byte_length decoded.message)) _ _ h6 in
    let (_, scheduled, h8) =
      >>=-Gives (check_schedule decoded times) _ (check_schedule-Gives decoded times) h7 in
    let (entry, h9) = guard-eq-ok (not (entry_protocol == "openai")) _ _ h8 in
    let (exit, h10) = guard-eq-ok (not (supported_exit_protocol exit_protocol)) _ _ h9 in
    let (providers, hp, h11) = from_filter-eq-ok _ _ _ _ h10 in
    let (included, hi, h12) = from_filter-eq-ok _ _ _ _ h11 in
    let (excluded, he, h13) = from_filter-eq-ok _ _ _ _ h12 in
    subst IsValid (ok_inj h13) (record {
      enabled = refl;
      tokens = within 1 4096 tokens in_range;
      delay = d;
      sync = s;
      timeout = t;
      times = ht.0;
      increasing = ht.1;
      message = ground (arith, message);
      scheduled = scheduled;
      entry = ground (arith, entry, eq_iff entry_protocol "openai");
      exit = ground (arith, exit);
      providers = hp;
      included = hi;
      excluded = he;
    })

-- A configuration that parses is the empty one, of a plugin that is not enabled, or it is enabled
-- and valid: the numbers and durations are within their bounds, the times strictly increase, the
-- message has at most 65536 bytes, the protocols are supported, the filters have no blank and no
-- repetition, and a schedule has its times, model and message.
pub parse_config-IsValid :
    (load_location : String → Option String) (parse_duration : String → Option ℤ)
    (decode : String → Option RawConfig) (decode_next : String → Trailing) (raw : String)
    (cfg : Config)
    → parse_config load_location parse_duration decode decode_next raw ≡ ok cfg
    → (cfg ≡ disabled_config) ⊎ IsValid cfg
unfolding parse_config
parse_config-IsValid load_location parse_duration decode decode_next raw cfg h =
    let (decoded, _, h1) = >>=-eq-ok (decoded_config decode decode_next raw) _ h in
    elim (Bool-cases (not (option_or decoded.host_enabled true))) [
      | inl e ↦ inl (sym (ok_inj (rw e at h1)))
      | inr e ↦ inr (parse_enabled-IsValid load_location parse_duration decoded cfg (rw e at h1))
    ]
