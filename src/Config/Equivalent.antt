-- ===== src/Config/Equivalent.antt =====
-- Config.Equivalent and equalStrings of internal/refreshquota/config.go.
use cpa_auto_refresh_quota.Config.{DailyTime, Config}
use cpa_auto_refresh_quota.Base.{
  String, ◌≡◌, refl, ◌↔◌, Bool, true, false, not, ◌&&◌, Option, List, [], ◌∷◌, arith, ◌==◌, eq_iff,
  eq_refl, ◌=ℕ◌,
}
use cpa_auto_refresh_quota.Base.Int.{eqb_ℤ, eqb_ℤ_iff}
use mathlib.Core.Path.{subst}

-- Go's `==` on bool.
abbrev pub same_bool : Bool → Bool → Bool
same_bool true b = b
same_bool false b = not b

abbrev pub same_time : DailyTime → DailyTime → Bool
same_time a b = a.hour =ℕ b.hour && a.minute =ℕ b.minute && a.second =ℕ b.second && a.text == b.text

-- The lengths are compared first, so that the loop over the indices reads both lists.
unfoldable pub equal_strings : List String → List String → Bool
equal_strings [] [] = true
equal_strings [] (b ∷ bs) = false
equal_strings (a ∷ as') [] = false
equal_strings (a ∷ as') (b ∷ bs) = a == b && equal_strings as' bs

unfoldable pub equal_times : List DailyTime → List DailyTime → Bool
equal_times [] [] = true
equal_times [] (b ∷ bs) = false
equal_times (a ∷ as') [] = false
equal_times (a ∷ as') (b ∷ bs) = same_time a b && equal_times as' bs

unfoldable pub equivalent : Config → Config → Bool
equivalent c other =
    same_bool c.host_enabled other.host_enabled
    && same_bool c.schedule_enabled other.schedule_enabled
    && c.timezone == other.timezone
    && c.model == other.model
    && c.message == other.message
    && c.entry_protocol == other.entry_protocol
    && c.exit_protocol == other.exit_protocol
    && eqb_ℤ c.max_tokens other.max_tokens
    && same_bool c.physical_files_only other.physical_files_only
    && same_bool c.skip_unavailable other.skip_unavailable
    && eqb_ℤ c.delay_between_auths other.delay_between_auths
    && same_bool c.temporary_priority other.temporary_priority
    && eqb_ℤ c.priority_sync_timeout other.priority_sync_timeout
    && eqb_ℤ c.request_timeout other.request_timeout
    && equal_times c.times other.times
    && equal_strings c.providers other.providers
    && equal_strings c.include_auth_indices other.include_auth_indices
    && equal_strings c.exclude_auth_indices other.exclude_auth_indices

equal_strings_iff : (xs ys : List String) → (equal_strings xs ys ≡ true) ↔ (xs ≡ ys)
unfolding equal_strings
equal_strings_iff [] [] = (λ h. refl, λ h. refl)
equal_strings_iff [] (y ∷ ys) = (λ h. cc, λ h. cc)
equal_strings_iff (x ∷ xs) [] = (λ h. cc, λ h. cc)
equal_strings_iff (x ∷ xs) (y ∷ ys) = (
  λ h. ground (arith, eq_iff x y, (equal_strings_iff xs ys).0),
  λ h. ground (arith, eq_iff x y, (equal_strings_iff xs ys).1),
)

same_time_iff : (a b : DailyTime) → (same_time a b ≡ true) ↔ (a ≡ b)
same_time_iff a b = ground (arith, eq_iff a.text b.text)

equal_times_iff : (xs ys : List DailyTime) → (equal_times xs ys ≡ true) ↔ (xs ≡ ys)
unfolding equal_times
equal_times_iff [] [] = (λ h. refl, λ h. refl)
equal_times_iff [] (y ∷ ys) = (λ h. cc, λ h. cc)
equal_times_iff (x ∷ xs) [] = (λ h. cc, λ h. cc)
equal_times_iff (x ∷ xs) (y ∷ ys) = (
  λ h. ground (arith, same_time_iff x y, (equal_times_iff xs ys).0),
  λ h. ground (arith, same_time_iff x y, (equal_times_iff xs ys).1),
)

same_bool_iff : (a b : Bool) → (same_bool a b ≡ true) ↔ (a ≡ b)
same_bool_iff a b = ground arith

equivalent_self : (c : Config) (l : Option String) → equivalent c (record c { location = l }) ≡ true
unfolding equivalent
equivalent_self c l = simp (
  (same_bool_iff _ _).1 refl,
  eq_refl,
  (eqb_ℤ_iff _ _).1 refl,
  (equal_times_iff _ _).1 refl,
  (equal_strings_iff _ _).1 refl,
)

both : (a b : Bool) → (a && b) ≡ true → (a ≡ true) × (b ≡ true)
both a b h = ground arith

equivalent-eq :
    (c other : Config) → equivalent c other ≡ true → record c { location = other.location } ≡ other
unfolding equivalent
equivalent-eq c other h =
    let h1 = both _ _ h in
    let h2 = both _ _ h1.0 in
    let h3 = both _ _ h2.0 in
    let h4 = both _ _ h3.0 in
    let h5 = both _ _ h4.0 in
    let h6 = both _ _ h5.0 in
    let h7 = both _ _ h6.0 in
    let h8 = both _ _ h7.0 in
    let h9 = both _ _ h8.0 in
    let h10 = both _ _ h9.0 in
    let h11 = both _ _ h10.0 in
    let h12 = both _ _ h11.0 in
    let h13 = both _ _ h12.0 in
    let h14 = both _ _ h13.0 in
    let h15 = both _ _ h14.0 in
    let h16 = both _ _ h15.0 in
    let h17 = both _ _ h16.0 in
    λ i. record {
      host_enabled = ((same_bool_iff c.host_enabled other.host_enabled).0 h17.0) i;
      schedule_enabled = ((same_bool_iff c.schedule_enabled other.schedule_enabled).0 h17.1) i;
      timezone = ((eq_iff c.timezone other.timezone).0 h16.1) i;
      model = ((eq_iff c.model other.model).0 h15.1) i;
      message = ((eq_iff c.message other.message).0 h14.1) i;
      entry_protocol = ((eq_iff c.entry_protocol other.entry_protocol).0 h13.1) i;
      exit_protocol = ((eq_iff c.exit_protocol other.exit_protocol).0 h12.1) i;
      max_tokens = ((eqb_ℤ_iff c.max_tokens other.max_tokens).0 h11.1) i;
      physical_files_only =
          ((same_bool_iff c.physical_files_only other.physical_files_only).0 h10.1) i;
      skip_unavailable = ((same_bool_iff c.skip_unavailable other.skip_unavailable).0 h9.1) i;
      delay_between_auths = ((eqb_ℤ_iff c.delay_between_auths other.delay_between_auths).0 h8.1) i;
      temporary_priority = ((same_bool_iff c.temporary_priority other.temporary_priority).0 h7.1) i;
      priority_sync_timeout =
          ((eqb_ℤ_iff c.priority_sync_timeout other.priority_sync_timeout).0 h6.1) i;
      request_timeout = ((eqb_ℤ_iff c.request_timeout other.request_timeout).0 h5.1) i;
      times = ((equal_times_iff c.times other.times).0 h4.1) i;
      providers = ((equal_strings_iff c.providers other.providers).0 h3.1) i;
      include_auth_indices =
          ((equal_strings_iff c.include_auth_indices other.include_auth_indices).0 h2.1) i;
      exclude_auth_indices =
          ((equal_strings_iff c.exclude_auth_indices other.exclude_auth_indices).0 h1.1) i;
      location = other.location;
    }

-- Two configurations are equivalent exactly where they agree in every field but the location,
-- which the timezone's name determines.
pub equivalent_iff :
    (c other : Config)
    → (equivalent c other ≡ true) ↔ (record c { location = other.location } ≡ other)
equivalent_iff c other = (
  equivalent-eq c other,
  λ h. subst (λ o. equivalent c o ≡ true) h (equivalent_self c other.location),
)
