-- ===== src/Auths/Tests.antt =====
-- The selection of credentials on concrete lists.
use cpa_auto_refresh_quota.Auths.Selection.{
  IsEligible, auth_eligible_iff, is_target, filter_auths_lem,
}
use cpa_auto_refresh_quota.Auths.Priorities.{
  highest_available_priority, desired_priority_for_auth, IsUpperBound, attains, AllDisabled,
  highest_available_priority_cases, desired_priority_bounds,
}
use cpa_auto_refresh_quota.Auths.Duplicates.{ids, indices, has_duplicate_auth_identity_iff}
use cpa_auto_refresh_quota.Auths.{
  Auth, string_set, auth_eligible, select, auth_less, filter_auths, has_duplicate_auth_identity,
}
use mathlib.Core.List.{Perm}
use cpa_auto_refresh_quota.Base.{ℕ, String, ◌≡◌, refl, ◌↔◌, ◌⊎◌, true, false, List, [], ◌∷◌, keep}
use cpa_auto_refresh_quota.Base.Int.{ℤ, ◌≤ℤ◌, pos}
use cpa_auto_refresh_quota.Base.Dict.{contains, set_add, AllDistinct}
use cpa_auto_refresh_quota.Base.Text.{trim_space, to_lower, text_lt}
use cpa_auto_refresh_quota.Config.{Config}
use cpa_auto_refresh_quota.Config.Parse.{disabled_config}
use cpa_auto_refresh_quota.Sort.{sort_slice, IsOrdered}

abbrev credential : String → String → ℕ → Auth
credential id provider priority = record {
  id = id;
  auth_index = id;
  provider = provider;
  status = "active";
  disabled = false;
  unavailable = false;
  runtime_only = false;
  source = "file";
  priority = pos priority;
}

abbrev codex_only : Config
codex_only = record disabled_config { host_enabled = true; providers = " Codex " ∷ [] }

abbrev listed : List Auth
listed = credential "b" "codex" 3 ∷ credential "c" "claude" 9 ∷ credential "a" "CODEX" 5 ∷ []

selected :
    filter_auths codex_only listed [] ≡ credential "a" "CODEX" 5 ∷ credential "b" "codex" 3 ∷ []
unfolding filter_auths sort_slice select string_set auth_eligible trim_space to_lower set_add
    contains auth_less text_lt
selected = refl

filter_auths_lem_example :
    Perm (filter_auths codex_only listed ("a" ∷ [])) (keep (is_target codex_only ("a" ∷ [])) listed)
    × IsOrdered auth_less (filter_auths codex_only listed ("a" ∷ []))
filter_auths_lem_example = filter_auths_lem codex_only listed ("a" ∷ [])

auth_eligible_iff_example :
    ((auth_eligible codex_only (credential "c" "claude" 9)).0 ≡ true)
    ↔ IsEligible codex_only (credential "c" "claude" 9)
auth_eligible_iff_example = auth_eligible_iff codex_only (credential "c" "claude" 9)

has_duplicate_auth_identity_iff_example :
    (has_duplicate_auth_identity listed ≡ false)
    ↔ (AllDistinct (ids listed) × AllDistinct (indices listed))
has_duplicate_auth_identity_iff_example = has_duplicate_auth_identity_iff listed

highest_available_priority_cases_example :
    (AllDisabled listed × (highest_available_priority listed ≡ (pos 0, false)))
    ⊎ ((m : ℤ) × (highest_available_priority listed ≡ (m, true))
        × IsUpperBound m listed
        × (attains m listed ≡ true))
highest_available_priority_cases_example = highest_available_priority_cases listed

desired_priority_bounds_example :
    let (highest, found) = highest_available_priority listed in
    let desired = desired_priority_for_auth (credential "b" "codex" 3) highest found in
    (pos 3 ≤ℤ desired)
    × IsUpperBound desired listed
    × ((desired ≡ pos 3) ⊎ (attains desired listed ≡ true))
desired_priority_bounds_example = desired_priority_bounds (credential "b" "codex" 3) listed
