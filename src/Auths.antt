-- ===== src/Auths.antt =====
-- Credentials and their selection: Auth of internal/refreshquota/types.go, and
-- internal/refreshquota/filter.go. sort.Slice is an insertion sort, as Go runs it on short slices.
mod Tests
pub mod Selection
pub mod Priorities
pub mod Duplicates
use cpa_auto_refresh_quota.Base.{
  String, Bool, true, false, not, ◌&&◌, ◌||◌, List, [], ◌∷◌, ◌==◌, if◌then◌else◌, is_empty,
}
use cpa_auto_refresh_quota.Base.Int.{ℤ}
use cpa_auto_refresh_quota.Base.Dict.{contains, set_add}
use cpa_auto_refresh_quota.Base.Text.{trim_space, to_lower, text_lt}
use cpa_auto_refresh_quota.Config.{Config}
use cpa_auto_refresh_quota.Sort.{sort_slice}

pub record Auth : Type 0 where
  pub id : String
  pub auth_index : String
  pub provider : String
  pub status : String
  pub disabled : Bool
  pub unavailable : Bool
  pub runtime_only : Bool
  pub source : String
  pub priority : ℤ

-- An entry of a filter list, as the set holds it.
unfoldable pub set_item : Bool → String → String
set_item lower item = let item' = trim_space item in if lower then to_lower item' else item'

string_set_from : List String → List String → Bool → List String
unfolding set_item
string_set_from out [] lower = out
string_set_from out (item ∷ values) lower =
    let item' = set_item lower item in
    string_set_from (if item' == "" then out else set_add item' out) values lower

unfoldable pub string_set : List String → Bool → List String
unfolding string_set_from
string_set values lower = string_set_from [] values lower

-- The reason is empty where the credential is eligible.
unfoldable pub auth_eligible : Config → Auth → Bool × String
auth_eligible cfg auth =
    let auth_id = trim_space auth.id in
    let auth_index = trim_space auth.auth_index in
    let provider = to_lower (trim_space auth.provider) in
    let status = to_lower (trim_space auth.status) in
    let providers = string_set cfg.providers true in
    let included = string_set cfg.include_auth_indices false in
    let excluded = string_set cfg.exclude_auth_indices false in
    if auth_id == ""
    then (false, "missing_auth_id")
    else if auth_index == ""
    then (false, "missing_auth_index")
    else if auth.disabled || status == "disabled"
    then (false, "disabled")
    else if cfg.skip_unavailable && auth.unavailable
    then (false, "unavailable")
    else if cfg.physical_files_only && auth.runtime_only
    then (false, "not_physical_file")
    else if not (is_empty providers) && not (contains provider providers)
    then (false, "provider_not_selected")
    else if not (is_empty included) && not (contains auth_index included)
    then (false, "auth_not_included")
    else if not (is_empty excluded) && contains auth_index excluded
    then (false, "auth_excluded")
    else (true, "")

-- The loop of FilterAuths: the requested indices first, where any are given, then eligibility.
unfoldable pub select : Config → List String → List Auth → List Auth
select cfg requested [] = []
select cfg requested (auth ∷ auths) =
    let rest = select cfg requested auths in
    if not (is_empty requested) && not (contains (trim_space auth.auth_index) requested)
    then rest
    else if (auth_eligible cfg auth).0
    then auth ∷ rest
    else rest

-- The order of the result: by provider, then by index.
unfoldable pub auth_less : Auth → Auth → Bool
auth_less left right =
    let left_provider = to_lower (trim_space left.provider) in
    let right_provider = to_lower (trim_space right.provider) in
    if not (left_provider == right_provider)
    then text_lt left_provider right_provider
    else text_lt left.auth_index right.auth_index

unfoldable pub filter_auths : Config → List Auth → List String → List Auth
filter_auths cfg auths requested_auth_indices =
    sort_slice auth_less (select cfg (string_set requested_auth_indices false) auths)

duplicate_from : List String → List String → List Auth → Bool
duplicate_from seen_ids seen_indices [] = false
duplicate_from seen_ids seen_indices (auth ∷ auths) =
    let auth_id = trim_space auth.id in
    let auth_index = trim_space auth.auth_index in
    let rest = duplicate_from (set_add auth_id seen_ids) (set_add auth_index seen_indices) auths in
    if contains auth_id seen_ids
    then true
    else if contains auth_index seen_indices
    then true
    else rest

unfoldable pub has_duplicate_auth_identity : List Auth → Bool
unfolding duplicate_from
has_duplicate_auth_identity auths = duplicate_from [] [] auths
