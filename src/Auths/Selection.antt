-- ===== src/Auths/Selection.antt =====
-- What FilterAuths keeps and in which order, and when AuthEligible accepts a credential.
use cpa_auto_refresh_quota.Base.Text.{trim_space, to_lower, text_lt_trans, text_lt_irrefl}
use cpa_auto_refresh_quota.Base.{
  String, ◌≡◌, refl, ◌≢◌, ◌↔◌, inl, inr, Bool, true, false, not, ◌&&◌, ◌||◌, List, [], ◌∷◌, arith,
  ◌==◌, eq_iff, Bool-cases, is_empty, keep,
}
use cpa_auto_refresh_quota.Base.Dict.{contains, set_add, contains-set_add}
use cpa_auto_refresh_quota.Config.{Config}
use mathlib.Core.List.{Perm}
use cpa_auto_refresh_quota.Sort.{sort_slice-perm, IsOrdered, sort_slice-IsOrdered}
use cpa_auto_refresh_quota.Auths.{
  Auth, set_item, string_set_from, string_set, auth_eligible, select, auth_less, filter_auths,
}

-- An entry of the list reads `k`, once trimmed and, where the filter asks for that, lower-cased.
abbrev pub lists : Bool → String → List String → Bool
lists lower k [] = false
lists lower k (v ∷ values) = set_item lower v == k || lists lower k values

-- No entry holds anything but blanks.
abbrev pub all_blank : Bool → List String → Bool
all_blank lower [] = true
all_blank lower (v ∷ values) = set_item lower v == "" && all_blank lower values

contains-string_set_from :
    (lower : Bool) (k : String) (out values : List String)
    → contains k (string_set_from out values lower)
      ≡ (contains k out || (not (k == "") && lists lower k values))
unfolding string_set_from
contains-string_set_from lower k out [] = ground arith
contains-string_set_from lower k out (v ∷ values) = elim (Bool-cases (set_item lower v == "")) [
  | inl e ↦
      rw (e, contains-string_set_from lower k out values)
        (ground (arith, eq_iff (set_item lower v) k, eq_iff (set_item lower v) "", eq_iff k ""))
  | inr e ↦
      rw (e, contains-string_set_from lower k (set_add (set_item lower v) out) values)
        (ground (
          arith,
          contains-set_add (set_item lower v) k out,
          eq_iff (set_item lower v) k,
          eq_iff k "",
          eq_iff (set_item lower v) "",
        ))
]

contains-string_set :
    (lower : Bool) (k : String) (values : List String)
    → contains k (string_set values lower) ≡ (not (k == "") && lists lower k values)
unfolding string_set contains
contains-string_set lower k values = contains-string_set_from lower k [] values

is_empty-set_add : (k : String) (xs : List String) → is_empty (set_add k xs) ≡ false
unfolding set_add contains
is_empty-set_add k [] = refl
is_empty-set_add k (x ∷ xs) = ground arith

is_empty-string_set_from :
    (lower : Bool) (out values : List String)
    → is_empty (string_set_from out values lower) ≡ (is_empty out && all_blank lower values)
unfolding string_set_from
is_empty-string_set_from lower out [] = ground arith
is_empty-string_set_from lower out (v ∷ values) = elim (Bool-cases (set_item lower v == "")) [
  | inl e ↦ rw e (is_empty-string_set_from lower out values)
  | inr e ↦
      rw (e, is_empty-string_set_from lower (set_add (set_item lower v) out) values)
        (ground (arith, is_empty-set_add (set_item lower v) out))
]

is_empty-string_set :
    (lower : Bool) (values : List String)
    → is_empty (string_set values lower) ≡ all_blank lower values
unfolding string_set
is_empty-string_set lower values = is_empty-string_set_from lower [] values

-- The filter list `values` lets `k` pass: it names nothing, or it names `k`.
abbrev pub passes : Bool → List String → String → Bool
passes lower values k = all_blank lower values || (not (k == "") && lists lower k values)

pub record IsEligible (cfg : Config) (auth : Auth) : Type 0 where
  pub has_id : trim_space auth.id ≢ ""
  pub has_index : trim_space auth.auth_index ≢ ""
  pub not_disabled : auth.disabled ≡ false
  pub status : to_lower (trim_space auth.status) ≢ "disabled"
  pub available : cfg.skip_unavailable ≡ true → auth.unavailable ≡ false
  pub physical : cfg.physical_files_only ≡ true → auth.runtime_only ≡ false
  pub provider : passes true cfg.providers (to_lower (trim_space auth.provider)) ≡ true
  pub included : passes false cfg.include_auth_indices (trim_space auth.auth_index) ≡ true
  pub not_excluded : lists false (trim_space auth.auth_index) cfg.exclude_auth_indices ≡ false

lists-all_blank :
    (lower : Bool) (k : String) (values : List String)
    → all_blank lower values ≡ true
    → k ≢ ""
    → lists lower k values ≡ false
lists-all_blank lower k [] blank h = refl
lists-all_blank lower k (v ∷ values) blank h = ground (
  arith,
  lists-all_blank lower k values,
  eq_iff (set_item lower v) "",
  eq_iff (set_item lower v) k,
)

module _ (lower : Bool) (values : List String) (k : String) where
  refused-eq-not-passes :
      (not (is_empty (string_set values lower)) && not (contains k (string_set values lower)))
      ≡ not (passes lower values k)
  refused-eq-not-passes =
      rw (is_empty-string_set lower values, contains-string_set lower k values) (ground arith)

  excluded-eq-lists :
      k ≢ ""
      → (not (is_empty (string_set values lower)) && contains k (string_set values lower))
        ≡ lists lower k values
  excluded-eq-lists h =
      rw (is_empty-string_set lower values, contains-string_set lower k values)
        (ground (arith, lists-all_blank lower k values, eq_iff k ""))

module _ (cfg : Config) (auth : Auth) where
  -- The conditions of AuthEligible, in its order, as one test each.
  checks_pass : Bool
  checks_pass =
      not (trim_space auth.id == "")
      && not (trim_space auth.auth_index == "")
      && not (auth.disabled || to_lower (trim_space auth.status) == "disabled")
      && not (cfg.skip_unavailable && auth.unavailable)
      && not (cfg.physical_files_only && auth.runtime_only)
      && passes true cfg.providers (to_lower (trim_space auth.provider))
      && passes false cfg.include_auth_indices (trim_space auth.auth_index)
      && not (lists false (trim_space auth.auth_index) cfg.exclude_auth_indices)

  auth_eligible-eq-checks_pass : (auth_eligible cfg auth).0 ≡ checks_pass
  unfolding auth_eligible checks_pass
  auth_eligible-eq-checks_pass =
      rw
        (
          refused-eq-not-passes true cfg.providers (to_lower (trim_space auth.provider)),
          refused-eq-not-passes false cfg.include_auth_indices (trim_space auth.auth_index),
        )
        (ground (
          arith,
          eq_iff (trim_space auth.auth_index) "",
          excluded-eq-lists false cfg.exclude_auth_indices (trim_space auth.auth_index),
        ))

  checks_pass-IsEligible : checks_pass ≡ true → IsEligible cfg auth
  unfolding checks_pass
  checks_pass-IsEligible h = ground (
    arith,
    eq_iff (trim_space auth.id) "",
    eq_iff (trim_space auth.auth_index) "",
    eq_iff (to_lower (trim_space auth.status)) "disabled",
  )

  IsEligible-checks_pass : IsEligible cfg auth → checks_pass ≡ true
  unfolding checks_pass
  IsEligible-checks_pass h = ground (
    arith,
    eq_iff (trim_space auth.id) "",
    eq_iff (trim_space auth.auth_index) "",
    eq_iff (to_lower (trim_space auth.status)) "disabled",
  )

  -- AuthEligible accepts a credential exactly where every condition of the filter holds: an id, an
  -- index, not disabled by flag or status, available and physical where the configuration asks for
  -- it, let through by the provider and the index lists, and not on the list of exclusions.
  pub auth_eligible_iff : ((auth_eligible cfg auth).0 ≡ true) ↔ IsEligible cfg auth
  auth_eligible_iff =
      rw auth_eligible-eq-checks_pass (checks_pass-IsEligible, IsEligible-checks_pass)

-- The request names no index, or it names this credential's.
abbrev pub is_requested : List String → Auth → Bool
is_requested requested auth = passes false requested (trim_space auth.auth_index)

abbrev pub is_target : Config → List String → Auth → Bool
is_target cfg requested auth = is_requested requested auth && (auth_eligible cfg auth).0

select-keep :
    (cfg : Config) (requested : List String) (auths : List Auth)
    → select cfg (string_set requested false) auths ≡ keep (is_target cfg requested) auths
unfolding select keep
select-keep cfg requested [] = refl
select-keep cfg requested (auth ∷ auths) =
    rw
      (
        refused-eq-not-passes false requested (trim_space auth.auth_index),
        select-keep cfg requested auths,
      )
      (ground arith)

auth_less_irrefl : (a : Auth) → auth_less a a ≡ false
unfolding auth_less
auth_less_irrefl a =
    ground (arith, text_lt_irrefl (to_lower (trim_space a.provider)), text_lt_irrefl a.auth_index)

auth_less_trans :
    (a b c : Auth) → auth_less a b ≡ true → auth_less b c ≡ true → auth_less a c ≡ true
unfolding auth_less
auth_less_trans a b c p q = ground (
  arith,
  eq_iff (provider a) (provider b),
  eq_iff (provider b) (provider c),
  eq_iff (provider a) (provider c),
  text_lt_trans (provider a) (provider b) (provider c),
  text_lt_trans a.auth_index b.auth_index c.auth_index,
  text_lt_irrefl (provider a),
)
  where
    provider : Auth → String
    provider x = to_lower (trim_space x.provider)

-- FilterAuths returns, each as often as the host lists it, the listed credentials that are
-- requested (all, where no index is) and eligible, in the order of their provider and index.
pub filter_auths_lem :
    (cfg : Config) (auths : List Auth) (requested : List String)
    → Perm (filter_auths cfg auths requested) (keep (is_target cfg requested) auths)
      × IsOrdered auth_less (filter_auths cfg auths requested)
unfolding filter_auths
filter_auths_lem cfg auths requested =
    rw select-keep (
      sort_slice-perm auth_less _,
      sort_slice-IsOrdered auth_less auth_less_irrefl auth_less_trans _,
    )
