-- ===== src/Service/Manual.antt =====
-- normalizeManualRunOptions of cmd/cpa-auto-refresh-quota/main.go: what a manual run may ask for.
use cpa_auto_refresh_quota.Service.{ManualRunOptions}
use mathlib.Core.Path.{subst}
use cpa_auto_refresh_quota.Base.{
  ◌≤◌, String, ◌≡◌, refl, sym, ap, ◌∙◌, ◌≢◌, inl, inr, ◌||◌, List, [], ◌∷◌, ◌++◌, map, arith, ◌==◌,
  eq_iff, ltb, if◌then◌else◌, Bool-cases, length, All, Result, ◌>>=◌, ◌>>◌, refuse_if, >>=-eq-ok,
  ok_inj, refuse_if-eq-ok, ok,
}
use cpa_auto_refresh_quota.Base.Text.{trim_space}
use cpa_auto_refresh_quota.Base.Dict.{
  contains, set_add, contains-append, contains-set_add, AllDistinct, AllDistinct-append,
}

pub data OptionsError : Type 0 where
  too_many_indices blank_index : OptionsError

-- The body of the loop, on `seen` and `normalized`.
unfoldable add_index : List String × List String → String → List String × List String
add_index (seen, normalized) auth_index =
    if contains auth_index seen
    then (seen, normalized)
    else (set_add auth_index seen, normalized ++ auth_index ∷ [])

unfoldable collect_indices :
    List String × List String → List String → Result OptionsError (List String)
unfolding add_index
collect_indices st [] = ok st.1
collect_indices st (auth_index ∷ auth_indices) =
    refuse_if (trim_space auth_index == "") blank_index
    >> collect_indices (add_index st (trim_space auth_index)) auth_indices

-- The nil pointer, which no caller passes, is left out.
unfoldable pub normalize_manual_run_options :
    ManualRunOptions → Result OptionsError ManualRunOptions
unfolding collect_indices
normalize_manual_run_options options =
    refuse_if (ltb 256 (length options.auth_indices)) too_many_indices
    >> (collect_indices ([], []) options.auth_indices >>= λ normalized.
        ok (record options { auth_indices = normalized }))

-- The two variables of the loop hold the same texts, each once.
record Loop (st : List String × List String) : Type 0 where
  same : (k : String) → contains k st.0 ≡ contains k st.1
  distinct : AllDistinct st.1

add_index-Loop :
    (st : List String × List String) (index : String) → Loop st → Loop (add_index st index)
unfolding add_index contains
add_index-Loop (seen, normalized) index v = elim (Bool-cases (contains index seen)) [
  | inl e ↦ rw e v
  | inr e ↦ rw e (record {
    same = λ k.
        ground (
          arith,
          contains-set_add index k seen,
          contains-append k normalized (index ∷ []),
          v.same k,
        );
    distinct = AllDistinct-append index normalized (sym (v.same index) ∙ e) v.distinct;
  })
]

add_index-contains :
    (st : List String × List String) (index k : String)
    → Loop st
    → contains k (add_index st index).1 ≡ (contains k st.1 || index == k)
unfolding add_index contains
add_index-contains (seen, normalized) index k v =
    ground
      (arith, contains-append k normalized (index ∷ []), v.same index, v.same k, eq_iff index k)

collect_indices_lem :
    (st : List String × List String) (indices out : List String)
    → collect_indices st indices ≡ ok out
    → Loop st
    → AllDistinct out
      × All (λ index. trim_space index ≢ "") indices
      × ((k : String) → contains k out ≡ (contains k st.1 || contains k (map trim_space indices)))
unfolding collect_indices contains
collect_indices_lem st [] out h v =
    let e : st.1 ≡ out = ok_inj h in
    (subst AllDistinct e v.distinct, tt, λ k. ground (arith, ap (contains k) e))
collect_indices_lem st (index ∷ indices) out h v =
    let (_, named, rest) = >>=-eq-ok (refuse_if (trim_space index == "") blank_index) _ h in
    let (distinct, all, members) =
      collect_indices_lem (add_index st (trim_space index)) indices out rest
        (add_index-Loop st (trim_space index) v) in
    (
      distinct,
      (ground (arith, refuse_if-eq-ok _ _ _ named, eq_iff (trim_space index) ""), all),
      λ k. ground (arith, members k, add_index-contains st (trim_space index) k v),
    )

-- Options that are accepted name at most 256 indices, none of them blank; what is kept are these
-- indices, trimmed, each once, and whether it is a dry run stays.
pub normalize_manual_run_options_lem :
    (options after : ManualRunOptions)
    → normalize_manual_run_options options ≡ ok after
    → (length options.auth_indices ≤ 256)
      × (after.dry_run ≡ options.dry_run)
      × AllDistinct after.auth_indices
      × All (λ index. trim_space index ≢ "") options.auth_indices
      × ((k : String)
          → contains k after.auth_indices ≡ contains k (map trim_space options.auth_indices))
unfolding normalize_manual_run_options contains
normalize_manual_run_options_lem options after h =
    let (_, bound, h1) =
      >>=-eq-ok (refuse_if (ltb 256 (length options.auth_indices)) too_many_indices) _ h in
    let (out, collected, h2) = >>=-eq-ok (collect_indices ([], []) options.auth_indices) _ h1 in
    let start : Loop ([], []) = record { same = λ k. refl; distinct = tt } in
    let (distinct, all, members) =
      collect_indices_lem ([], []) options.auth_indices out collected start in
    let e = ok_inj h2 in
    let few = refuse_if-eq-ok _ _ _ bound in
    (
      ground (arith, few),
      ap (λ o. o.dry_run) (sym e),
      subst (λ o. AllDistinct o.auth_indices) e distinct,
      all,
      λ k. ap (λ o. contains k o.auth_indices) (sym e) ∙ members k,
    )
