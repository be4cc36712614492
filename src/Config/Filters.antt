-- ===== src/Config/Filters.antt =====
-- normalizeStrings and normalizeFilterStrings of internal/refreshquota/config.go, and what the
-- latter gives: the texts, trimmed, without repetition and blanks.
use cpa_auto_refresh_quota.Base.{
  String, ◌≡◌, refl, sym, ◌∙◌, inl, inr, Bool, false, not, ◌&&◌, ◌||◌, List, [], ◌∷◌, ◌++◌, map,
  arith, ◌==◌, eq_iff, if◌then◌else◌, Bool-cases, is_empty, Result, ok, err,
}
use cpa_auto_refresh_quota.Base.Text.{trim_space, to_lower}
use cpa_auto_refresh_quota.Base.Dict.{
  contains, set_add, contains-append, contains-set_add, AllDistinct, AllDistinct-append,
}

unfoldable pub normalized : Bool → String → String
normalized lower value = let value' = trim_space value in if lower then to_lower value' else value'

-- The body of the loop, on `seen` and `out`.
unfoldable add_string : Bool → List String × List String → String → List String × List String
unfolding normalized
add_string lower (seen, out) value =
    let value' = normalized lower value in
    if value' == ""
    then (seen, out)
    else if contains value' seen
    then (seen, out)
    else (set_add value' seen, out ++ value' ∷ [])

unfoldable collect_strings : Bool → List String × List String → List String → List String
unfolding add_string
collect_strings lower st [] = st.1
collect_strings lower st (value ∷ values) = collect_strings lower (add_string lower st value) values

unfoldable pub normalize_strings : List String → Bool → List String
unfolding collect_strings
normalize_strings values lower = collect_strings lower ([], []) values

-- The error is the name of the setting.
unfoldable pub normalize_filter_strings : String → List String → Bool → Result String (List String)
unfolding normalize_strings
normalize_filter_strings name values lower =
    let out = normalize_strings values lower in
    if not (is_empty values) && is_empty out then err name else ok out

-- The two variables of the loop hold the same texts, each once and none blank.
record Loop (st : List String × List String) : Type 0 where
  same : (k : String) → contains k st.0 ≡ contains k st.1
  distinct : AllDistinct st.1
  named : contains "" st.1 ≡ false

add_string-Loop :
    (lower : Bool) (st : List String × List String) (value : String)
    → Loop st
    → Loop (add_string lower st value)
unfolding add_string contains
add_string-Loop lower (seen, out) value v = elim (Bool-cases (normalized lower value == "")) [
  | inl e ↦ rw e v
  | inr e ↦ rw e (elim (Bool-cases (contains (normalized lower value) seen)) [
    | inl f ↦ rw f v
    | inr f ↦ rw f (record {
      same = λ k. ground (
        arith,
        contains-set_add (normalized lower value) k seen,
        contains-append k out (normalized lower value ∷ []),
        v.same k,
      );
      distinct = AllDistinct-append (normalized lower value) out (sym (v.same _) ∙ f) v.distinct;
      named = ground (arith, contains-append "" out (normalized lower value ∷ []), v.named, e);
    })
  ])
]

add_string-contains :
    (lower : Bool) (st : List String × List String) (value k : String)
    → Loop st
    → contains k (add_string lower st value).1
      ≡ (contains k st.1 || not (k == "") && normalized lower value == k)
unfolding add_string contains
add_string-contains lower (seen, out) value k v = ground (
  arith,
  contains-append k out (normalized lower value ∷ []),
  v.same k,
  v.named,
  eq_iff (normalized lower value) k,
  eq_iff (normalized lower value) "",
  eq_iff k "",
)

collect_strings_lem :
    (lower : Bool) (st : List String × List String) (values : List String)
    → Loop st
    → AllDistinct (collect_strings lower st values)
      × ((k : String)
          → contains k (collect_strings lower st values)
            ≡ (contains k st.1 || not (k == "") && contains k (map (normalized lower) values)))
unfolding collect_strings contains
collect_strings_lem lower st [] v = (v.distinct, λ k. ground arith)
collect_strings_lem lower st (value ∷ values) v =
    let (distinct, members) =
      collect_strings_lem lower (add_string lower st value) values
        (add_string-Loop lower st value v) in
    (distinct, λ k. ground (arith, members k, add_string-contains lower st value k v))

-- The texts that are kept are pairwise different, and they are those that are not blank among the
-- values trimmed, and lowered where `lower` says so.
pub normalize_strings_lem :
    (values : List String) (lower : Bool)
    → AllDistinct (normalize_strings values lower)
      × ((k : String)
          → contains k (normalize_strings values lower)
            ≡ (not (k == "") && contains k (map (normalized lower) values)))
unfolding normalize_strings contains
normalize_strings_lem values lower =
    collect_strings_lem lower ([], []) values
      (record { same = λ k. refl; distinct = tt; named = refl })
