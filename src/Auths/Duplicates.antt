-- ===== src/Auths/Duplicates.antt =====
-- hasDuplicateAuthIdentity finds a repeated id or index, and nothing else.
use cpa_auto_refresh_quota.Base.Dict.{contains, set_add, contains-set_add, AllDistinct}
use cpa_auto_refresh_quota.Base.{String, ◌≡◌, refl, ◌↔◌, false, List, [], ◌∷◌, map, arith, eq_iff}
use cpa_auto_refresh_quota.Base.Text.{trim_space}
use cpa_auto_refresh_quota.Auths.{Auth, duplicate_from, has_duplicate_auth_identity}

-- The texts are pairwise different, and different from those of `seen`.
abbrev pub Fresh : List String → List String → Type 0
Fresh seen [] = Unit {0}
Fresh seen (k ∷ ks) = (contains k seen ≡ false) × Fresh (set_add k seen) ks

abbrev pub ids : List Auth → List String
ids = map (λ auth. trim_space auth.id)

abbrev pub indices : List Auth → List String
indices = map (λ auth. trim_space auth.auth_index)

abbrev NotIn : List String → List String → Type 0
NotIn seen [] = Unit {0}
NotIn seen (k ∷ ks) = (contains k seen ≡ false) × NotIn seen ks

NotIn-set_add :
    (k : String) (seen ks : List String)
    → NotIn (set_add k seen) ks ↔ (NotIn seen ks × (contains k ks ≡ false))
unfolding contains
NotIn-set_add k seen [] = (λ h. (tt, refl), λ h. tt)
NotIn-set_add k seen (j ∷ ks) = (
  λ h.
      ground
        (arith, contains-set_add k j seen, (NotIn-set_add k seen ks).0 h.1, eq_iff k j, eq_iff j k),
  λ h. ground (
    arith,
    contains-set_add k j seen,
    λ (p : contains k ks ≡ false). (NotIn-set_add k seen ks).1 (h.0.1, p),
    eq_iff k j,
    eq_iff j k,
  ),
)

Fresh-iff : (seen ks : List String) → Fresh seen ks ↔ (AllDistinct ks × NotIn seen ks)
Fresh-iff seen [] = (λ h. (tt, tt), λ h. tt)
Fresh-iff seen (k ∷ ks) = (
  λ h.
      let r = (Fresh-iff (set_add k seen) ks).0 h.1 in
      let s = (NotIn-set_add k seen ks).0 r.1 in ((s.1, r.0), (h.0, s.0)),
  λ h. (
    h.1.0,
    (Fresh-iff (set_add k seen) ks).1 (h.0.1, (NotIn-set_add k seen ks).1 (h.1.1, h.0.0)),
  ),
)

NotIn-nil : (ks : List String) → NotIn [] ks
unfolding contains
NotIn-nil [] = tt
NotIn-nil (k ∷ ks) = (refl, NotIn-nil ks)

Fresh-duplicate_from :
    (seen_ids seen_indices : List String) (auths : List Auth)
    → Fresh seen_ids (ids auths)
    → Fresh seen_indices (indices auths)
    → duplicate_from seen_ids seen_indices auths ≡ false
unfolding duplicate_from
Fresh-duplicate_from seen_ids seen_indices [] p q = refl
Fresh-duplicate_from seen_ids seen_indices (auth ∷ auths) p q = ground (
  arith,
  Fresh-duplicate_from (set_add (trim_space auth.id) seen_ids)
      (set_add (trim_space auth.auth_index) seen_indices) auths p.1 q.1,
)

duplicate_from-Fresh :
    (seen_ids seen_indices : List String) (auths : List Auth)
    → duplicate_from seen_ids seen_indices auths ≡ false
    → Fresh seen_ids (ids auths) × Fresh seen_indices (indices auths)
unfolding duplicate_from
duplicate_from-Fresh seen_ids seen_indices [] h = (tt, tt)
duplicate_from-Fresh seen_ids seen_indices (auth ∷ auths) h = ground (
  arith,
  duplicate_from-Fresh (set_add (trim_space auth.id) seen_ids)
      (set_add (trim_space auth.auth_index) seen_indices) auths,
)

-- The check passes exactly where the trimmed ids are pairwise different and so are the indices.
pub has_duplicate_auth_identity_iff :
    (auths : List Auth)
    → (has_duplicate_auth_identity auths ≡ false)
      ↔ (AllDistinct (ids auths) × AllDistinct (indices auths))
unfolding has_duplicate_auth_identity
has_duplicate_auth_identity_iff auths = (
  λ h.
      let r = duplicate_from-Fresh [] [] auths h in
      (((Fresh-iff [] _).0 r.0).0, ((Fresh-iff [] _).0 r.1).0),
  λ h.
      Fresh-duplicate_from [] [] auths ((Fresh-iff [] _).1 (h.0, NotIn-nil _))
        ((Fresh-iff [] _).1 (h.1, NotIn-nil _)),
)
