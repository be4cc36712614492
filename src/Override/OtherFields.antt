-- ===== src/Override/OtherFields.antt =====
-- What restoring a credential may change of it.
use cpa_auto_refresh_quota.Override.{
  priority_override_marker_key, Marker, Json, Restored, priority_from_raw_json,
  decode_priority_override_marker, is_same_transaction,
}
use cpa_auto_refresh_quota.Base.{
  String, ◌≡◌, option_or, if◌then◌else◌, ◌≢◌, ◌⊎◌, Bool, true, false, Option, none, some, ok,
}
use cpa_auto_refresh_quota.Base.Dict.{Dict, lookup}
use cpa_auto_refresh_quota.Base.Int.{eqb_ℤ}

-- The priority that the marker tells of, as a field.
abbrev pub original_of : {V : Type 0} → Json V → Marker V → Option V
original_of json m =
    if m.original_priority_present then some (option_or m.original_priority json.null) else none

-- The marker for which the fields are restored: the file's own, where it has one, or the transaction's.
abbrev pub IsMarkerOf : {V : Type 0} → Json V → Option (Marker V) → Dict V → Marker V → Type 0
IsMarkerOf {V = V} json fallback fields m =
    ((v : V) × (lookup priority_override_marker_key fields ≡ some v)
      × (decode_priority_override_marker json v ≡ ok m)
      × (is_same_transaction json m fallback ≡ true))
    ⊎ ((lookup priority_override_marker_key fields ≡ none) × (fallback ≡ some m))

-- The fields are written without the marker, and differ from the file's at most in the priority:
-- where that is the marker's it becomes the original one, and where it is another it stays.
pub record Rewrites {V : Type 0} (json : Json V) (fields : Dict V) (m : Marker V) (r : Restored)
    : Type 0 where
  pub after : Dict V
  pub written : r.content ≡ json.encode_object after
  pub no_marker : lookup priority_override_marker_key after ≡ none
  pub others :
      (k : String)
      → priority_override_marker_key ≢ k
      → "priority" ≢ k
      → lookup k after ≡ lookup k fields
  pub undone :
      priority_from_raw_json json (lookup "priority" fields) ≡ m.override_priority
      → (lookup "priority" after ≡ original_of json m) × (r.external_change ≡ false)
  pub kept :
      priority_from_raw_json json (lookup "priority" fields) ≢ m.override_priority
      → (lookup "priority" after ≡ lookup "priority" fields) × (r.external_change ≡ true)

-- The file is left as it was: it has no marker, and there is no transaction, or the priority is not
-- the one that the transaction wrote.
pub record Stays {V : Type 0} (json : Json V) (raw : String) (fallback : Option (Marker V))
    (fields : Dict V) (r : Restored) : Type 0 where
  pub same : r.content ≡ raw
  pub unsaved : r.changed ≡ false
  pub unmarked : lookup priority_override_marker_key fields ≡ none
  pub replaced :
      (m : Marker V)
      → fallback ≡ some m
      → priority_from_raw_json json (lookup "priority" fields) ≢ m.override_priority

abbrev pub LeavesOthers :
    {V : Type 0} → Json V → String → Option (Marker V) → Dict V → Restored → Type 0
LeavesOthers {V = V} json raw fallback fields r =
    Stays json raw fallback fields r
    ⊎ ((m : Marker V) × IsMarkerOf json fallback fields m × Rewrites json fields m r)

module _ {V : Type 0} (json : Json V) (raw : String) (fields : Dict V) (m : Marker V) where
  is_overridden : Bool
  is_overridden = eqb_ℤ (priority_from_raw_json json (lookup "priority" fields)) m.override_priority
