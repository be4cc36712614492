-- ===== src/Override.antt =====
-- The temporary priority of a credential's file: internal/refreshquota/priority.go. A json.RawMessage
-- is the value that it stands for, of a type `V` that encoding/json reads and writes: a parameter, as
-- are Unmarshal and Marshal of whole objects and of the marker.
mod Tests
pub mod Sample
pub mod RoundTrip
pub mod OtherFields
use cpa_auto_refresh_quota.Base.{
  ℕ, ◌*◌, String, Bool, true, false, not, ◌&&◌, ◌||◌, Option, none, some, ◌==◌, ltb, if◌then◌else◌,
  is_some, option_or, Result, ◌>>=◌, ◌>>◌, refuse_if, ok, err,
}
use cpa_auto_refresh_quota.Base.Text.{trim_space, byte_length}
use cpa_auto_refresh_quota.Base.Dict.{Dict, lookup, insert, remove}
use cpa_auto_refresh_quota.Base.Int.{ℤ, eqb_ℤ, pos}
use cpa_auto_refresh_quota.Base.Number.{atoi}

abbrev pub priority_override_marker_key : String
priority_override_marker_key = "_cpa_auto_refresh_quota_priority_override"

abbrev pub priority_override_owner : String
priority_override_owner = "cpa-auto-refresh-quota"

abbrev pub max_auth_file_bytes : ℕ
max_auth_file_bytes = 4 * 1024 * 1024

-- priorityOverrideMarker; `none` is an `original_priority` that is left out.
pub record Marker (V : Type 0) : Type 0 where
  pub version : ℤ
  pub owner : String
  pub run_id : String
  pub auth_index : String
  pub override_priority : ℤ
  pub original_priority_present : Bool
  pub original_priority : Option V
  pub original_file_priority : ℤ

-- What a decoder with UseNumber makes of a value: a number with what Int64 and, as an int, Float64
-- give for it, a text, or another value.
pub data Decoded : Type 0 where
  null_value other_value : Decoded
  number_value : Option ℤ → Option ℤ → Decoded
  text_value : String → Decoded

-- The calls of encoding/json, and `null`, which Marshal writes for a nil message; `some none` is the object that `null` decodes to.
pub record Json (V : Type 0) : Type 0 where
  pub decode_object : String → Option (Option (Dict V))
  pub encode_object : Dict V → String
  pub decode_marker : V → Option (Marker V)
  pub encode_marker : Marker V → V
  pub decode_value : V → Decoded
  pub number : ℤ → V
  pub null : V

pub data OverrideError : Type 0 where
  empty_file file_too_large undecodable_file not_an_object : OverrideError
  already_marked undecodable_marker unsupported_marker no_original_priority : OverrideError
  another_transaction : OverrideError

unfoldable pub decoded_priority : Decoded → ℤ
decoded_priority (number_value (some integer) floating) = integer
decoded_priority (number_value none (some floating)) = floating
decoded_priority (text_value t) = option_or (atoi (trim_space t)) (pos 0)
decoded_priority v = pos 0

-- What restorePriorityOverrideJSON answers with its error.
pub record Restored : Type 0 where
  pub content : String
  pub expected_priority : ℤ
  pub changed : Bool
  pub external_change : Bool

module _ {V : Type 0} (json : Json V) where
  -- `none` is the empty message of a key that is missing.
  unfoldable pub priority_from_raw_json : Option V → ℤ
  unfolding decoded_priority
  priority_from_raw_json none = pos 0
  priority_from_raw_json (some v) = decoded_priority (json.decode_value v)

  abbrev pub object_of : Option (Option (Dict V)) → Result OverrideError (Dict V)
  object_of none = err undecodable_file
  object_of (some none) = err not_an_object
  object_of (some (some fields)) = ok fields

  unfoldable pub decode_auth_file_object : String → Result OverrideError (Dict V)
  decode_auth_file_object raw =
      let trimmed = trim_space raw in
      if trimmed == ""
      then err empty_file
      else if ltb max_auth_file_bytes (byte_length trimmed)
      then err file_too_large
      else object_of (json.decode_object trimmed)

  unfoldable pub check_marker : Option (Marker V) → Result OverrideError (Marker V)
  check_marker none = err undecodable_marker
  check_marker (some m) =
      if not (eqb_ℤ m.version (pos 1))
        || not (m.owner == priority_override_owner)
        || trim_space m.auth_index == ""
      then err unsupported_marker
      else if m.original_priority_present && not (is_some m.original_priority)
      then err no_original_priority
      else ok m

  unfoldable pub decode_priority_override_marker : V → Result OverrideError (Marker V)
  unfolding check_marker
  decode_priority_override_marker raw = check_marker (json.decode_marker raw)

  unfoldable pub new_marker : Option V → String → String → ℤ → Marker V
  unfolding priority_from_raw_json
  new_marker original auth_index run_id override_priority = record {
    version = pos 1;
    owner = priority_override_owner;
    run_id = trim_space run_id;
    auth_index = trim_space auth_index;
    override_priority = override_priority;
    original_priority_present = is_some original;
    original_priority = original;
    original_file_priority = priority_from_raw_json original;
  }

  abbrev pub with_marker : Marker V → Dict V → Dict V
  with_marker marker fields =
      insert priority_override_marker_key (json.encode_marker marker)
        (insert "priority" (json.number marker.override_priority) fields)

  unfoldable pub build_priority_override_json :
      String → String → String → ℤ → Result OverrideError (String × Marker V)
  unfolding decode_auth_file_object new_marker
  build_priority_override_json raw auth_index run_id override_priority =
      decode_auth_file_object raw >>= λ fields.
      refuse_if (is_some (lookup priority_override_marker_key fields)) already_marked
      >> (let marker = new_marker (lookup "priority" fields) auth_index run_id override_priority in
          ok (json.encode_object (with_marker marker fields), marker))

  -- The marker with its presence, by its raw value.
  unfoldable pub decode_present : Option V → Result OverrideError (Option (Marker V))
  unfolding decode_priority_override_marker
  decode_present none = ok none
  decode_present (some raw_marker) =
      decode_priority_override_marker raw_marker >>= λ marker. ok (some marker)

  unfoldable pub priority_override_marker_from_json :
      String → Result OverrideError (Option (Marker V))
  unfolding decode_auth_file_object decode_present
  priority_override_marker_from_json raw = decode_auth_file_object raw >>= λ fields.
      decode_present (lookup priority_override_marker_key fields)

  unfoldable pub is_same_transaction : Marker V → Option (Marker V) → Bool
  is_same_transaction marker none = true
  is_same_transaction marker (some fallback) =
      marker.auth_index == fallback.auth_index
      && marker.run_id == fallback.run_id
      && eqb_ℤ marker.override_priority fallback.override_priority

  -- The fields with the original priority, or without one.
  unfoldable pub put_original_priority : Marker V → Dict V → Dict V
  put_original_priority marker fields =
      if marker.original_priority_present
      then insert "priority" (option_or marker.original_priority json.null) fields
      else remove "priority" fields

  -- From `currentPriority :=` on.
  unfoldable pub restore_fields : String → Dict V → Marker V → Bool → Restored
  unfolding priority_from_raw_json put_original_priority
  restore_fields raw fields marker marker_present =
      let current = priority_from_raw_json (lookup "priority" fields) in
      if not (eqb_ℤ current marker.override_priority)
      then (if marker_present
          then record {
            content = json.encode_object (remove priority_override_marker_key fields);
            expected_priority = current;
            changed = true;
            external_change = true;
          }
          else record {
            content = raw;
            expected_priority = current;
            changed = false;
            external_change = true;
          })
      else record {
        content =
            json.encode_object
              (remove priority_override_marker_key (put_original_priority marker fields));
        expected_priority = marker.original_file_priority;
        changed = true;
        external_change = false;
      }

  abbrev pub restore_unmarked : String → Dict V → Option (Marker V) → Restored
  restore_unmarked raw fields none = record {
    content = raw;
    expected_priority = pos 0;
    changed = false;
    external_change = false;
  }
  restore_unmarked raw fields (some fallback) = restore_fields raw fields fallback false

  -- What follows the decoding, by the raw marker.
  unfoldable pub restore_decoded :
      String → Option (Marker V) → Dict V → Option V → Result OverrideError Restored
  unfolding decode_priority_override_marker restore_fields
  restore_decoded raw fallback fields none = ok (restore_unmarked raw fields fallback)
  restore_decoded raw fallback fields (some raw_marker) =
      decode_priority_override_marker raw_marker >>= λ marker.
      refuse_if (not (is_same_transaction marker fallback)) another_transaction
      >> ok (restore_fields raw fields marker true)

  unfoldable pub restore_priority_override_json :
      String → Option (Marker V) → Result OverrideError Restored
  unfolding decode_auth_file_object restore_decoded
  restore_priority_override_json raw fallback = decode_auth_file_object raw >>= λ fields.
      restore_decoded raw fallback fields (lookup priority_override_marker_key fields)
