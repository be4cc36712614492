-- ===== src/Override/Tests.antt =====
-- An override on a concrete credential, with JSON values that are a number or a marker.
use cpa_auto_refresh_quota.Override.Sample.{file_fields, file_marker, written_fields, json}
use cpa_auto_refresh_quota.Override.{
  priority_override_marker_key, priority_from_raw_json, decode_auth_file_object, new_marker,
  build_priority_override_json, priority_override_marker_from_json, is_same_transaction,
  put_original_priority, restore_priority_override_json,
}
use cpa_auto_refresh_quota.Base.{String, ◌≡◌, refl, true, false, none, some, arith, ok}
use cpa_auto_refresh_quota.Base.Text.{trim_space, byte_length}
use cpa_auto_refresh_quota.Base.Dict.{Dict, lookup, insert, remove}
use cpa_auto_refresh_quota.Base.Int.{pos}
use cpa_auto_refresh_quota.Override.RoundTrip.{restore-build, marker_from_json-build}

readable : decode_auth_file_object json "FILE" ≡ ok file_fields
unfolding decode_auth_file_object trim_space byte_length
readable = refl

unmarked : lookup priority_override_marker_key file_fields ≡ none
unfolding lookup
unmarked = refl

restore-build_example :
    (build_priority_override_json json "FILE" "a" "run-1" (pos 9) ≡ ok ("WRITTEN", file_marker))
    × (restore_priority_override_json json "WRITTEN" none
        ≡ ok (record {
          content = "FILE";
          expected_priority = pos 3;
          changed = true;
          external_change = false;
        }))
    × ((k : String)
        → lookup k (
            remove priority_override_marker_key
              (put_original_priority json file_marker written_fields))
          ≡ lookup k file_fields)
unfolding new_marker lookup trim_space insert remove put_original_priority priority_from_raw_json
    is_same_transaction byte_length
restore-build_example =
    restore-build json "FILE" "a" "run-1" (pos 9) file_fields written_fields readable unmarked
      (λ e. cc)
      (record { trimmed = refl; some_text = λ e. cc; small = omega arith; decodes = refl })
      (λ k. refl) refl refl none refl

marker_from_json-build_example :
    (priority_override_marker_from_json json "FILE" ≡ ok none)
    × (priority_override_marker_from_json json "WRITTEN" ≡ ok (some file_marker))
unfolding new_marker lookup trim_space insert priority_from_raw_json byte_length
marker_from_json-build_example =
    marker_from_json-build json "FILE" "a" "run-1" (pos 9) file_fields written_fields readable
      unmarked (λ e. cc)
      (record { trimmed = refl; some_text = λ e. cc; small = omega arith; decodes = refl })
      (λ k. refl) refl refl
