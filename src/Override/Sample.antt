-- ===== src/Override/Sample.antt =====
-- A credential file as a concrete example, with JSON values that are a number or a marker.
use cpa_auto_refresh_quota.Override.{
  priority_override_marker_key, priority_override_owner, Marker, Decoded, number_value, Json,
  other_value,
}
use cpa_auto_refresh_quota.Base.{
  true, Option, none, some, [], ◌∷◌, ◌==◌, ◌=ℕ◌, if◌then◌else◌, length,
}
use cpa_auto_refresh_quota.Base.Dict.{Dict}
use cpa_auto_refresh_quota.Base.Int.{ℤ, pos}

pub data Value : Type 0 where
  number marker : ℤ → Value

abbrev pub file_fields : Dict Value
file_fields = ("type", number (pos 0)) ∷ ("priority", number (pos 3)) ∷ []

abbrev pub file_marker : Marker Value
file_marker = record {
  version = pos 1;
  owner = priority_override_owner;
  run_id = "run-1";
  auth_index = "a";
  override_priority = pos 9;
  original_priority_present = true;
  original_priority = some (number (pos 3));
  original_file_priority = pos 3;
}

abbrev pub written_fields : Dict Value
written_fields =
    ("type", number (pos 0))
    ∷ ("priority", number (pos 9))
    ∷ (priority_override_marker_key, marker (pos 9))
    ∷ []

abbrev pub decode_value_of : Value → Decoded
decode_value_of (number n) = number_value (some n) none
decode_value_of (marker n) = other_value

abbrev pub decode_marker_of : Value → Option (Marker Value)
decode_marker_of (number n) = none
decode_marker_of (marker n) = some file_marker

-- The texts "FILE" and "WRITTEN" stand for the two objects.
abbrev pub json : Json Value
json = record {
  decode_object = λ text.
      if text == "FILE"
      then some (some file_fields)
      else if text == "WRITTEN"
      then some (some written_fields)
      else none;
  encode_object = λ fields. if length fields =ℕ 3 then "WRITTEN" else "FILE";
  decode_marker = decode_marker_of;
  encode_marker = λ m. marker m.override_priority;
  decode_value = decode_value_of;
  number = number;
  null = number (pos 0);
}
