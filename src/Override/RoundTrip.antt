-- ===== src/Override/RoundTrip.antt =====
-- An override that is restored leaves the credential as it was.
use cpa_auto_refresh_quota.Override.{
  priority_override_marker_key, max_auth_file_bytes, Marker, Json, priority_from_raw_json,
  decode_auth_file_object, check_marker, new_marker, with_marker, build_priority_override_json,
  decode_present, priority_override_marker_from_json, is_same_transaction, put_original_priority,
  restore_fields, restore_decoded, restore_priority_override_json,
}
use cpa_auto_refresh_quota.Base.{
  ◌≤◌, String, ◌≡◌, refl, sym, ap, ◌∙◌, ◌≢◌, Bool, true, false, Option, none, some, arith, ◌==◌,
  eq_iff, if◌then◌else◌, Option-cases, ok,
}
use cpa_auto_refresh_quota.Base.Text.{trim_space, byte_length, trim_space_idem}
use cpa_auto_refresh_quota.Base.Dict.{Dict, lookup, insert, remove, lookup-insert, lookup-remove}
use cpa_auto_refresh_quota.Base.Int.{ℤ, eqb_ℤ, eqb_ℤ_iff}

-- The text is an object of these fields, without space around it and short enough for a file.
pub record IsFile {V : Type 0} (json : Json V) (text : String) (fields : Dict V) : Type 0 where
  pub trimmed : trim_space text ≡ text
  pub some_text : text ≢ ""
  pub small : byte_length text ≤ max_auth_file_bytes
  pub decodes : json.decode_object text ≡ some (some fields)

decode-IsFile :
    {V : Type 0} (json : Json V) (text : String) (fields : Dict V)
    → IsFile json text fields
    → decode_auth_file_object json text ≡ ok fields
unfolding decode_auth_file_object
decode-IsFile json text fields h =
    rw (h.trimmed, h.decodes) (ground (arith, h.small, h.some_text, eq_iff text ""))

check_marker-new :
    {V : Type 0} (json : Json V) (original : Option V) (auth_index run_id : String) (priority : ℤ)
    → trim_space auth_index ≢ ""
    → check_marker json (some (new_marker json original auth_index run_id priority))
      ≡ ok (new_marker json original auth_index run_id priority)
unfolding check_marker new_marker
check_marker-new json original auth_index run_id priority named =
    rw trim_space_idem
      (ground (arith, eq_iff (trim_space auth_index) "", named, Option-cases original))

put_original_priority-new :
    {V : Type 0} (json : Json V) (original : Option V) (auth_index run_id : String) (priority : ℤ)
    (fields : Dict V) (k : String)
    → lookup k
        (put_original_priority json (new_marker json original auth_index run_id priority) fields)
      ≡ (if "priority" == k then original else lookup k fields)
unfolding put_original_priority new_marker
put_original_priority-new json none auth_index run_id priority fields k =
    lookup-remove "priority" k fields
put_original_priority-new json (some v) auth_index run_id priority fields k =
    lookup-insert "priority" k v fields

with_marker-lookup :
    {V : Type 0} (json : Json V) (m : Marker V) (fields : Dict V) (k : String)
    → lookup k (with_marker json m fields) ≡ (
        if priority_override_marker_key == k
        then some (json.encode_marker m)
        else if "priority" == k
        then some (json.number m.override_priority)
        else lookup k fields)
with_marker-lookup json m fields k = ground (
  arith,
  lookup-insert priority_override_marker_key k (json.encode_marker m)
      (insert "priority" (json.number m.override_priority) fields),
  lookup-insert "priority" k (json.number m.override_priority) fields,
)

eqb_ℤ_refl : (a : ℤ) → eqb_ℤ a a ≡ true
eqb_ℤ_refl a = (eqb_ℤ_iff a a).1 refl

restore_fields-same :
    {V : Type 0} (json : Json V) (raw : String) (fields : Dict V) (m : Marker V) (present : Bool)
    → priority_from_raw_json json (lookup "priority" fields) ≡ m.override_priority
    → restore_fields json raw fields m present ≡ record {
      content =
          json.encode_object
            (remove priority_override_marker_key (put_original_priority json m fields));
      expected_priority = m.original_file_priority;
      changed = true;
      external_change = false;
    }
unfolding restore_fields
restore_fields-same json raw fields m present e = rw e (rw (eqb_ℤ_refl m.override_priority) refl)

module _ {V : Type 0} (json : Json V) (raw auth_index run_id : String) (priority : ℤ)
    (fields written : Dict V) (readable : decode_auth_file_object json raw ≡ ok fields)
    (unmarked : lookup priority_override_marker_key fields ≡ none)
    (named : trim_space auth_index ≢ "") where
  abbrev pub marker_of : Marker V
  marker_of = new_marker json (lookup "priority" fields) auth_index run_id priority

  abbrev pub modified : String
  modified = json.encode_object (with_marker json marker_of fields)

  build_lem :
      build_priority_override_json json raw auth_index run_id priority ≡ ok (modified, marker_of)
  unfolding build_priority_override_json
  build_lem = rw readable (rw unmarked refl)

  module _ (file : IsFile json modified written)
      (same_fields : (k : String) → lookup k written ≡ lookup k (with_marker json marker_of fields))
      (marker_read : json.decode_marker (json.encode_marker marker_of) ≡ some marker_of)
      (number_read : priority_from_raw_json json (some (json.number priority)) ≡ priority) where
    abbrev pub back : Dict V
    back = remove priority_override_marker_key (put_original_priority json marker_of written)

    back-lookup : (k : String) → lookup k back ≡ lookup k fields
    back-lookup k =
        lookup-remove priority_override_marker_key k (put_original_priority json marker_of written)
        ∙ by_key (priority_override_marker_key == k) ("priority" == k) refl refl
      where
        by_key :
            (a b : Bool)
            → (priority_override_marker_key == k) ≡ a
            → ("priority" == k) ≡ b
            → (if a then none else lookup k (put_original_priority json marker_of written))
              ≡ lookup k fields
        by_key true b ea eb =
            sym unmarked ∙ ap (λ j. lookup j fields) ((eq_iff priority_override_marker_key k).0 ea)
        by_key false true ea eb =
            put_original_priority-new json (lookup "priority" fields) auth_index run_id priority
              written k
            ∙ rw eb (ap (λ j. lookup j fields) ((eq_iff "priority" k).0 eb))
        by_key false false ea eb =
            put_original_priority-new json (lookup "priority" fields) auth_index run_id priority
              written k
            ∙ rw eb (same_fields k ∙ with_marker-lookup json marker_of fields k ∙ rw (ea, eb) refl)

    marker_written :
        lookup priority_override_marker_key written ≡ some (json.encode_marker marker_of)
    marker_written =
        same_fields priority_override_marker_key
        ∙ with_marker-lookup json marker_of fields priority_override_marker_key

    priority_written : lookup "priority" written ≡ some (json.number priority)
    unfolding new_marker
    priority_written = same_fields "priority" ∙ with_marker-lookup json marker_of fields "priority"

    current_priority : priority_from_raw_json json (lookup "priority" written) ≡ priority
    current_priority = rw priority_written number_read

    restore_lem :
        (fallback : Option (Marker V))
        → is_same_transaction json marker_of fallback ≡ true
        → restore_priority_override_json json modified fallback
          ≡ ok (record {
            content = json.encode_object back;
            expected_priority = priority_from_raw_json json (lookup "priority" fields);
            changed = true;
            external_change = false;
          })
    unfolding restore_priority_override_json new_marker
    restore_lem fallback same = rw (decode-IsFile json modified written file) (
        ap (restore_decoded json modified fallback written) marker_written
        ∙ rw marker_read (
            rw
              (
                check_marker-new json (lookup "priority" fields) auth_index run_id priority named,
                same,
              )
              (ap ok (restore_fields-same json modified written marker_of true current_priority))))

    -- A credential that is read, has no marker and has an index that is not blank takes the
    -- override. Where what is then written is short enough for a file, reads back with the same
    -- fields, and its marker and number read back as they were, restoring it, with the same
    -- transaction or none to compare, gives back every field as it was, expects the priority that
    -- the file had, and sees no change from outside.
    pub restore-build :
        (fallback : Option (Marker V))
        → is_same_transaction json marker_of fallback ≡ true
        → (build_priority_override_json json raw auth_index run_id priority
            ≡ ok (modified, marker_of))
          × (restore_priority_override_json json modified fallback
              ≡ ok (record {
                content = json.encode_object back;
                expected_priority = priority_from_raw_json json (lookup "priority" fields);
                changed = true;
                external_change = false;
              }))
          × ((k : String) → lookup k back ≡ lookup k fields)
    restore-build fallback same = (build_lem, restore_lem fallback same, back-lookup)

    -- Under the same conditions, no marker is found in the file before the override, and in the
    -- file that it writes the override's own marker is.
    pub marker_from_json-build :
        (priority_override_marker_from_json json raw ≡ ok none)
        × (priority_override_marker_from_json json modified ≡ ok (some marker_of))
    unfolding priority_override_marker_from_json
    marker_from_json-build = (
      rw readable (ap (decode_present json) unmarked),
      rw (decode-IsFile json modified written file) (
          ap (decode_present json) marker_written
          ∙ rw marker_read (
              rw (check_marker-new json (lookup "priority" fields) auth_index run_id priority named)
                refl)),
    )
