-- ===== src/Errors.antt =====
-- sanitizeError and safeExecutionError of internal/refreshquota/service.go, on the error's text.
use text.Mathlib.Text.{starts_with}
use Prim.Native.Char.{Char, code}
use cpa_auto_refresh_quota.Base.{
  ℕ, ◌-◌, String, Bool, not, ◌&&◌, ◌||◌, ◌==◌, ltb, leb, ◌=ℕ◌, if◌then◌else◌,
}
use cpa_auto_refresh_quota.Base.Text.{trim_space, to_lower, rune_length, byte_length}

-- unicode.IsControl
unfoldable pub is_control : Char → Bool
is_control c = let n = code c in ltb n 32 || leb 127 n && ltb n 160

-- strings.Map with the function that drops control characters other than tab and newline.
unfoldable pub drop_control : String → String
unfolding is_control
drop_control String.[] = ""
drop_control (String.◌∷◌ c s) =
    let rest = drop_control s in
    if is_control c && not (code c =ℕ 9) && not (code c =ℕ 10) then rest else String.◌∷◌ c rest

-- The characters that stand wholly in the first `n` bytes. Go's `text[:n]` keeps, besides, the
-- first bytes of a character that the cut falls in.
unfoldable pub cut : ℕ → String → String
cut n String.[] = ""
cut n (String.◌∷◌ c s) =
    let rest = cut (n - rune_length c) s in if ltb n (rune_length c) then "" else String.◌∷◌ c rest

unfoldable pub sanitize_error : String → String
unfolding drop_control cut
sanitize_error text =
    let text' = trim_space (drop_control text) in
    if ltb 512 (byte_length text') then cut 512 text' else text'

-- strings.Contains
unfoldable pub contains_text : String → String → Bool
contains_text String.[] part = part == ""
contains_text (String.◌∷◌ c s) part = starts_with (String.◌∷◌ c s) part || contains_text s part

unfoldable pub safe_execution_error : String → String
unfolding sanitize_error contains_text
safe_execution_error e =
    let lower = to_lower (sanitize_error e) in
    if contains_text lower "cpa scheduler did not select the requested auth"
    then "CPA scheduler did not select target auth"
    else if contains_text lower "target_auth_unavailable"
        || contains_text lower "requested auth is not available to the cpa scheduler"
    then "target auth is unavailable to CPA scheduler"
    else if contains_text lower "invalid_routing_token"
        || contains_text lower "invalid cpa auto-refresh routing token header"
    then "CPA routing token was rejected"
    else if contains_text lower "host auth manager is unavailable"
    then "host auth manager is unavailable"
    else if contains_text lower "host model executor is unavailable"
    then "host model executor is unavailable"
    else if contains_text lower "context canceled"
    then "context canceled"
    else if contains_text lower "context deadline exceeded"
    then "context deadline exceeded"
    else "host model execution failed"
