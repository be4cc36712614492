-- ===== src/Base/Number.antt =====
-- strconv.Atoi, and numbers of two digits as fmt's `%02d` prints them.
use Prim.Native.Nat.{ℕ, zero, suc, ◌+◌, ◌-◌, ◌*◌, ◌/◌, ◌%◌, ◌^◌}
use Prim.Native.Char.{code}
use Prim.Native.String.{String, char_at}
use mathlib.Core.Bool.{Bool, true, false, ◌&&◌}
use mathlib.Core.Option.{Option, none, some}
use cpa_auto_refresh_quota.Base.Tests.{ltb, leb, ◌=ℕ◌, if◌then◌else◌}
use cpa_auto_refresh_quota.Base.Int.{ℤ, pos, negsuc, neg_of}

unfoldable pub digits_value : ℕ → String → Option ℕ
digits_value n String.[] = some n
digits_value n (String.◌∷◌ c s) =
    let rest = digits_value (n * 10 + (code c - 48)) s in
    if leb 48 (code c) && leb (code c) 57 then rest else none

unfoldable pub digits : String → Option ℕ
unfolding digits_value
digits String.[] = none
digits (String.◌∷◌ c s) = digits_value 0 (String.◌∷◌ c s)

-- The value with the sign, where 64 bits hold it.
unfoldable pub signed : Bool → Option ℕ → Option ℤ
signed negative none = none
signed true (some n) = if leb n (2 ^ 63) then some (neg_of n) else none
signed false (some n) = if ltb n (2 ^ 63) then some (pos n) else none

unfoldable pub atoi : String → Option ℤ
unfolding digits signed
atoi String.[] = none
atoi (String.◌∷◌ c s) =
    if code c =ℕ 43
    then signed false (digits s)
    else if code c =ℕ 45
    then signed true (digits s)
    else signed false (digits (String.◌∷◌ c s))

-- The two digits of a number below 100.
unfoldable pub two_digits : ℕ → String
two_digits n =
    String.◌∷◌ (char_at "0123456789" (n / 10)) (String.◌∷◌ (char_at "0123456789" (n % 10)) "")

-- strconv.Itoa: the digits of a number below 10 ^ `places`.
unfoldable pub digits_text : ℕ → ℕ → String → String
digits_text zero n rest = rest
digits_text (suc places) n rest =
    let rest' = String.◌∷◌ (char_at "0123456789" (n % 10)) rest in
    let more = digits_text places (n / 10) rest' in if ltb n 10 then rest' else more

-- Numbers of 64 bits have at most 19 digits.
unfoldable pub itoa : ℤ → String
unfolding digits_text
itoa (pos n) = digits_text 20 n ""
itoa (negsuc n) = String.◌∷◌ "-" (digits_text 20 (n + 1) "")
