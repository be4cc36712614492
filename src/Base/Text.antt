-- ===== src/Base/Text.antt =====
-- The functions of Go's strings package that the program calls, over texts of Unicode characters.
-- Case mapping moves the letters A to Z; letters outside ASCII are left as they are.
use Prim.Native.Nat.{ℕ, ◌+◌, ◌-◌}
use Prim.Native.Char.{Char, code}
use Prim.Native.String.{String, char_at}
use mathlib.Core.Path.{◌≡◌, refl, ap, ◌∙◌}
use mathlib.Core.Logic.{inl, inr}
use mathlib.Core.List.{List, [], ◌∷◌}
use mathlib.Core.Bool.{Bool, true, false, ◌&&◌, ◌||◌}
use native.Mathlib.Omega.{arith}
use text.Mathlib.Text.{◌==◌}
use text.Mathlib.TextEquality.{Char-path}
use cpa_auto_refresh_quota.Base.Tests.{ltb, leb, ◌=ℕ◌, if◌then◌else◌, Bool-cases}

-- unicode.IsSpace
unfoldable pub is_space : Char → Bool
is_space c =
    let n = code c in
    leb 9 n && leb n 13
    || n =ℕ 32
    || n =ℕ 0x85
    || n =ℕ 0xA0
    || n =ℕ 0x1680
    || leb 0x2000 n && leb n 0x200A
    || n =ℕ 0x2028
    || n =ℕ 0x2029
    || n =ℕ 0x202F
    || n =ℕ 0x205F
    || n =ℕ 0x3000

unfoldable pub trim_left : String → String
trim_left String.[] = ""
trim_left (String.◌∷◌ c s) = let rest = trim_left s in if is_space c then rest else String.◌∷◌ c s

unfoldable pub snoc_trimmed : Char → String → String
snoc_trimmed c String.[] = if is_space c then "" else String.◌∷◌ c ""
snoc_trimmed c (String.◌∷◌ d s) = String.◌∷◌ c (String.◌∷◌ d s)

unfoldable pub trim_right : String → String
unfolding snoc_trimmed
trim_right String.[] = ""
trim_right (String.◌∷◌ c s) = snoc_trimmed c (trim_right s)

-- strings.TrimSpace
unfoldable pub trim_space : String → String
unfolding is_space trim_left trim_right
trim_space s = trim_right (trim_left s)

unfoldable pub lower_char : Char → Char
lower_char c =
    let n = code c in
    if leb 65 n && leb n 90 then char_at "abcdefghijklmnopqrstuvwxyz" (n - 65) else c

-- strings.ToLower
unfoldable pub to_lower : String → String
unfolding lower_char
to_lower String.[] = ""
to_lower (String.◌∷◌ c s) = String.◌∷◌ (lower_char c) (to_lower s)

-- strings.EqualFold
unfoldable pub equal_fold : String → String → Bool
unfolding to_lower
equal_fold s t = to_lower s == to_lower t

-- Go's `<` on strings compares bytes, which for UTF-8 is the order of the characters' numbers.
unfoldable pub text_lt : String → String → Bool
text_lt String.[] String.[] = false
text_lt String.[] (String.◌∷◌ d t) = true
text_lt (String.◌∷◌ c s) String.[] = false
text_lt (String.◌∷◌ c s) (String.◌∷◌ d t) =
    let rest = text_lt s t in
    if ltb (code c) (code d) then true else if ltb (code d) (code c) then false else rest

pub text_lt_trans : (a b c : String) → text_lt a b ≡ true → text_lt b c ≡ true → text_lt a c ≡ true
unfolding text_lt
text_lt_trans String.[] String.[] c p q = cc
text_lt_trans String.[] (String.◌∷◌ y b) String.[] p q = cc
text_lt_trans String.[] (String.◌∷◌ y b) (String.◌∷◌ z c) p q = refl
text_lt_trans (String.◌∷◌ x a) String.[] c p q = cc
text_lt_trans (String.◌∷◌ x a) (String.◌∷◌ y b) String.[] p q = cc
text_lt_trans (String.◌∷◌ x a) (String.◌∷◌ y b) (String.◌∷◌ z c) p q =
    ground (arith, text_lt_trans a b c)

pub text_lt_irrefl : (a : String) → text_lt a a ≡ false
unfolding text_lt
text_lt_irrefl String.[] = refl
text_lt_irrefl (String.◌∷◌ x a) = ground (arith, text_lt_irrefl a)

pub text_lt_total : (a b : String) → text_lt a b ≡ false → text_lt b a ≡ false → a ≡ b
unfolding text_lt
text_lt_total String.[] String.[] p q = refl
text_lt_total String.[] (String.◌∷◌ y b) p q = cc
text_lt_total (String.◌∷◌ x a) String.[] p q = cc
text_lt_total (String.◌∷◌ x a) (String.◌∷◌ y b) p q =
    ground (arith, text_lt_total a b, Char-path x y)

-- strings.Split by one character: what stands before the first one, and the parts behind it.
unfoldable pub split_first : Char → String → String × List String
split_first c String.[] = ("", [])
split_first c (String.◌∷◌ d s) =
    let (part, rest) = split_first c s in
    if code c =ℕ code d then ("", part ∷ rest) else (String.◌∷◌ d part, rest)

unfoldable pub split : String → Char → List String
unfolding split_first
split s c = let (part, rest) = split_first c s in part ∷ rest

-- How many bytes UTF-8 takes for a character, and `len` of a text.
unfoldable pub rune_length : Char → ℕ
rune_length c =
    let n = code c in
    if ltb n 0x80 then 1 else if ltb n 0x800 then 2 else if ltb n 0x10000 then 3 else 4

unfoldable pub byte_length : String → ℕ
unfolding rune_length
byte_length String.[] = 0
byte_length (String.◌∷◌ c s) = rune_length c + byte_length s

trim_right-snoc_trimmed :
    (c : Char) (s : String) → trim_right s ≡ s → trim_right (snoc_trimmed c s) ≡ snoc_trimmed c s
unfolding trim_right snoc_trimmed
trim_right-snoc_trimmed c String.[] h = elim (Bool-cases (is_space c)) [
  | inl e ↦ rw e refl
  | inr e ↦ rw e (rw e refl)
]
trim_right-snoc_trimmed c (String.◌∷◌ d s) h = rw h refl

trim_right_idem : (s : String) → trim_right (trim_right s) ≡ trim_right s
unfolding trim_right
trim_right_idem String.[] = refl
trim_right_idem (String.◌∷◌ c s) = trim_right-snoc_trimmed c (trim_right s) (trim_right_idem s)

trim_left-snoc_trimmed :
    (c : Char) (s : String) → is_space c ≡ false → trim_left (snoc_trimmed c s) ≡ snoc_trimmed c s
unfolding trim_left snoc_trimmed
trim_left-snoc_trimmed c String.[] h = rw h (rw h refl)
trim_left-snoc_trimmed c (String.◌∷◌ d s) h = rw h refl

-- A text that is trimmed stays as it is.
pub trim_space_idem : (s : String) → trim_space (trim_space s) ≡ trim_space s
unfolding trim_space trim_left
trim_space_idem String.[] = refl
trim_space_idem (String.◌∷◌ c s) = elim (Bool-cases (is_space c)) [
  | inl e ↦ rw e (trim_space_idem s)
  | inr e ↦
      rw e (
        ap trim_right (trim_left-snoc_trimmed c (trim_right s) e)
        ∙ trim_right_idem (String.◌∷◌ c s))
]
