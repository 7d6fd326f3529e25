-- ===== src/Shared/Texts.antt =====
-- Text as a list of UTF-16 code units, with the string functions that the program calls.
use Prim.Native.Nat.{ℕ, ◌+◌, ◌-◌, compare, Ordering}
use Prim.Native.Char.{code}
use Prim.Native.String.{String}
use mathlib.Core.Path.{◌≡◌, refl}
use mathlib.Core.Logic.{◌↔◌}
use mathlib.Core.Bool.{Bool, true, false, ◌&&◌, ◌||◌}
use mathlib.Core.Option.{Option, none, some}
use mathlib.Core.List.{List, [], ◌∷◌, reverse, map}
use native.Mathlib.Omega.{arith}
use arnacon_webrtc_service.Shared.Tests.{leb, ◌==◌, if◌then◌else◌}
use arnacon_webrtc_service.Shared.Lists.{any}

abbrev pub Text : Type 0
Text = List ℕ

abbrev pub text : String → Text
text String.[] = []
text (String.◌∷◌ c s) = code c ∷ text s

-- `===` on two texts.
unfoldable pub text_eq : Text → Text → Bool
text_eq [] [] = true
text_eq [] (d ∷ u) = false
text_eq (c ∷ t) [] = false
text_eq (c ∷ t) (d ∷ u) = (c == d) && text_eq t u

pub text_eq_refl : (t : Text) → text_eq t t ≡ true
unfolding text_eq
text_eq_refl [] = refl
text_eq_refl (c ∷ t) = ground (arith, text_eq_refl t)

pub text_eq→eq : (t u : Text) → text_eq t u ≡ true → t ≡ u
unfolding text_eq
text_eq→eq [] [] h = refl
text_eq→eq [] (d ∷ u) h = ground arith
text_eq→eq (c ∷ t) [] h = ground arith
text_eq→eq (c ∷ t) (d ∷ u) h = ground (arith, text_eq→eq t u)

pub text_eq_iff : (t u : Text) → (text_eq t u ≡ true) ↔ (t ≡ u)
text_eq_iff t u = (text_eq→eq t u, λ e. rw e (text_eq_refl u))

-- The comparison of `sort`: by the first code unit that differs.
unfoldable pub text_le : Text → Text → Bool
text_le [] u = true
text_le (c ∷ t) [] = false
text_le (c ∷ t) (d ∷ u) = elim (compare c d) [
  | Ordering.lt ↦ true
  | Ordering.eq ↦ text_le t u
  | Ordering.gt ↦ false
]

pub text_le_total : (t u : Text) → text_le t u ≡ false → text_le u t ≡ true
unfolding text_le
text_le_total [] u h = ground arith
text_le_total (c ∷ t) [] h = refl
text_le_total (c ∷ t) (d ∷ u) h = ground (arith, text_le_total t u)

pub text_le_antisymm : (t u : Text) → text_le t u ≡ true → text_le u t ≡ true → t ≡ u
unfolding text_le
text_le_antisymm [] [] h k = refl
text_le_antisymm [] (d ∷ u) h k = ground arith
text_le_antisymm (c ∷ t) [] h k = ground arith
text_le_antisymm (c ∷ t) (d ∷ u) h k = ground (arith, text_le_antisymm t u)

-- White space and line ends, what `trim` removes.
abbrev spaces : List ℕ
spaces = 0x20 ∷ 0xa0 ∷ 0x1680 ∷ 0x2028 ∷ 0x2029 ∷ 0x202f ∷ 0x205f ∷ 0x3000 ∷ 0xfeff ∷ []

unfoldable pub is_space : ℕ → Bool
is_space c = (leb 9 c && leb c 13) || ((leb 0x2000 c && leb c 0x200a) || any (λ d. c == d) spaces)

unfoldable pub trim_start : Text → Text
trim_start [] = []
trim_start (c ∷ t) = if is_space c then trim_start t else c ∷ t

unfoldable pub trim : Text → Text
unfolding trim_start is_space
trim t = reverse (trim_start (reverse (trim_start t)))

-- `toLowerCase` on the letters A to Z; identities hold no other letters with a case.
abbrev lower : ℕ → ℕ
lower c = if leb b'A' c && leb c b'Z' then c + 32 else c

unfoldable pub to_lower : Text → Text
to_lower = map lower

-- The part of the text before the first `c`, where `indexOf(c) > 0`: what `slice(0, indexOf(c))`
-- keeps. `none` where the text does not hold `c`, or begins with it.
abbrev until : ℕ → Text → Option Text
until c [] = none
until c (d ∷ t) =
    if d == c then some [] else elim (until c t) [ none ↦ none | some u ↦ some (d ∷ u) ]

unfoldable pub before : ℕ → Text → Option Text
before c t = elim (until c t) [ none ↦ none | some u ↦ elim u [ [] ↦ none | d ∷ v ↦ some (d ∷ v) ] ]

-- `toUpperCase`, likewise.
abbrev upper : ℕ → ℕ
upper c = if leb b'a' c && leb c b'z' then c - 32 else c

unfoldable pub to_upper : Text → Text
to_upper = map upper

-- No two elements are one text.
abbrev pub Distinct : List Text → Type 0
Distinct [] = Unit
Distinct (t ∷ ts) = (any (text_eq t) ts ≡ false) × Distinct ts
