-- ===== src/Base/Strings.antt =====
-- QString, std::string and QByteArray as lists of code units or bytes, with the library calls that
-- the program makes on them.
use Prim.Native.Nat.{ℕ, ◌-◌, ◌+◌}
use Prim.Native.Char.{code}
use Prim.Native.String.{String}
use mathlib.Core.Path.{◌≡◌, refl}
use mathlib.Core.Logic.{◌↔◌}
use mathlib.Core.Bool.{Bool, true, false, ◌&&◌, ◌||◌}
use mathlib.Core.Option.{Option, none, some}
use mathlib.Core.List.{List, [], ◌∷◌, ◌++◌, map, reverse}
use native.Mathlib.Omega.{arith}
use batorrent.Base.Tests.{leb, ◌==◌, if◌then◌else◌}
use batorrent.Base.Lists.{length, take, drop}

abbrev pub Text : Type 0
Text = List ℕ

-- The code points of a literal.
abbrev pub codes : String → Text
codes String.[] = []
codes (String.◌∷◌ c s) = code c ∷ codes s

abbrev pub is_empty {ℓ} : {A : Type ℓ} → List A → Bool
is_empty [] = true
is_empty (x ∷ xs) = false

abbrev pub is_some {ℓ} : {A : Type ℓ} → Option A → Bool
is_some none = false
is_some (some a) = true

unfoldable pub text_eq : Text → Text → Bool
text_eq [] [] = true
text_eq [] (y ∷ ys) = false
text_eq (x ∷ xs) [] = false
text_eq (x ∷ xs) (y ∷ ys) = x == y && text_eq xs ys

unfoldable pub starts_with : Text → Text → Bool
starts_with s [] = true
starts_with [] (y ∷ ys) = false
starts_with (x ∷ xs) (y ∷ ys) = x == y && starts_with xs ys

-- s.endsWith(e): the last units of `s`.
unfoldable pub ends_with : Text → Text → Bool
unfolding text_eq
ends_with s e = leb (length e) (length s) && text_eq (drop (length s - length e) s) e

-- s.chop(n)
abbrev pub chop : ℕ → Text → Text
chop n s = take (length s - n) s

-- ASCII lower case: what QString::toLower does on the letters that the tests look for.
unfoldable pub to_lower : Text → Text
to_lower = map (λ c. if leb 65 c && leb c 90 then c + 32 else c)

-- The blanks that trimmed() takes off: tab, line feed, vertical tab, form feed, return and space.
abbrev pub is_blank : ℕ → Bool
is_blank c = leb 9 c && leb c 13 || c == 32

unfoldable pub trim_start : Text → Text
trim_start [] = []
trim_start (c ∷ s) = let rest = trim_start s in if is_blank c then rest else c ∷ s

unfoldable pub trimmed : Text → Text
unfolding trim_start
trimmed s = reverse (trim_start (reverse (trim_start s)))

-- list.contains(x)
unfoldable pub contains : List Text → Text → Bool
contains [] a = false
contains (x ∷ xs) a = text_eq x a || contains xs a

pub text_eq_refl : (a : Text) → text_eq a a ≡ true
unfolding text_eq
text_eq_refl [] = refl
text_eq_refl (x ∷ xs) = ground (arith, text_eq_refl xs)

pub text_eq_iff : (a b : Text) → (text_eq a b ≡ true) ↔ (a ≡ b)
unfolding text_eq
text_eq_iff [] [] = ground arith
text_eq_iff [] (y ∷ ys) = ground arith
text_eq_iff (x ∷ xs) [] = ground arith
text_eq_iff (x ∷ xs) (y ∷ ys) = ground (arith, text_eq_iff xs ys)

pub starts_with-append : (p s : Text) → starts_with (p ++ s) p ≡ true
unfolding starts_with
starts_with-append [] s = refl
starts_with-append (x ∷ xs) s = ground (arith, starts_with-append xs s)
