-- ===== src/Text.antt =====
-- Strings of the program: UTF-16 code units, with the built-in string functions that the sources
-- call (indexOf, lastIndexOf, slice, split, join, startsWith, includes).
pub mod Search
pub mod Split
pub mod Decimal
use Prim.Native.Char.{code}
use mathlib.Core.Option
use hyperchart.Prelude.{
  Bool, List, Option, String, [], arith, false, if◌then◌else◌, map, none, refl, some, suc, true, ℕ,
  ◌&&◌, ◌==◌, ◌||◌, ◌↔◌, ◌∷◌, ◌≡◌,
}

abbrev pub Str : Type 0
Str = List ℕ

-- A literal of the sources.
abbrev pub text : String → Str
text String.[] = []
text (String.◌∷◌ c s) = code c ∷ text s

-- a === b
abbrev pub str_eq : Str → Str → Bool
str_eq [] [] = true
str_eq (x ∷ s) (y ∷ t) = x == y && str_eq s t
str_eq _ _ = false

pub str_eq→eq : (s t : Str) → str_eq s t ≡ true → s ≡ t
str_eq→eq [] [] h = refl
str_eq→eq [] (y ∷ t) h = cc
str_eq→eq (x ∷ s) [] h = cc
str_eq→eq (x ∷ s) (y ∷ t) h = ground (arith, str_eq→eq s t)

pub str_eq_refl : (s : Str) → str_eq s s ≡ true
str_eq_refl [] = refl
str_eq_refl (x ∷ s) = ground (arith, str_eq_refl s)

pub eq→str_eq : (s t : Str) → s ≡ t → str_eq s t ≡ true
eq→str_eq s t e = let h : str_eq s s ≡ true = str_eq_refl s in cc

pub str_eq_iff : (s t : Str) → (str_eq s t ≡ true) ↔ (s ≡ t)
str_eq_iff s t = (str_eq→eq s t, eq→str_eq s t)

pub str_eq_sym : (s t : Str) → str_eq s t ≡ str_eq t s
str_eq_sym [] [] = refl
str_eq_sym [] (y ∷ t) = refl
str_eq_sym (x ∷ s) [] = refl
str_eq_sym (x ∷ s) (y ∷ t) = ground (arith, str_eq_sym s t)

-- s.startsWith(p)
abbrev pub starts_with : Str → Str → Bool
starts_with [] s = true
starts_with (x ∷ p) [] = false
starts_with (x ∷ p) (y ∷ s) = x == y && starts_with p s

-- s.includes(c) at one character
abbrev pub has_char : ℕ → Str → Bool
has_char c [] = false
has_char c (x ∷ s) = x == c || has_char c s

-- s.includes(p)
abbrev pub includes : Str → Str → Bool
includes p [] = starts_with p []
includes p (x ∷ s) = starts_with p (x ∷ s) || includes p s

-- s.indexOf(c), with `none` for -1
abbrev pub index_of : ℕ → Str → Option ℕ
index_of c [] = none
index_of c (x ∷ s) = let later = Option.map suc (index_of c s) in if x == c then some 0 else later

-- s.lastIndexOf(c), with `none` for -1
abbrev pub last_index_of : ℕ → Str → Option ℕ
last_index_of c [] = none
last_index_of c (x ∷ s) = elim (last_index_of c s) [
  | some i ↦ some (suc i)
  | none ↦ if x == c then some 0 else none
]

-- What an index is compared as: -1 is 0, and every index is one more.
abbrev pub rank_of : Option ℕ → ℕ
rank_of none = 0
rank_of (some i) = suc i
