-- ===== src/Text/Decimal.antt =====
-- Numbers in strings: `${n}` of a non-negative integer, and Number(s) of a decimal string.
use hyperchart.Prelude.{
  Bool-cases, Option, [], ap, arith, false, if◌then◌else◌, inl, inr, leb, ltb, none, refl, some,
  suc, zero, ℕ, ◌%◌, ◌&&◌, ◌*◌, ◌++◌, ◌+◌, ◌-◌, ◌/◌, ◌<◌, ◌∙◌, ◌∷◌, ◌≡◌,
}
use hyperchart.Text.{Str}
use hyperchart.Text.Search.{has_char-append}
use hyperchart.Text.Split.{Lacks}

-- The digits of n, the last one first found; `fuel` above n is enough.
abbrev pub decimal_from : ℕ → ℕ → Str
decimal_from zero n = []
decimal_from (suc fuel) n =
    let front = decimal_from fuel (n / 10) in
    if ltb n 10 then (48 + n) ∷ [] else front ++ (48 + n % 10) ∷ []

unfoldable pub decimal : ℕ → Str
decimal n = decimal_from (suc n) n

-- The value of the digits behind what has been read, or nothing at another character.
abbrev pub value_from : ℕ → Str → Option ℕ
value_from acc [] = some acc
value_from acc (c ∷ s) =
    let rest = value_from (acc * 10 + (c - 48)) s in if leb 48 c && leb c 57 then rest else none

-- Number(s) where it is an integer: a string of digits, or the empty string, which is 0. The other
-- forms that Number reads (spaces, signs, exponents, prefixes) are not modelled: they are `none`.
pub number_of : Str → Option ℕ
number_of s = value_from 0 s

value_from-concat :
    (acc n d : ℕ) (s : Str)
    → d < 10
    → value_from acc s ≡ some n
    → value_from acc (s ++ (48 + d) ∷ []) ≡ some (n * 10 + d)
value_from-concat acc n d [] h e = ground arith
value_from-concat acc n d (c ∷ s) h e = elim (Bool-cases (leb 48 c && leb c 57)) [
  | inl digit ↦
      let later : value_from (acc * 10 + (c - 48)) s ≡ some n = ground arith in
      rw digit (value_from-concat (acc * 10 + (c - 48)) n d s h later)
  | inr other ↦ absurd (ground arith)
]

value-decimal_from : (fuel n : ℕ) → n < fuel → value_from 0 (decimal_from fuel n) ≡ some n
value-decimal_from zero n h = absurd (omega arith)
value-decimal_from (suc fuel) n h = elim (Bool-cases (ltb n 10)) [
  | inl small ↦ rw small (ground arith)
  | inr big ↦
      let ih = value-decimal_from fuel (n / 10) (ground arith) in
      rw big (
        value_from-concat 0 (n / 10) (n % 10) (decimal_from fuel (n / 10)) (omega arith) ih
        ∙ ap some (omega arith))
]

-- Reading back a printed number gives the number.
pub number_of-decimal : (n : ℕ) → number_of (decimal n) ≡ some n
unfolding number_of decimal
number_of-decimal n = value-decimal_from (suc n) n (omega arith)

decimal_from-Lacks : (c fuel n : ℕ) → (leb 48 c && leb c 57) ≡ false → Lacks c (decimal_from fuel n)
decimal_from-Lacks c zero n h = refl
decimal_from-Lacks c (suc fuel) n h = elim (Bool-cases (ltb n 10)) [
  | inl small ↦ rw small (ground arith)
  | inr big ↦ rw big (
      has_char-append c (decimal_from fuel (n / 10)) ((48 + n % 10) ∷ [])
      ∙ (let ih = decimal_from-Lacks c fuel (n / 10) h in ground arith))
]

-- Only digits stand in a printed number.
pub decimal-Lacks : (c n : ℕ) → (leb 48 c && leb c 57) ≡ false → Lacks c (decimal n)
unfolding decimal
decimal-Lacks c n h = decimal_from-Lacks c (suc n) n h
