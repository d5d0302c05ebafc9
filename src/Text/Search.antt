-- ===== src/Text/Search.antt =====
-- Where a character stands in a string, and what the slices round it are.
use hyperchart.Prelude.{
  Option-cases, [], ap, arith, drop, false, inl, inr, length, none, refl, some, suc, take, true,
  zero, ℕ, ◌++◌, ◌<◌, ◌||◌, ◌∷◌, ◌≡◌, ◌≤◌,
}
use hyperchart.Text.{Str, has_char, index_of, last_index_of, rank_of, starts_with}

pub has_char-append : (c : ℕ) (s t : Str) → has_char c (s ++ t) ≡ (has_char c s || has_char c t)
has_char-append c [] t = refl
has_char-append c (x ∷ s) t = ground (arith, has_char-append c s t)

pub index_of-lacks : (c : ℕ) (s : Str) → has_char c s ≡ false → index_of c s ≡ none
index_of-lacks c [] h = refl
index_of-lacks c (x ∷ s) h = ground (arith, index_of-lacks c s)

pub index_of_first :
    (c : ℕ) (s t : Str) → has_char c s ≡ false → index_of c (s ++ c ∷ t) ≡ some (length s)
index_of_first c [] t h = ground arith
index_of_first c (x ∷ s) t h = ground (arith, index_of_first c s t)

pub last_index_of-lacks : (c : ℕ) (s : Str) → has_char c s ≡ false → last_index_of c s ≡ none
last_index_of-lacks c [] h = refl
last_index_of-lacks c (x ∷ s) h = ground (arith, last_index_of-lacks c s)

pub last_index_of_last :
    (c : ℕ) (s t : Str) → has_char c t ≡ false → last_index_of c (s ++ c ∷ t) ≡ some (length s)
last_index_of_last c [] t h = ground (arith, last_index_of-lacks c t)
last_index_of_last c (x ∷ s) t h = ground (arith, last_index_of_last c s t)

-- With nothing of `c` behind them, the last place is that of the part in front.
pub last_index_of-append :
    (c : ℕ) (s t : Str) → has_char c t ≡ false → last_index_of c (s ++ t) ≡ last_index_of c s
last_index_of-append c [] t h = last_index_of-lacks c t h
last_index_of-append c (x ∷ s) t h = ground (arith, last_index_of-append c s t h)

pub last_index_of_bound : (c : ℕ) (s : Str) (i : ℕ) → last_index_of c s ≡ some i → suc i ≤ length s
last_index_of_bound c [] i h = cc
last_index_of_bound c (x ∷ s) i h = elim (Option-cases (last_index_of c s)) [
  | inl e ↦ ground arith
  | inr (j, e) ↦ ground (arith, last_index_of_bound c s j e)
]

pub last_index_of-none : (c : ℕ) (s : Str) → last_index_of c s ≡ none → has_char c s ≡ false
last_index_of-none c [] h = refl
last_index_of-none c (x ∷ s) h = elim (Option-cases (last_index_of c s)) [
  | inl e ↦ ground (arith, last_index_of-none c s)
  | inr (j, e) ↦ ground arith
]

-- The string is cut at the last place, and the right part holds no further `c`.
pub last_index_of_cut :
    (c : ℕ) (s : Str) (i : ℕ)
    → last_index_of c s ≡ some i
    → (s ≡ take i s ++ c ∷ drop (suc i) s) × (has_char c (drop (suc i) s) ≡ false)
last_index_of_cut c [] i h = cc
last_index_of_cut c (x ∷ s) zero h = elim (Option-cases (last_index_of c s)) [
  | inl e ↦ (ground arith, last_index_of-none c s e)
  | inr (j, e) ↦ absurd (ground arith)
]
last_index_of_cut c (x ∷ s) (suc i) h = elim (Option-cases (last_index_of c s)) [
  | inl e ↦ absurd (ground arith)
  | inr (j, e) ↦
      let e' : last_index_of c s ≡ some i = ground arith in
      let (cut, rest) = last_index_of_cut c s i e' in (ap (λ t. x ∷ t) cut, rest)
]

pub index_of-none : (c : ℕ) (s : Str) → index_of c s ≡ none → has_char c s ≡ false
index_of-none c [] h = refl
index_of-none c (x ∷ s) h = elim (Option-cases (index_of c s)) [
  | inl e ↦ ground (arith, index_of-none c s)
  | inr (j, e) ↦ ground arith
]

-- The part in front of the first place holds no `c`.
pub index_of_cut :
    (c : ℕ) (s : Str) (i : ℕ)
    → index_of c s ≡ some i
    → (s ≡ take i s ++ c ∷ drop (suc i) s) × (has_char c (take i s) ≡ false)
index_of_cut c [] i h = cc
index_of_cut c (x ∷ s) zero h = (ground arith, refl)
index_of_cut c (x ∷ s) (suc i) h = elim (Option-cases (index_of c s)) [
  | inl e ↦ absurd (ground arith)
  | inr (j, e) ↦
      let e' : index_of c s ≡ some i = ground arith in
      let (cut, rest) = index_of_cut c s i e' in (ap (λ t. x ∷ t) cut, ground arith)
]

pub starts_with-append : (p s : Str) → starts_with p (p ++ s) ≡ true
starts_with-append [] s = refl
starts_with-append (x ∷ p) s = ground (arith, starts_with-append p s)

pub starts_with_cut : (p s : Str) → starts_with p s ≡ true → s ≡ p ++ drop (length p) s
starts_with_cut [] s h = refl
starts_with_cut (x ∷ p) [] h = cc
starts_with_cut (x ∷ p) (y ∷ s) h = ground (arith, starts_with_cut p s)

-- A `c` in the right part puts the last place behind the left part.
pub last_index_of_behind :
    (c : ℕ) (s t : Str) → has_char c t ≡ true → length s < rank_of (last_index_of c (s ++ t))
last_index_of_behind c [] t h = elim (Option-cases (last_index_of c t)) [
  | inl e ↦ let k = last_index_of-none c t e in absurd (ground arith)
  | inr (i, e) ↦ rw e (omega arith)
]
last_index_of_behind c (x ∷ s) t h = elim (Option-cases (last_index_of c (s ++ t))) [
  | inl e ↦ let ih = last_index_of_behind c s t h in absurd (ground arith)
  | inr (i, e) ↦ let ih = last_index_of_behind c s t h in ground arith
]
