-- ===== src/Text/Split.antt =====
-- s.split(d) at one character, and parts.join(d).
use hyperchart.Prelude.{
  ==_refl, All, Bool-cases, List, [], ap, append_assoc, arith, false, if◌then◌else◌, inl, inr,
  or_false, refl, sym, ℕ, ◌++◌, ◌==◌, ◌∙◌, ◌∷◌, ◌≡◌,
}
use hyperchart.Text.{Str, has_char}

-- The first part grows by one character.
abbrev pub onto_first : ℕ → List Str → List Str
onto_first x [] = (x ∷ []) ∷ []
onto_first x (p ∷ ps) = (x ∷ p) ∷ ps

abbrev pub split : ℕ → Str → List Str
split d [] = [] ∷ []
split d (x ∷ s) = let parts = split d s in if x == d then [] ∷ parts else onto_first x parts

abbrev pub join : ℕ → List Str → Str
join d [] = []
join d (p ∷ []) = p
join d (p ∷ q ∷ ps) = p ++ d ∷ join d (q ∷ ps)

-- `d` stands nowhere in the string.
abbrev pub Lacks : ℕ → Str → Type 0
Lacks d s = has_char d s ≡ false

pub split_nonempty : (d : ℕ) (s : Str) → (p : Str) × (ps : List Str) × (split d s ≡ p ∷ ps)
split_nonempty d [] = ([], [], refl)
split_nonempty d (x ∷ s) = elim (Bool-cases (x == d)) [
  | inl h ↦ ([], split d s, ground arith)
  | inr h ↦ let (p, ps, e) = split_nonempty d s in (x ∷ p, ps, ground arith)
]

pub join-split : (d : ℕ) (s : Str) → join d (split d s) ≡ s
join-split d [] = refl
join-split d (x ∷ s) =
    let (p, ps, e) = split_nonempty d s in
    let ih : join d (p ∷ ps) ≡ s = rw e at (join-split d s) in
    elim (Bool-cases (x == d)) [
      | inl h ↦ rw (h, e) (let same : x ≡ d = ground arith in cc)
      | inr h ↦ rw (h, e) (join-first x p ps ∙ ap (λ t. x ∷ t) ih)
    ]
  where
    join-first : (x : ℕ) (p : Str) (ps : List Str) → join d ((x ∷ p) ∷ ps) ≡ x ∷ join d (p ∷ ps)
    join-first x p [] = refl
    join-first x p (q ∷ ps) = refl

-- Every part lacks the separator.
pub split-Lacks : (d : ℕ) (s : Str) → All (Lacks d) (split d s)
split-Lacks d [] = (refl, tt)
split-Lacks d (x ∷ s) =
    let (p, ps, e) = split_nonempty d s in
    let ih : All (Lacks d) (p ∷ ps) = rw e at (split-Lacks d s) in
    elim (Bool-cases (x == d)) [
      | inl h ↦ rw h (refl, split-Lacks d s)
      | inr h ↦ rw (h, e) (ground arith)
    ]

pub split_of_Lacks : (d : ℕ) (s : Str) → Lacks d s → split d s ≡ s ∷ []
split_of_Lacks d [] h = refl
split_of_Lacks d (x ∷ s) h =
    let (here, later) = or_false (x == d) (has_char d s) h in rw (here, split_of_Lacks d s later)

pub split-append : (d : ℕ) (p s : Str) → Lacks d p → split d (p ++ d ∷ s) ≡ p ∷ split d s
split-append d [] s h = rw (==_refl d)
split-append d (x ∷ p) s h =
    let (here, later) = or_false (x == d) (has_char d p) h in rw (here, split-append d p s later)

pub split-join :
    (d : ℕ) (p : Str) (ps : List Str) → All (Lacks d) (p ∷ ps) → split d (join d (p ∷ ps)) ≡ p ∷ ps
split-join d p [] h = split_of_Lacks d p h.0
split-join d p (q ∷ ps) h =
    split-append d p (join d (q ∷ ps)) h.0 ∙ ap (λ t. p ∷ t) (split-join d q ps h.1)

-- One more part behind a string is one more part of its split.
pub split_concat : (d : ℕ) (s p : Str) → Lacks d p → split d (s ++ d ∷ p) ≡ split d s ++ p ∷ []
split_concat d [] p h = rw (==_refl d, split_of_Lacks d p h)
split_concat d (x ∷ s) p h =
    let (q, qs, e) = split_nonempty d s in
    elim (Bool-cases (x == d)) [
      | inl t ↦ rw (t, split_concat d s p h)
      | inr t ↦ rw (t, split_concat d s p h, e)
    ]

-- The join of parts with one more at the end.
pub join_concat :
    (d : ℕ) (p : Str) (ps : List Str) (q : Str)
    → join d ((p ∷ ps) ++ q ∷ []) ≡ join d (p ∷ ps) ++ d ∷ q
join_concat d p [] q = refl
join_concat d p (r ∷ ps) q =
    ap (λ t. p ++ d ∷ t) (join_concat d r ps q) ∙ sym (append_assoc p (d ∷ join d (r ∷ ps)) (d ∷ q))
