-- ===== src/Dict/Numbered.antt =====
-- Maps with numbers as keys, entries in the order of their insertion.
use hyperchart.Prelude.{
  List, Option, [], arith, if◌then◌else◌, length, none, refl, some, ℕ, ◌+◌, ◌==◌, ◌∷◌, ◌≡◌,
}

module _ {ℓ} {V : Type ℓ} where
  -- map.get(n)
  unfoldable pub value_at : ℕ → List (ℕ × V) → Option V
  value_at n [] = none
  value_at n ((m, v) ∷ d) = if m == n then some v else value_at n d

  -- map.set(n, v)
  unfoldable pub set_at : ℕ → V → List (ℕ × V) → List (ℕ × V)
  set_at n v [] = (n, v) ∷ []
  set_at n v ((m, w) ∷ d) = let rest = set_at n v d in if m == n then (m, v) ∷ d else (m, w) ∷ rest

  pub value_at-set_at :
      (n k : ℕ) (v : V) (d : List (ℕ × V))
      → value_at k (set_at n v d) ≡ (if n == k then some v else value_at k d)
  unfolding value_at set_at
  value_at-set_at n k v [] = refl
  value_at-set_at n k v ((m, w) ∷ d) = ground (arith, value_at-set_at n k v d)

  pub length-set_at_new :
      (n : ℕ) (v : V) (d : List (ℕ × V))
      → value_at n d ≡ none
      → length (set_at n v d) ≡ length d + 1
  unfolding value_at set_at
  length-set_at_new n v [] h = omega arith
  length-set_at_new n v ((m, w) ∷ d) h = ground (arith, length-set_at_new n v d)
