-- ===== src/Dict/Laws.antt =====
-- Reads after writes.
use hyperchart.Prelude.{
  Bool-cases, [], arith, false, if◌then◌else◌, inl, inr, length, none, refl, some, subst, suc, sym,
  ◌∷◌, ◌≡◌, ◌≤◌,
}
use hyperchart.Dict.{Dict, has_key, lookup, put, remove}
use hyperchart.Text.{Str, str_eq, str_eq_iff, str_eq_refl, str_eq→eq}

module _ {ℓ} {V : Type ℓ} where
  pub lookup-put :
      (k j : Str) (v : V) (d : Dict V)
      → lookup j (put k v d) ≡ (if str_eq k j then some v else lookup j d)
  unfolding lookup put
  lookup-put k j v [] = refl
  lookup-put k j v ((i, w) ∷ d) =
      ground (arith, str_eq_iff k j, str_eq_iff i k, str_eq_iff i j, lookup-put k j v d)

  pub lookup-remove :
      (k j : Str) (d : Dict V) → lookup j (remove k d) ≡ (if str_eq k j then none else lookup j d)
  unfolding lookup remove
  lookup-remove k j [] = ground arith
  lookup-remove k j ((i, w) ∷ d) =
      ground (arith, str_eq_iff k j, str_eq_iff i k, str_eq_iff i j, lookup-remove k j d)

  pub lookup-put_self : (k : Str) (v : V) (d : Dict V) → lookup k (put k v d) ≡ some v
  lookup-put_self k v d = rw (lookup-put k k v d, str_eq_refl k)

  pub lookup-remove_self : (k : Str) (d : Dict V) → lookup k (remove k d) ≡ none
  lookup-remove_self k d = rw (lookup-remove k k d, str_eq_refl k)

  pub has_key-lookup : (k : Str) (d : Dict V) → lookup k d ≡ none → has_key k d ≡ false
  unfolding lookup has_key
  has_key-lookup k [] h = refl
  has_key-lookup k ((j, w) ∷ d) h = ground (arith, has_key-lookup k d)

  pub length-put : (k : Str) (v : V) (d : Dict V) → length (put k v d) ≤ suc (length d)
  unfolding put
  length-put k v [] = omega arith
  length-put k v ((j, w) ∷ d) = ground (arith, length-put k v d)

module _ {ℓ κ} {V : Type ℓ} (P : Str → V → Type κ) where
  abbrev pub Entries : Dict V → Type κ
  Entries [] = Unit
  Entries ((k, v) ∷ d) = P k v × Entries d

  pub Entries-lookup : (k : Str) (v : V) (d : Dict V) → Entries d → lookup k d ≡ some v → P k v
  unfolding lookup
  Entries-lookup k v [] h e = cc
  Entries-lookup k v ((j, w) ∷ d) (here, later) e = elim (Bool-cases (str_eq j k)) [
    | inl same ↦
        let q : w ≡ v = ground arith in subst (λ x. P x v) (str_eq→eq j k same) (subst (P j) q here)
    | inr other ↦ Entries-lookup k v d later (ground arith)
  ]

  pub Entries-put : (k : Str) (v : V) (d : Dict V) → P k v → Entries d → Entries (put k v d)
  unfolding put
  Entries-put k v [] p h = (p, tt)
  Entries-put k v ((j, w) ∷ d) p (here, later) = elim (Bool-cases (str_eq j k)) [
    | inl same ↦ rw same (subst (λ x. P x v) (sym (str_eq→eq j k same)) p, later)
    | inr other ↦ rw other (here, Entries-put k v d p later)
  ]
