-- ===== src/Paths/Scope.antt =====
-- When a path lies in a scope.
use hyperchart.Prelude.{
  Bool, Bool-cases, [], ap, append_assoc, arith, drop, false, inl, inr, length, refl, subst, sym,
  true, ℕ, ◌++◌, ◌||◌, ◌↔◌, ◌∙◌, ◌∷◌, ◌≡◌, ◌⊎◌,
}
use hyperchart.Paths.{under_scope}
use hyperchart.Text.{Str, eq→str_eq, starts_with, str_eq, str_eq→eq, text}
use hyperchart.Text.Search.{starts_with-append, starts_with_cut}

-- A boundary character: the end of a segment or of a state id inside one.
abbrev IsBoundary : ℕ → Type 0
IsBoundary c = (c ≡ b'.') ⊎ (c ≡ b'#')

-- The path is the scope, or the scope and a boundary and a rest.
pub data Under (p scope : Str) : Type 0 where
  at_scope : p ≡ scope → Under p scope
  below : (c : ℕ) (rest : Str) → IsBoundary c → p ≡ scope ++ c ∷ rest → Under p scope

starts_with_boundary :
    (c : ℕ) (p scope : Str)
    → starts_with (scope ++ c ∷ []) p ≡ true
    → (rest : Str) × (p ≡ scope ++ c ∷ rest)
starts_with_boundary c p scope h = (
  drop (length (scope ++ c ∷ [])) p,
  starts_with_cut (scope ++ c ∷ []) p h ∙ append_assoc scope (c ∷ []) _,
)

-- The test of `underScope` decides the relation.
pub under_scope_sound : (p scope : Str) → under_scope p scope ≡ true → Under p scope
unfolding under_scope
under_scope_sound p scope h = elim (Bool-cases (str_eq p scope)) [
  | inl e ↦ at_scope (str_eq→eq p scope e)
  | inr ne ↦ elim (Bool-cases (starts_with (scope ++ text ".") p)) [
    | inl e ↦ let (rest, q) = starts_with_boundary b'.' p scope e in below b'.' rest (inl refl) q
    | inr nd ↦
        let e : starts_with (scope ++ text "#") p ≡ true = ground arith in
        let (rest, q) = starts_with_boundary b'#' p scope e in below b'#' rest (inr refl) q
  ]
]

starts_with_longer :
    (c : ℕ) (scope rest : Str) → starts_with (scope ++ c ∷ []) (scope ++ c ∷ rest) ≡ true
starts_with_longer c scope rest =
    rw (← append_assoc scope (c ∷ []) rest) (starts_with-append (scope ++ c ∷ []) rest)

or_true_right : (a : Bool) → (a || true) ≡ true
or_true_right true = refl
or_true_right false = refl

pub under_scope_complete : (p scope : Str) → Under p scope → under_scope p scope ≡ true
unfolding under_scope
under_scope_complete p scope (at_scope e) = rw (eq→str_eq p scope e)
under_scope_complete p scope (below c rest b e) = elim b [
  | inl d ↦
      let h : starts_with (scope ++ text ".") p ≡ true =
        rw (e, d) (starts_with_longer b'.' scope rest) in
      ground arith
  | inr d ↦
      let h : starts_with (scope ++ text "#") p ≡ true =
        rw (e, d) (starts_with_longer b'#' scope rest) in
      ground arith
]

-- A path is under a scope exactly if it is the scope itself, or the scope followed by a dot or a hash and
-- any rest; a path that only begins with the scope's letters is not.
pub under_scope-Under : (p scope : Str) → (under_scope p scope ≡ true) ↔ Under p scope
under_scope-Under p scope = (under_scope_sound p scope, under_scope_complete p scope)

pub under_scope_refl : (p : Str) → under_scope p p ≡ true
under_scope_refl p = under_scope_complete p p (at_scope refl)

pub Under-trans : {p q r : Str} → Under p q → Under q r → Under p r
Under-trans {r = r} (at_scope e) v = subst (λ x. Under x r) (sym e) v
Under-trans (below c rest b e) (at_scope f) = below c rest b (rw f at e)
Under-trans {r = r} (below c rest b e) (below d more b' f) =
    below d (more ++ c ∷ rest) b'
      (e ∙ ap (λ t. t ++ c ∷ rest) f ∙ append_assoc r (d ∷ more) (c ∷ rest))

-- Scopes nest: what lies in a scope that lies in a second one lies in the second one.
pub under_scope_trans :
    (p q r : Str) → under_scope p q ≡ true → under_scope q r ≡ true → under_scope p r ≡ true
under_scope_trans p q r h k =
    under_scope_complete p r (Under-trans (under_scope_sound p q h) (under_scope_sound q r k))

Under-cons : (x : ℕ) {p q : Str} → Under p q → Under (x ∷ p) (x ∷ q)
Under-cons x (at_scope e) = at_scope (ap (λ t. x ∷ t) e)
Under-cons x (below c rest b e) = below c rest b (ap (λ t. x ∷ t) e)

IsBoundary-moves : {c d : ℕ} → IsBoundary c → c ≡ d → IsBoundary d
IsBoundary-moves b e = subst IsBoundary e b

forest :
    (a b x y : Str) (c d : ℕ)
    → IsBoundary c
    → IsBoundary d
    → a ++ c ∷ x ≡ b ++ d ∷ y
    → Under a b ⊎ Under b a
forest [] [] x y c d k l e = inl (at_scope refl)
forest [] (z ∷ b) x y c d k l e = inr (below z b (IsBoundary-moves k (cc)) refl)
forest (z ∷ a) [] x y c d k l e = inl (below z a (IsBoundary-moves l (cc)) refl)
forest (w ∷ a) (z ∷ b) x y c d k l e =
    let heads : w ≡ z = cc in
    let tails : a ++ c ∷ x ≡ b ++ d ∷ y = cc in
    rw heads (elim (forest a b x y c d k l tails) [
      | inl u ↦ inl (Under-cons z u)
      | inr u ↦ inr (Under-cons z u)
    ])

-- Two scopes that hold one path are one inside the other: scopes form a forest.
pub under_scope_forest :
    (p a b : Str)
    → under_scope p a ≡ true
    → under_scope p b ≡ true
    → (under_scope a b ≡ true) ⊎ (under_scope b a ≡ true)
under_scope_forest p a b h k = compare_scopes (under_scope_sound p a h) (under_scope_sound p b k)
  where
    decided : Under a b ⊎ Under b a → (under_scope a b ≡ true) ⊎ (under_scope b a ≡ true)
    decided (inl u) = inl (under_scope_complete a b u)
    decided (inr u) = inr (under_scope_complete b a u)

    compare_scopes : Under p a → Under p b → (under_scope a b ≡ true) ⊎ (under_scope b a ≡ true)
    compare_scopes (at_scope e) v = inl (rw e at k)
    compare_scopes u (at_scope f) = inr (rw f at h)
    compare_scopes (below c x i e) (below d y j f) = decided (forest a b x y c d i j (sym e ∙ f))
