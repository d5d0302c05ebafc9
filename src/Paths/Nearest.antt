-- ===== src/Paths/Nearest.antt =====
-- The nearest enclosing instance of a path.
use hyperchart.Prelude.{
  Bool-cases, List, Option, Option-cases, [], ap, append_assoc, arith, drop, drop-suc-length, inl,
  inr, none, refl, reverse, reverse-append, reverse-reverse, some, subst, suc, sym, take,
  take-length, true, ℕ, ◌++◌, ◌∙◌, ◌∷◌, ◌≡◌, ◌≢◌,
}
use hyperchart.Paths.{
  Instance, child_path, last_segment_key, nearest_from, nearest_instance, under_scope, wanted,
}
use hyperchart.Paths.Keys.{IsKey}
use hyperchart.Paths.Scope.{Under, Under-trans, at_scope, below, under_scope_complete}
use hyperchart.Paths.Tree.{
  LastSegment, inner, instance_of_child, last_segment, template_segment_key, top,
}
use hyperchart.Text.{Str, index_of}
use hyperchart.Text.Search.{index_of-lacks, index_of_cut, index_of_first}
use hyperchart.Text.Split.{
  Lacks, join, join-split, join_concat, split, split_concat, split_of_Lacks,
}

-- The path of an instance.
abbrev pub instance_path : Instance → Str
instance_path r = r.container ++ b'#' ∷ r.key

join_last :
    (bs : List Str) (s t : Str) → join b'.' (bs ++ (s ++ t) ∷ []) ≡ join b'.' (bs ++ s ∷ []) ++ t
join_last [] s t = refl
join_last (b ∷ bs) s t =
    join_concat b'.' b bs (s ++ t)
    ∙ sym (append_assoc (join b'.' (b ∷ bs)) (b'.' ∷ s) t)
    ∙ ap (λ u. u ++ t) (sym (join_concat b'.' b bs s))

Under-longer :
    (bs : List Str) (s r : Str)
    → bs ≢ []
    → Under (join b'.' bs) r
    → Under (join b'.' (bs ++ s ∷ [])) r
Under-longer [] s r ne u = absurd (ne refl)
Under-longer (b ∷ bs) s r ne u =
    subst (λ t. Under t r) (sym (join_concat b'.' b bs s))
      (Under-trans (below b'.' s (inl refl) refl) u)

reverse_of_cons {ℓ} : {A : Type ℓ} (x : A) (xs : List A) → reverse (x ∷ xs) ≡ reverse xs ++ x ∷ []
reverse_of_cons x xs = reverse-append (x ∷ []) xs

append_ne_nil : {A : Type 0} (xs : List A) (x : A) → xs ++ x ∷ [] ≢ []
append_ne_nil [] x e = cc
append_ne_nil (y ∷ xs) x e = cc

-- What holds of a found instance: the path lies in it, and the filter wants it.
abbrev Encloses : Option Str → Str → Instance → Type 0
Encloses c p r = Under p (instance_path r) × (wanted c r.container ≡ true)

one_segment_more :
    (c : Option Str) (s : Str) (before : List Str) (r : Instance)
    → nearest_from c before ≡ some r
    → Encloses c (join b'.' (reverse before)) r
    → Encloses c (join b'.' (reverse (s ∷ before))) r
unfolding nearest_from
one_segment_more c s [] r h k = cc
one_segment_more c s (b ∷ bs) r h (u, w) = (
  subst (λ t. Under (join b'.' t) (instance_path r)) (sym (reverse_of_cons s (b ∷ bs)))
      (Under-longer (reverse (b ∷ bs)) s (instance_path r)
        (λ e. append_ne_nil (reverse bs) b (sym (reverse_of_cons b bs) ∙ e)) u),
  w,
)

-- The container that the loop builds at a segment with a hash.
abbrev container_at : Str → List Str → ℕ → Str
container_at s before i = join b'.' (reverse before ++ take i s ∷ [])

abbrev instance_at : Str → List Str → ℕ → Instance
instance_at s before i = record { container = container_at s before i; key = drop (suc i) s }

instance_at_path :
    (s : Str) (before : List Str) (i : ℕ)
    → index_of b'#' s ≡ some i
    → join b'.' (reverse (s ∷ before)) ≡ instance_path (instance_at s before i)
instance_at_path s before i hash =
    let (cut, _) = index_of_cut b'#' s i hash in
    ap (join b'.') (reverse_of_cons s before)
    ∙ ap (λ t. join b'.' (reverse before ++ t ∷ [])) cut
    ∙ join_last (reverse before) (take i s) (b'#' ∷ drop (suc i) s)

nearest_from_sound :
    (c : Option Str) (rev : List Str) (r : Instance)
    → nearest_from c rev ≡ some r
    → Encloses c (join b'.' (reverse rev)) r
unfolding nearest_from
nearest_from_sound c [] r h = cc
nearest_from_sound c (s ∷ before) r h = elim (Option-cases (index_of b'#' s)) [
  | inl plain ↦
      let found : nearest_from c before ≡ some r = ground arith in
      one_segment_more c s before r found (nearest_from_sound c before r found)
  | inr (i, hash) ↦ elim (Bool-cases (wanted c (container_at s before i))) [
    | inr skipped ↦
        let found : nearest_from c before ≡ some r = ground arith in
        one_segment_more c s before r found (nearest_from_sound c before r found)
    | inl taken ↦
        let same : instance_at s before i ≡ r = ground arith in
        subst (Encloses c (join b'.' (reverse (s ∷ before)))) same
          (at_scope (instance_at_path s before i hash), taken)
  ]
]

-- What is found encloses the path, and is an instance of the wanted map.
pub nearest_instance_sound :
    (p : Str) (c : Option Str) (r : Instance)
    → nearest_instance p c ≡ some r
    → (under_scope p (instance_path r) ≡ true) × (wanted c r.container ≡ true)
unfolding nearest_instance
nearest_instance_sound p c r h =
    let (u, w) = nearest_from_sound c (reverse (split b'.' p)) r h in
    let whole : join b'.' (reverse (reverse (split b'.' p))) ≡ p =
      ap (join b'.') (reverse-reverse (split b'.' p)) ∙ join-split b'.' p in
    (under_scope_complete p (instance_path r) (subst (λ t. Under t (instance_path r)) whole u), w)

-- A segment with no hash is passed over.
nearest_from_plain :
    (c : Option Str) (s : Str) (before : List Str)
    → Lacks b'#' s
    → nearest_from c (s ∷ before) ≡ nearest_from c before
unfolding nearest_from
nearest_from_plain c s before h = rw (index_of-lacks b'#' s h, nearest_from)

nearest_from_keyed :
    (s k : Str) (before : List Str)
    → Lacks b'#' s
    → nearest_from none ((s ++ b'#' ∷ k) ∷ before)
      ≡ some (record { container = join b'.' (reverse before ++ s ∷ []); key = k })
unfolding nearest_from
nearest_from_keyed s k before h =
    rw (index_of_first b'#' s k h, nearest_from)
      (ap some (λ i. record {
        container = join b'.' (reverse before ++ take-length s (b'#' ∷ k) i ∷ []);
        key = drop-suc-length s k b'#' i;
      }))

split_child :
    (p id : Str)
    → Lacks b'.' id
    → reverse (split b'.' (child_path p id)) ≡ id ∷ reverse (split b'.' p)
unfolding child_path
split_child p id h = ap reverse (split_concat b'.' p id h) ∙ reverse-append (split b'.' p) (id ∷ [])

nearest_of_segment :
    (s k : Str)
    → IsKey s
    → IsKey k
    → nearest_instance (s ++ b'#' ∷ k) none ≡ some (record { container = s; key = k })
unfolding nearest_instance
nearest_of_segment s k hs hk =
    rw (split_of_Lacks b'.' (s ++ b'#' ∷ k) (template_segment_key s k hs hk.0))
      (nearest_from_keyed s k [] hs.1)

nearest_of_child :
    (q s k : Str)
    → IsKey s
    → IsKey k
    → nearest_instance (child_path q s ++ b'#' ∷ k) none
      ≡ some (record { container = child_path q s; key = k })
unfolding nearest_instance
nearest_of_child q s k hs hk =
    ap (λ t. nearest_from none (reverse (split b'.' t))) (instance_of_child q s k)
    ∙ ap (nearest_from none) (split_child q (s ++ b'#' ∷ k) (template_segment_key s k hs hk.0))
    ∙ nearest_from_keyed s k (reverse (split b'.' q)) hs.1
    ∙ ap some (λ i. record { container = same i; key = k })
  where
    same : join b'.' (reverse (reverse (split b'.' q)) ++ s ∷ []) ≡ child_path q s
    same =
        ap (λ t. join b'.' (t ++ s ∷ [])) (reverse-reverse (split b'.' q))
        ∙ ap (join b'.') (sym (split_concat b'.' q s hs.0))
        ∙ join-split b'.' (q ++ b'.' ∷ s)
        ∙ (unfold child_path in refl)

-- With no filter, on a path whose last segment has no key yet: the instance that a key with neither a
-- dot nor a hash makes of it is the nearest one, and a child with such an id has the nearest instance
-- of the path itself.
pub nearest_instance_innermost :
    (p k id : Str)
    → last_segment_key p ≡ none
    → IsKey k
    → IsKey id
    → (nearest_instance (p ++ b'#' ∷ k) none ≡ some (record { container = p; key = k }))
      × (nearest_instance (child_path p id) none ≡ nearest_instance p none)
nearest_instance_innermost p k id h key ident = (own (last_segment p h), above)
  where
    above : nearest_instance (child_path p id) none ≡ nearest_instance p none
    above =
        unfold nearest_instance in
        (ap (nearest_from none) (split_child p id ident.0)
          ∙ nearest_from_plain none id (reverse (split b'.' p)) ident.1)

    own :
        LastSegment p
        → nearest_instance (p ++ b'#' ∷ k) none ≡ some (record { container = p; key = k })
    own (top hp) = nearest_of_segment p k hp key
    own (inner q s e hs) =
        subst
          (λ t. nearest_instance (t ++ b'#' ∷ k) none ≡ some (record { container = t; key = k }))
          (sym e) (nearest_of_child q s k hs key)
