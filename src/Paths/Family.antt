-- ===== src/Paths/Family.antt =====
-- Parents, children and siblings of a state path.
use hyperchart.Prelude.{
  Option-cases, ap, arith, drop, inl, inr, length, length-append, none, some, suc, take,
  take-length, ◌<◌, ◌↔◌, ◌∷◌, ◌≡◌,
}
use hyperchart.Paths.{child_path, parent_path, sibling_path}
use hyperchart.Text.{Str, last_index_of}
use hyperchart.Text.Search.{
  last_index_of-lacks, last_index_of_cut, last_index_of_last, last_index_of-none,
}
use hyperchart.Text.Split.{Lacks}

-- The parent of a child is the path that it was made from, if the local id has no dot.
pub parent_path-child_path : (p id : Str) → Lacks b'.' id → parent_path (child_path p id) ≡ some p
unfolding parent_path child_path
parent_path-child_path p id h =
    rw (last_index_of_last b'.' p id h, parent_path, child_path)
      (ap some (take-length p (b'.' ∷ id)))

-- A path with a parent is the child of that parent under an id with no dot.
pub parent_path_inv :
    (p q : Str) → parent_path p ≡ some q → (id : Str) × (p ≡ child_path q id) × Lacks b'.' id
unfolding parent_path child_path
parent_path_inv p q h = elim (Option-cases (last_index_of b'.' p)) [
  | inl e ↦ absurd (ground arith)
  | inr (i, e) ↦
      let (cut, rest) = last_index_of_cut b'.' p i e in
      let same : take i p ≡ q = ground arith in (drop (suc i) p, rw same at cut, rest)
]

-- A path has no parent exactly when it has no dot.
pub parent_path-none : (p : Str) → (parent_path p ≡ none) ↔ Lacks b'.' p
unfolding parent_path
parent_path-none p = (
  λ h. elim (Option-cases (last_index_of b'.' p)) [
    | inl e ↦ last_index_of-none b'.' p e
    | inr (i, e) ↦ absurd (ground arith)
  ],
  λ h. rw (last_index_of-lacks b'.' p h, parent_path),
)

-- The sibling of a path has the same parent, and its sibling under a further target is the same as
-- the path's own.
pub sibling_path_level :
    (p t u : Str)
    → Lacks b'.' t
    → (parent_path (sibling_path p t) ≡ parent_path p)
      × (sibling_path (sibling_path p t) u ≡ sibling_path p u)
unfolding sibling_path
sibling_path_level p t u h = elim (Option-cases (parent_path p)) [
  | inl e ↦
      let top : parent_path t ≡ none = (parent_path-none t).1 h in
      (rw (e, sibling_path) top, rw (e, sibling_path) (rw (top, sibling_path)))
  | inr (q, e) ↦
      let up : parent_path (child_path q t) ≡ some q = parent_path-child_path q t h in
      (rw (e, sibling_path) up, rw (e, sibling_path) (rw (up, sibling_path)))
]

-- A parent is shorter than its child, so a walk up the parents ends.
pub length-parent_path : (p q : Str) → parent_path p ≡ some q → length q < length p
length-parent_path p q h =
    let (id, e, _) = parent_path_inv p q h in
    rw e (unfold child_path in omega (arith, length-append q (b'.' ∷ id)))
