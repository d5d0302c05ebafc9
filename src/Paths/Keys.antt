-- ===== src/Paths/Keys.antt =====
-- The instance key of the last segment.
use hyperchart.Prelude.{
  Bool-cases, Option-cases, ap, arith, drop, drop-suc-length, inl, inr, length, lt→ltb, none, some,
  suc, take-length, true, ◌++◌, ◌∷◌, ◌≡◌, ◌≤◌,
}
use hyperchart.Paths.{child_path, key_is_last, last_segment_key, strip_last_key}
use hyperchart.Text.{Str, last_index_of, rank_of}
use hyperchart.Text.Search.{
  last_index_of-append, last_index_of_bound, last_index_of_cut, last_index_of_last,
}
use hyperchart.Text.Split.{Lacks}

-- A key, like a state id, has neither a dot nor a hash.
abbrev pub IsKey : Str → Type 0
IsKey k = Lacks b'.' k × Lacks b'#' k

last_dot_before : (p k : Str) → IsKey k → last_index_of b'.' (p ++ b'#' ∷ k) ≡ last_index_of b'.' p
last_dot_before p k h = last_index_of-append b'.' p (b'#' ∷ k) (ground arith)

rank_of_last_dot : (p : Str) → rank_of (last_index_of b'.' p) ≤ length p
rank_of_last_dot p = elim (Option-cases (last_index_of b'.' p)) [
  | inl e ↦ rw e (omega arith)
  | inr (i, e) ↦ rw e (last_index_of_bound b'.' p i e)
]

rank_of_last_hash : (p : Str) → rank_of (last_index_of b'#' p) ≤ length p
rank_of_last_hash p = elim (Option-cases (last_index_of b'#' p)) [
  | inl e ↦ rw e (omega arith)
  | inr (i, e) ↦ rw e (last_index_of_bound b'#' p i e)
]

key_is_last_instance : (p k : Str) → IsKey k → key_is_last (p ++ b'#' ∷ k) ≡ true
key_is_last_instance p k h =
    rw (last_dot_before p k h, last_index_of_last b'#' p k h.1)
      (lt→ltb _ _ (omega (arith, rank_of_last_dot p)))

-- An instance path gives back its key and its map.
pub last_segment_key_instance :
    (p k : Str)
    → IsKey k
    → (last_segment_key (p ++ b'#' ∷ k) ≡ some k) × (strip_last_key (p ++ b'#' ∷ k) ≡ p)
unfolding last_segment_key strip_last_key
last_segment_key_instance p k h = (
  rw (key_is_last_instance p k h, last_index_of_last b'#' p k h.1)
      (ap some (drop-suc-length p k b'#')),
  rw (key_is_last_instance p k h, last_index_of_last b'#' p k h.1) (take-length p _),
)

-- A path whose last segment has a key is the stripped path, a hash and the key; any other path is
-- left as it is.
pub strip_last_key_cut :
    (p : Str)
    → (last_segment_key p ≡ none → strip_last_key p ≡ p)
      × ((k : Str) → last_segment_key p ≡ some k → p ≡ strip_last_key p ++ b'#' ∷ k)
unfolding last_segment_key strip_last_key
strip_last_key_cut p = elim (Bool-cases (key_is_last p)) [
  | inr e ↦ (λ _. ground arith, λ k h. absurd (ground arith))
  | inl e ↦ elim (Option-cases (last_index_of b'#' p)) [
    | inl f ↦ absurd (ground arith)
    | inr (i, f) ↦ (
      λ h. absurd (ground arith),
      λ k h.
          let (cut, _) = last_index_of_cut b'#' p i f in
          let key : drop (suc i) p ≡ k = ground arith in rw (e, f) (rw key at cut),
    )
  ]
]

-- A child of an instance has no key of its own, and its parent is the instance.
pub last_segment_key-child_path :
    (p id : Str) → IsKey id → last_segment_key (child_path p id) ≡ none
unfolding last_segment_key child_path
last_segment_key-child_path p id h =
    let hash : last_index_of b'#' (p ++ b'.' ∷ id) ≡ last_index_of b'#' p =
      last_index_of-append b'#' p (b'.' ∷ id) (ground arith) in
    let dot : last_index_of b'.' (p ++ b'.' ∷ id) ≡ some (length p) =
      last_index_of_last b'.' p id h.0 in
    let bound = rank_of_last_hash p in ground arith
