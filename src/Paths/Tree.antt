-- ===== src/Paths/Tree.antt =====
-- How the template of a path follows its children and its instances.
use hyperchart.Prelude.{
  Bool-cases, List, Option-cases, [], ap, append_assoc, arith, drop, false, inl, inr, length,
  length-append, length-take, map, none, refl, some, subst, suc, sym, take, ℕ, ◌++◌, ◌<◌, ◌∙◌, ◌∷◌,
  ◌≡◌, ◌≤◌,
}
use hyperchart.Paths.{
  child_path, key_is_last, last_segment_key, template_of, template_path, template_segment,
}
use hyperchart.Paths.Keys.{IsKey}
use hyperchart.Paths.Template.{template_path_lem, template_segment_instance}
use hyperchart.Text.{Str, has_char, last_index_of, rank_of}
use hyperchart.Text.Search.{
  has_char-append, last_index_of_behind, last_index_of_bound, last_index_of_cut, last_index_of-none,
}
use hyperchart.Text.Split.{Lacks, join, join_concat, split_concat, split_nonempty, split_of_Lacks}

map_concat {ℓ κ} :
    {A : Type ℓ} {B : Type κ} (f : A → B) (xs : List A) (y : A)
    → map f (xs ++ y ∷ []) ≡ map f xs ++ f y ∷ []
map_concat f [] y = refl
map_concat f (x ∷ xs) y = ap (λ t. f x ∷ t) (map_concat f xs y)

-- The template of a child is the child of the template, if the local id has no dot.
pub template_path-child_path :
    (p id : Str)
    → Lacks b'.' id
    → template_path (child_path p id) ≡ child_path (template_path p) (template_segment id)
template_path-child_path p id h =
    template_path_lem (child_path p id)
    ∙ joined
    ∙ ap (λ t. child_path t (template_segment id)) (sym (template_path_lem p))
  where
    joined : template_of (child_path p id) ≡ child_path (template_of p) (template_segment id)
    joined =
        unfold template_of child_path in
        (let (q, qs, e) = split_nonempty b'.' p in
          ap (λ t. join b'.' (map template_segment t)) (split_concat b'.' p id h)
          ∙ rw e (
              ap (join b'.') (map_concat template_segment (q ∷ qs) id)
              ∙ join_concat b'.' (template_segment q) (map template_segment qs)
                  (template_segment id)))

-- A path of one segment.
pub template_path_of_segment : (s : Str) → Lacks b'.' s → template_path s ≡ template_segment s
template_path_of_segment s h =
    template_path_lem s ∙ (unfold template_of in rw (split_of_Lacks b'.' s h))

-- A path with no key on its last segment is one segment, or a child, whose last segment has no
-- hash.
pub data LastSegment (p : Str) : Type 0 where
  top : IsKey p → LastSegment p
  inner : (q id : Str) → p ≡ child_path q id → IsKey id → LastSegment p

no_hash_behind :
    (p : Str) (i : ℕ)
    → last_index_of b'.' p ≡ some i
    → key_is_last p ≡ false
    → Lacks b'#' (drop (suc i) p)
no_hash_behind p i e h = elim (Bool-cases (has_char b'#' (drop (suc i) p))) [
  | inr f ↦ f
  | inl f ↦
      let (cut, _) = last_index_of_cut b'.' p i e in
      let bound : i ≤ length p = omega (arith, last_index_of_bound b'.' p i e) in
      let front = take i p ++ b'.' ∷ [] in
      let size : length front ≡ suc i =
        omega (arith, length-append (take i p) (b'.' ∷ []), length-take i p bound) in
      let whole : front ++ drop (suc i) p ≡ p =
        append_assoc (take i p) (b'.' ∷ []) (drop (suc i) p) ∙ sym cut in
      let late : length front < rank_of (last_index_of b'#' p) =
        subst (λ t. length front < rank_of (last_index_of b'#' t)) whole
          (last_index_of_behind b'#' front (drop (suc i) p) f) in
      let here : rank_of (last_index_of b'.' p) ≡ suc i = ap rank_of e in absurd (ground arith)
]

pub last_segment : (p : Str) → last_segment_key p ≡ none → LastSegment p
unfolding last_segment_key
last_segment p h =
    let late : key_is_last p ≡ false = ground arith in
    elim (Option-cases (last_index_of b'.' p)) [
      | inl e ↦
          let no_hash : last_index_of b'#' p ≡ none = elim (Option-cases (last_index_of b'#' p)) [
            | inl f ↦ f
            | inr (j, f) ↦ absurd (ground arith)
          ] in
          top (last_index_of-none b'.' p e, last_index_of-none b'#' p no_hash)
      | inr (i, e) ↦
          let (cut, dotless) = last_index_of_cut b'.' p i e in
          inner (take i p) (drop (suc i) p) (unfold child_path in cut)
            (dotless, no_hash_behind p i e late)
    ]

pub template_segment_key : (s k : Str) → IsKey s → Lacks b'.' k → Lacks b'.' (s ++ b'#' ∷ k)
template_segment_key s k h j = has_char-append b'.' s (b'#' ∷ k) ∙ ground arith

pub instance_of_child : (q id k : Str) → child_path q id ++ b'#' ∷ k ≡ child_path q (id ++ b'#' ∷ k)
unfolding child_path
instance_of_child q id k = append_assoc q (b'.' ∷ id) (b'#' ∷ k)

-- An instance has the template of its map.
pub template_path_instance :
    (p k : Str)
    → last_segment_key p ≡ none
    → IsKey k
    → template_path (p ++ b'#' ∷ k) ≡ template_path p
template_path_instance p k h key = elim (last_segment p h) [
  | top (dot, hash) ↦
      template_path_of_segment (p ++ b'#' ∷ k) (template_segment_key p k (dot, hash) key.0)
      ∙ template_segment_instance p k hash
      ∙ sym (template_path_of_segment p dot)
  | inner q id e (dot, hash) ↦ rw e (
      ap template_path (instance_of_child q id k)
      ∙ template_path-child_path q (id ++ b'#' ∷ k) (template_segment_key id k (dot, hash) key.0)
      ∙ ap (child_path (template_path q)) (template_segment_instance id k hash)
      ∙ sym (template_path-child_path q id dot))
]
