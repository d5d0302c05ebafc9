-- ===== src/Paths/Template.antt =====
-- The template path: what the segments become, and that the early return changes nothing.
use hyperchart.Prelude.{
  All, Bool, Bool-cases, List, [], all, and_split, ap, append_assoc, arith, drop, false, inl, inr,
  length, map, not, refl, sym, take-length, true, ℕ, ◌&&◌, ◌++◌, ◌∙◌, ◌∷◌, ◌≡◌,
}
use hyperchart.Paths.{
  before_key, is_decimal, is_digit, is_generation, is_plain, is_worker, strip_generation,
  template_of, template_path, template_segment, worker_or, worker_prefix,
}
use hyperchart.Text.{Str, has_char, includes, starts_with}
use hyperchart.Text.Search.{has_char-append, index_of-lacks, index_of_first}
use hyperchart.Text.Split.{Lacks, join, join-split, split_nonempty}

pub starts_with→includes : (p s : Str) → starts_with p s ≡ true → includes p s ≡ true
starts_with→includes p [] h = h
starts_with→includes p (x ∷ s) h = rw h

includes-append_right : (p s t : Str) → includes p t ≡ true → includes p (s ++ t) ≡ true
includes-append_right p [] t h = h
includes-append_right p (x ∷ s) t h = ground (arith, includes-append_right p s t h)

starts_with-append_right : (p s t : Str) → starts_with p s ≡ true → starts_with p (s ++ t) ≡ true
starts_with-append_right [] s t h = refl
starts_with-append_right (x ∷ p) [] t h = cc
starts_with-append_right (x ∷ p) (y ∷ s) t h = ground (arith, starts_with-append_right p s t)

strip_generation-Lacks : (s : Str) → Lacks b'~' s → strip_generation s ≡ s
strip_generation-Lacks [] h = refl
strip_generation-Lacks (c ∷ s) h = ground (arith, strip_generation-Lacks s)

pub before_key-Lacks : (s : Str) → Lacks b'#' s → before_key s ≡ s
before_key-Lacks s h = rw (index_of-lacks b'#' s h, before_key)

before_key-first : (s k : Str) → Lacks b'#' s → before_key (s ++ b'#' ∷ k) ≡ s
before_key-first s k h = rw (index_of_first b'#' s k h, before_key) (take-length s (b'#' ∷ k))

-- A segment with no marker is its own template.
pub template_segment_plain :
    (s : Str) → Lacks b'#' s → Lacks b'~' s → is_worker s ≡ false → template_segment s ≡ s
unfolding template_segment
template_segment_plain s h k w =
    rw (before_key-Lacks s h) (rw (strip_generation-Lacks s k) (rw (w, worker_or)))

-- The template of an instance's segment is that of its map.
pub template_segment_instance :
    (s k : Str) → Lacks b'#' s → template_segment (s ++ b'#' ∷ k) ≡ template_segment s
unfolding template_segment
template_segment_instance s k h =
    ap (λ t. worker_or (strip_generation t)) (before_key-first s k h ∙ sym (before_key-Lacks s h))

strip_generation_suffix :
    (s n : Str) → Lacks b'~' s → is_generation n ≡ true → strip_generation (s ++ b'~' ∷ n) ≡ s
strip_generation_suffix [] n h g = rw g
strip_generation_suffix (c ∷ s) n h g = ground (arith, strip_generation_suffix s n)

digits-lack : (c : ℕ) (n : Str) → is_digit c ≡ false → all is_digit n ≡ true → Lacks c n
digits-lack c [] d h = refl
digits-lack c (x ∷ n) d h = ground (arith, digits-lack c n)

generation-Lacks_hash : (n : Str) → is_generation n ≡ true → Lacks b'#' n
generation-Lacks_hash [] g = cc
generation-Lacks_hash (c ∷ n) g = ground (arith, digits-lack b'#' n)

-- The template of a later generation's segment is that of the first generation.
pub template_segment_generation :
    (s n : Str)
    → Lacks b'#' s
    → Lacks b'~' s
    → is_generation n ≡ true
    → template_segment (s ++ b'~' ∷ n) ≡ template_segment s
unfolding template_segment
template_segment_generation s n h k g =
    let all_lack : Lacks b'#' (s ++ b'~' ∷ n) =
      has_char-append b'#' s (b'~' ∷ n) ∙ (let e = generation-Lacks_hash n g in ground arith) in
    rw (before_key-Lacks (s ++ b'~' ∷ n) all_lack, before_key-Lacks s h)
      (ap worker_or (strip_generation_suffix s n k g ∙ sym (strip_generation-Lacks s k)))

-- What holds of a path with none of the markers holds of each of its segments.
abbrev IsPlainSegment : Str → Type 0
IsPlainSegment s = Lacks b'#' s × Lacks b'~' s × (includes worker_prefix s ≡ false)

includes-append_left : (p s t : Str) → includes p s ≡ true → includes p (s ++ t) ≡ true
includes-append_left [] [] [] h = refl
includes-append_left [] [] (y ∷ t) h = refl
includes-append_left (x ∷ p) [] t h = cc
includes-append_left p (x ∷ s) t h =
    ground (arith, includes-append_left p s t, starts_with-append_right p (x ∷ s) t)

not_includes :
    (p s t : Str)
    → includes p (s ++ b'.' ∷ t) ≡ false
    → (includes p s ≡ false) × (includes p t ≡ false)
not_includes p s t h = (
  elim (Bool-cases (includes p s)) [
    | inl e ↦ let k = includes-append_left p s (b'.' ∷ t) e in cc
    | inr e ↦ e
  ],
  elim (Bool-cases (includes p t)) [
    | inl e ↦
        let k = includes-append_right p (s ++ b'.' ∷ []) t e in
        let same = append_assoc s (b'.' ∷ []) t in cc
    | inr e ↦ e
  ],
)

plain_parts : (s t : Str) → IsPlainSegment (s ++ b'.' ∷ t) → IsPlainSegment s × IsPlainSegment t
plain_parts s t (h, k, w) =
    let (left, right) = not_includes worker_prefix s t w in
    ((hash.0, tilde.0, left), (hash.1, tilde.1, right))
  where
    hash : (Lacks b'#' s) × (Lacks b'#' t)
    hash = ground (arith, has_char-append b'#' s (b'.' ∷ t))

    tilde : (Lacks b'~' s) × (Lacks b'~' t)
    tilde = ground (arith, has_char-append b'~' s (b'.' ∷ t))

plain_segments :
    (p : Str) (ps : List Str) → IsPlainSegment (join b'.' (p ∷ ps)) → All IsPlainSegment (p ∷ ps)
plain_segments p [] h = (h, tt)
plain_segments p (q ∷ ps) h =
    let (here, later) = plain_parts p (join b'.' (q ∷ ps)) h in (here, plain_segments q ps later)

not_worker : (s : Str) → includes worker_prefix s ≡ false → is_worker s ≡ false
not_worker s h = elim (Bool-cases (starts_with worker_prefix s)) [
  | inl e ↦ let k = starts_with→includes worker_prefix s e in absurd (not_both k h)
  | inr e ↦ ap (λ b. b && is_decimal (drop (length worker_prefix) s)) e
]
  where
    not_both : includes worker_prefix s ≡ true → includes worker_prefix s ≡ false → ⊥
    not_both a b = cc

map-template_segment_plain : (ps : List Str) → All IsPlainSegment ps → map template_segment ps ≡ ps
map-template_segment_plain [] h = refl
map-template_segment_plain (p ∷ ps) ((h, k, w), rest) =
    cc (template_segment_plain p h k (not_worker p w), map-template_segment_plain ps rest)

template_of_plain : (p : Str) → IsPlainSegment p → template_of p ≡ p
unfolding template_of
template_of_plain p h =
    let (q, qs, e) = split_nonempty b'.' p in
    let whole : join b'.' (q ∷ qs) ≡ p = rw e at (join-split b'.' p) in
    let parts = plain_segments q qs (rw whole h) in
    rw e (rw (map-template_segment_plain (q ∷ qs) parts) whole)

-- The early return of `templatePath` changes nothing: the result is always the joined templates of
-- the segments.
pub template_path_lem : (p : Str) → template_path p ≡ template_of p
unfolding template_path
template_path_lem p = elim (Bool-cases (is_plain p)) [
  | inr e ↦ rw e
  | inl e ↦ rw e (sym (template_of_plain p (plain_of p e)))
]
  where
    not_true : (a : Bool) → not a ≡ true → a ≡ false
    not_true true h = cc
    not_true false h = refl

    plain_of : (q : Str) → is_plain q ≡ true → IsPlainSegment q
    plain_of q h =
        let (ab, c) =
          and_split (not (has_char b'#' q) && not (has_char b'~' q))
            (not (includes worker_prefix q)) h in
        let (a, b) = and_split (not (has_char b'#' q)) (not (has_char b'~' q)) ab in
        (not_true _ a, not_true _ b, not_true _ c)
