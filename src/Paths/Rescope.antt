-- ===== src/Paths/Rescope.antt =====
-- Re-scoping a ref into the caller's instance.
use hyperchart.Prelude.{
  All, Bool-cases, List, Option-cases, [], ap, arith, inl, inr, map, refl, suc, sym, take, true,
  zero, ℕ, ◌∙◌, ◌∷◌, ◌≡◌,
}
use hyperchart.Paths.{
  before_key, instance_path_for, instance_segment, instance_segments, is_worker, strip_generation,
  template_of, template_path, template_segment, worker_or,
}
use hyperchart.Paths.Template.{template_path_lem}
use hyperchart.Paths.Tree.{template_path_of_segment}
use hyperchart.Text.{Str, eq→str_eq, has_char, index_of, str_eq, str_eq→eq}
use hyperchart.Text.Split.{Lacks, join, join-split, split, split-Lacks, split-join, split_nonempty}

take-Lacks : (c n : ℕ) (s : Str) → Lacks c s → Lacks c (take n s)
take-Lacks c zero s h = refl
take-Lacks c (suc n) [] h = refl
take-Lacks c (suc n) (x ∷ s) h = ground (arith, take-Lacks c n s)

before_key-Lacks : (s : Str) → Lacks b'.' s → Lacks b'.' (before_key s)
before_key-Lacks s h = elim (Option-cases (index_of b'#' s)) [
  | inl e ↦ rw (e, before_key) h
  | inr (i, e) ↦ rw (e, before_key) (take-Lacks b'.' i s h)
]

strip_generation-Lacks : (s : Str) → Lacks b'.' s → Lacks b'.' (strip_generation s)
strip_generation-Lacks [] h = refl
strip_generation-Lacks (c ∷ s) h = ground (arith, strip_generation-Lacks s)

worker_or-Lacks : (s : Str) → Lacks b'.' s → Lacks b'.' (worker_or s)
worker_or-Lacks s h = elim (Bool-cases (is_worker s)) [
  | inl e ↦ rw (e, worker_or)
  | inr e ↦ rw (e, worker_or) h
]

template_segment-Lacks : (s : Str) → Lacks b'.' s → Lacks b'.' (template_segment s)
unfolding template_segment
template_segment-Lacks s h =
    worker_or-Lacks (strip_generation (before_key s))
      (strip_generation-Lacks (before_key s) (before_key-Lacks s h))

templates-Lack : (ps : List Str) → All (Lacks b'.') ps → All (Lacks b'.') (map template_segment ps)
templates-Lack [] h = tt
templates-Lack (p ∷ ps) (h, hs) = (template_segment-Lacks p h, templates-Lack ps hs)

-- The segments of a template are the templates of the segments.
split-template_path : (p : Str) → split b'.' (template_path p) ≡ map template_segment (split b'.' p)
split-template_path p =
    let (q, qs, e) = split_nonempty b'.' p in
    let parts : All (Lacks b'.') (q ∷ qs) = rw e at (split-Lacks b'.' p) in
    let lack = templates-Lack (q ∷ qs) parts in
    ap (split b'.') (template_path_lem p)
    ∙ (unfold template_of in
        rw e (split-join b'.' (template_segment q) (map template_segment qs) lack))

template_path-join :
    (ps : List Str)
    → All (Lacks b'.') ps
    → template_path (join b'.' ps) ≡ join b'.' (map template_segment ps)
template_path-join [] h = template_path_lem [] ∙ (unfold template_of template_segment in refl)
template_path-join (p ∷ ps) h =
    template_path_lem (join b'.' (p ∷ ps))
    ∙ (unfold template_of in ap (λ t. join b'.' (map template_segment t)) (split-join b'.' p ps h))

instance_segments-Lack :
    (rs cs : List Str)
    → All (Lacks b'.') rs
    → All (Lacks b'.') cs
    → All (Lacks b'.') (instance_segments rs cs)
unfolding instance_segments
instance_segments-Lack [] cs h k = tt
instance_segments-Lack (r ∷ rs) [] h k = (h.0, instance_segments-Lack rs [] h.1 tt)
instance_segments-Lack (r ∷ rs) (c ∷ cs) h k = (
  elim (Bool-cases (str_eq (template_path c) r)) [
    | inl e ↦ rw (e, instance_segment) k.0
    | inr e ↦ rw (e, instance_segment) h.0
  ],
  instance_segments-Lack rs cs h.1 k.1,
)

map-instance_segments :
    (rs cs : List Str)
    → All (λ (r : Str). template_segment r ≡ r) rs
    → All (Lacks b'.') cs
    → map template_segment (instance_segments rs cs) ≡ rs
unfolding instance_segments
map-instance_segments [] cs h k = refl
map-instance_segments (r ∷ rs) [] h k = cc (h.0, map-instance_segments rs [] h.1 tt)
map-instance_segments (r ∷ rs) (c ∷ cs) h k =
    let later = map-instance_segments rs cs h.1 k.1 in
    elim (Bool-cases (str_eq (template_path c) r)) [
      | inl e ↦
          let same = str_eq→eq (template_path c) r e in
          let here = template_path_of_segment c k.0 in rw (e, instance_segment) (cc)
      | inr e ↦ let here = h.0 in rw (e, instance_segment) (cc)
    ]

instance_segments_self :
    (cs : List Str) → All (Lacks b'.') cs → instance_segments (map template_segment cs) cs ≡ cs
unfolding instance_segments
instance_segments_self [] h = refl
instance_segments_self (c ∷ cs) h =
    let here : str_eq (template_path c) (template_segment c) ≡ true =
      eq→str_eq _ _ (template_path_of_segment c h.0) in
    rw (here, instance_segment) (ap (λ t. c ∷ t) (instance_segments_self cs h.1))

pointwise_of_map :
    (rs : List Str) → map template_segment rs ≡ rs → All (λ (r : Str). template_segment r ≡ r) rs
pointwise_of_map [] h = tt
pointwise_of_map (r ∷ rs) h = (cc, pointwise_of_map rs (cc))

-- A ref that is a template keeps its template when it is re-scoped into an instance: a lookup may
-- change the instance, never the state.
pub template_path-instance_path_for :
    (ref caller : Str)
    → template_path ref ≡ ref
    → template_path (instance_path_for ref caller) ≡ ref
unfolding instance_path_for
template_path-instance_path_for ref caller h = elim (Bool-cases (has_char b'#' caller)) [
  | inr e ↦ rw e h
  | inl e ↦ rw e rescoped
]
  where
    fixed : map template_segment (split b'.' ref) ≡ split b'.' ref
    fixed = sym (split-template_path ref) ∙ ap (split b'.') h

    path : List Str
    path = instance_segments (split b'.' ref) (split b'.' caller)

    rescoped : template_path (join b'.' path) ≡ ref
    rescoped =
        template_path-join path (
          instance_segments-Lack (split b'.' ref) (split b'.' caller) (split-Lacks b'.' ref)
            (split-Lacks b'.' caller))
        ∙ ap (join b'.') (
            map-instance_segments (split b'.' ref) (split b'.' caller)
              (pointwise_of_map (split b'.' ref) fixed) (split-Lacks b'.' caller))
        ∙ join-split b'.' ref

-- The caller's own template is re-scoped to the caller itself.
pub instance_path_for_self :
    (caller : Str)
    → has_char b'#' caller ≡ true
    → instance_path_for (template_path caller) caller ≡ caller
unfolding instance_path_for
instance_path_for_self caller h = rw h (
    ap (λ t. join b'.' (instance_segments t (split b'.' caller))) (split-template_path caller)
    ∙ ap (join b'.') (instance_segments_self (split b'.' caller) (split-Lacks b'.' caller))
    ∙ join-split b'.' caller)
