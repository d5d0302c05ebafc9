-- ===== src/Paths/Cache.antt =====
-- The bounded cache in front of the template computation: `templatePath` of paths.ts as it is
-- called, with the module's Map as the state.
use hyperchart.Prelude.{
  Bool-cases, List, Option-cases, [], arith, drop, if◌then◌else◌, inl, inr, length, map, max, none,
  refl, some, suc, sym, ℕ, ◌<◌, ◌==◌, ◌∙◌, ◌∷◌, ◌≡◌, ◌≤◌,
}
use hyperchart.Dict.{Dict, lookup, put}
use hyperchart.Dict.Laws.{Entries, Entries-lookup, Entries-put, length-put}
use hyperchart.Paths.{is_plain, template_of, template_path}
use hyperchart.Paths.Template.{template_path_lem}
use hyperchart.Text.{Str}

abbrev pub template_path_cache_limit : ℕ
template_path_cache_limit = 4096

-- The oldest entry goes when the Map is full.
unfoldable pub make_room : ℕ → Dict Str → Dict Str
make_room limit cache = if length cache == limit then drop 1 cache else cache

-- `limit` is `template_path_cache_limit` in the program.
unfoldable pub template_path_cached : ℕ → Dict Str → Str → Str × Dict Str
unfolding make_room
template_path_cached limit cache p = if is_plain p then (p, cache) else elim (lookup p cache) [
  | some cached ↦ (cached, cache)
  | none ↦ let template = template_of p in (template, put p template (make_room limit cache))
]

abbrev pub IsTemplateOf : Str → Str → Type 0
IsTemplateOf p t = t ≡ template_of p

-- Every entry is the template of its key, and the size is within the limit.
pub record CacheIsSound (limit : ℕ) (cache : Dict Str) : Type 0 where
  pub entries : Entries IsTemplateOf cache
  pub bounded : length cache ≤ limit

Entries-drop : (cache : Dict Str) → Entries IsTemplateOf cache → Entries IsTemplateOf (drop 1 cache)
Entries-drop [] h = tt
Entries-drop ((k, v) ∷ d) h = h.1

length-drop_one : {A : Type 0} (xs : List A) → suc (length (drop 1 xs)) ≤ max 1 (length xs)
length-drop_one [] = omega arith
length-drop_one (x ∷ xs) = omega arith

make_room-CacheIsSound :
    (limit : ℕ) (cache : Dict Str)
    → 0 < limit
    → CacheIsSound limit cache
    → Entries IsTemplateOf (make_room limit cache) × (suc (length (make_room limit cache)) ≤ limit)
unfolding make_room
make_room-CacheIsSound limit cache pos h = elim (Bool-cases (length cache == limit)) [
  | inl full ↦
      rw full (Entries-drop cache h.entries, (let n = length-drop_one cache in ground arith))
  | inr room ↦ rw room (h.entries, ground arith)
]

template_path_cached_fill :
    (limit : ℕ) (cache : Dict Str) (p : Str)
    → 0 < limit
    → CacheIsSound limit cache
    → CacheIsSound limit (put p (template_of p) (make_room limit cache))
template_path_cached_fill limit cache p pos h =
    let (entries, room) = make_room-CacheIsSound limit cache pos h in
    record {
      entries = Entries-put IsTemplateOf p (template_of p) (make_room limit cache) refl entries;
      bounded = omega (arith, length-put p (template_of p) (make_room limit cache));
    }

-- A call through a sound cache gives the template path, and leaves a sound cache within its limit.
pub template_path_cached_lem :
    (limit : ℕ) (cache : Dict Str) (p : Str)
    → 0 < limit
    → CacheIsSound limit cache
    → ((template_path_cached limit cache p).0 ≡ template_path p)
      × CacheIsSound limit (template_path_cached limit cache p).1
unfolding template_path_cached
template_path_cached_lem limit cache p pos h = elim (Bool-cases (is_plain p)) [
  | inl plain ↦ (rw plain (unfold template_path in rw plain), rw plain h)
  | inr marked ↦ elim (Option-cases (lookup p cache)) [
    | inl missing ↦ (
      rw (marked, missing) (sym (template_path_lem p)),
      rw (marked, missing) (template_path_cached_fill limit cache p pos h),
    )
    | inr (t, found) ↦ (
      rw (marked, found)
          (Entries-lookup IsTemplateOf p t cache h.entries found ∙ sym (template_path_lem p)),
      rw (marked, found) h,
    )
  ]
]

-- A run of calls, each with the cache that the last one left.
unfoldable pub template_paths_cached : ℕ → Dict Str → List Str → List Str
template_paths_cached limit cache [] = []
template_paths_cached limit cache (p ∷ ps) =
    let (t, cache') = template_path_cached limit cache p in
    t ∷ template_paths_cached limit cache' ps

template_paths_cached_lem :
    (limit : ℕ) (ps : List Str) (cache : Dict Str)
    → 0 < limit
    → CacheIsSound limit cache
    → template_paths_cached limit cache ps ≡ map template_path ps
unfolding template_paths_cached
template_paths_cached_lem limit [] cache pos h = refl
template_paths_cached_lem limit (p ∷ ps) cache pos h =
    let (here, next) = template_path_cached_lem limit cache p pos h in
    let later =
      template_paths_cached_lem limit ps (template_path_cached limit cache p).1 pos next in
    cc

-- From the empty cache, whatever paths are asked for and however often entries are dropped, every
-- call returns the template path.
pub template_path_cached_transparent :
    (ps : List Str) → template_paths_cached template_path_cache_limit [] ps ≡ map template_path ps
template_path_cached_transparent ps =
    template_paths_cached_lem template_path_cache_limit ps [] (omega arith)
      (record { entries = tt; bounded = omega arith })
