-- ===== src/Paths.antt =====
-- Instance-aware path arithmetic, packages/hyperchart/src/core/paths.ts.
-- A state path is dot-separated; a segment may carry a map key behind "#", an actor generation
-- behind "~", or be a pool worker "$worker-N". The cache in front of the template computation
-- stands in Paths/Cache.
pub mod Cache
pub mod MapKeys
pub mod Family
pub mod Keys
pub mod Scope
pub mod Template
pub mod Rescope
pub mod Tree
pub mod Nearest
use hyperchart.Prelude.{
  Bool, List, Option, [], all, drop, false, if◌then◌else◌, leb, length, ltb, map, none, not,
  reverse, some, suc, take, true, ℕ, ◌&&◌, ◌++◌, ◌==◌, ◌||◌, ◌∷◌,
}
use hyperchart.Text.{
  Str, has_char, includes, index_of, last_index_of, rank_of, starts_with, str_eq, text,
}
use hyperchart.Text.Split.{join, split}

-- /[0-9]/ and /[1-9]/
abbrev pub is_digit : ℕ → Bool
is_digit c = leb b'0' c && leb c b'9'

abbrev pub is_positive_digit : ℕ → Bool
is_positive_digit c = leb b'1' c && leb c b'9'

-- /^[1-9][0-9]*$/
abbrev pub is_generation : Str → Bool
is_generation [] = false
is_generation (c ∷ s) = is_positive_digit c && all is_digit s

-- segment.replace(/~[1-9][0-9]*$/, ""): the match is the first tilde with a generation behind it.
abbrev pub strip_generation : Str → Str
strip_generation [] = []
strip_generation (c ∷ s) =
    let rest = strip_generation s in if c == b'~' && is_generation s then [] else c ∷ rest

abbrev pub worker_prefix : Str
worker_prefix = text "$worker-"

abbrev pub worker_name : Str
worker_name = text "$worker"

-- /^[0-9]+$/
abbrev pub is_decimal : Str → Bool
is_decimal [] = false
is_decimal (c ∷ s) = is_digit c && all is_digit s

-- /^\$worker-[0-9]+$/
abbrev pub is_worker : Str → Bool
is_worker s = starts_with worker_prefix s && is_decimal (drop (length worker_prefix) s)

-- The segment up to its "#", if it has one.
abbrev pub before_key : Str → Str
before_key s = elim (index_of b'#' s) [ none ↦ s | some i ↦ take i s ]

abbrev pub worker_or : Str → Str
worker_or s = if is_worker s then worker_name else s

-- One segment of `templatePath`.
unfoldable pub template_segment : Str → Str
template_segment s = worker_or (strip_generation (before_key s))

-- The test of the early return in `templatePath`.
abbrev pub is_plain : Str → Bool
is_plain p = not (has_char b'#' p) && not (has_char b'~' p) && not (includes worker_prefix p)

-- The computation that the cache stands in front of.
unfoldable pub template_of : Str → Str
template_of p = join b'.' (map template_segment (split b'.' p))

-- templatePath without its cache
unfoldable pub template_path : Str → Str
template_path p = if is_plain p then p else template_of p

unfoldable pub parent_path : Str → Option Str
parent_path p = elim (last_index_of b'.' p) [ none ↦ none | some dot ↦ some (take dot p) ]

unfoldable pub child_path : Str → Str → Str
child_path parent id = parent ++ b'.' ∷ id

unfoldable pub sibling_path : Str → Str → Str
sibling_path p target = elim (parent_path p) [
  | none ↦ target
  | some parent ↦ child_path parent target
]

unfoldable pub under_scope : Str → Str → Bool
under_scope p scope =
    str_eq p scope || starts_with (scope ++ text ".") p || starts_with (scope ++ text "#") p

-- Is the last "#" behind the last "."?
abbrev pub key_is_last : Str → Bool
key_is_last p = ltb (rank_of (last_index_of b'.' p)) (rank_of (last_index_of b'#' p))

-- path.slice(hash + 1), path.slice(0, hash)
abbrev pub after_hash : Option ℕ → Str → Str
after_hash none p = p
after_hash (some hash) p = drop (suc hash) p

abbrev pub up_to_hash : Option ℕ → Str → Str
up_to_hash none p = p
up_to_hash (some hash) p = take hash p

unfoldable pub last_segment_key : Str → Option Str
last_segment_key p = if key_is_last p then some (after_hash (last_index_of b'#' p) p) else none

unfoldable pub strip_last_key : Str → Str
strip_last_key p = if key_is_last p then up_to_hash (last_index_of b'#' p) p else p

-- One segment of a ref, beside the caller's segment at the same index, if it has one.
abbrev pub instance_segment : Str → Option Str → Str
instance_segment segment none = segment
instance_segment segment (some caller) =
    if str_eq (template_path caller) segment then caller else segment

-- refSegments.map((segment, index) => … callerSegments[index] …)
unfoldable pub instance_segments : List Str → List Str → List Str
instance_segments [] callers = []
instance_segments (s ∷ ss) [] = instance_segment s none ∷ instance_segments ss []
instance_segments (s ∷ ss) (c ∷ cs) = instance_segment s (some c) ∷ instance_segments ss cs

unfoldable pub instance_path_for : Str → Str → Str
instance_path_for ref caller =
    if has_char b'#' caller
    then join b'.' (instance_segments (split b'.' ref) (split b'.' caller))
    else ref

pub record Instance : Type 0 where
  pub container : Str
  pub key : Str

-- The test on `container`: no filter, or the template of this instance's container.
abbrev pub wanted : Option Str → Str → Bool
wanted none container = true
wanted (some c) container = str_eq (template_path container) c

-- The loop of `nearestInstance` on the segments in reverse, the rightmost first. `before` is the
-- rest of the reversed list, so `segments.slice(0, index)` is its reverse.
unfoldable pub nearest_from : Option Str → List Str → Option Instance
nearest_from c [] = none
nearest_from c (segment ∷ before) =
    let outer = nearest_from c before in
    elim (index_of b'#' segment) [
      | none ↦ outer
      | some hash ↦
          let container = join b'.' (reverse before ++ take hash segment ∷ []) in
          if wanted c container
          then some (record { container = container; key = drop (suc hash) segment })
          else outer
    ]

unfoldable pub nearest_instance : Str → Option Str → Option Instance
nearest_instance p c = nearest_from c (reverse (split b'.' p))
