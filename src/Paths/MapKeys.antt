-- ===== src/Paths/MapKeys.antt =====
-- The order of a map's instance keys, `canonicalMapKeys` of
-- packages/hyperchart/src/core/paths.ts: indexes first, by their value, then the other keys as strings.
use hyperchart.Prelude.{
  Bool, List, [], all, false, if◌then◌else◌, leb, length, ltb, true, ℕ, ◌&&◌, ◌==◌, ◌||◌, ◌∷◌,
}
use hyperchart.Dict.{Dict, keys}
use hyperchart.Text.{Str}

-- /\d/
abbrev is_digit : ℕ → Bool
is_digit c = leb b'0' c && leb c b'9'

-- /^(0|[1-9]\d*)$/.test(s)
abbrev pub is_index : Str → Bool
is_index [] = false
is_index (c ∷ s) = if c == b'0' then is_none s else is_digit c && all is_digit s
  where
    is_none : Str → Bool
    is_none [] = true
    is_none (x ∷ t) = false

-- left < right on strings: by code units.
abbrev pub str_lt : Str → Str → Bool
str_lt s [] = false
str_lt [] (y ∷ t) = true
str_lt (x ∷ s) (y ∷ t) = ltb x y || x == y && str_lt s t

-- Two indexes: the shorter one is smaller, and of one length the text decides.
abbrev index_before : Str → Str → Bool
index_before s t = ltb (length s) (length t) || length s == length t && str_lt s t

-- The comparator returns a negative number.
unfoldable pub key_before : Str → Str → Bool
key_before s t =
    if is_index s
    then (if is_index t then index_before s t else true)
    else (if is_index t then false else str_lt s t)

-- A stable sort: `x` goes in front of the first key that is not before it.
unfoldable pub insert_key : Str → List Str → List Str
insert_key x [] = x ∷ []
insert_key x (y ∷ ys) =
    let rest = insert_key x ys in if key_before y x then y ∷ rest else x ∷ y ∷ ys

unfoldable pub sort_keys : List Str → List Str
sort_keys [] = []
sort_keys (x ∷ xs) = insert_key x (sort_keys xs)

unfoldable pub canonical_map_keys {ℓ} : {V : Type ℓ} → Dict V → List Str
canonical_map_keys instances = sort_keys (keys instances)
