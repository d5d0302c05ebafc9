-- ===== src/Dict.antt =====
-- The objects and Maps of the program with string keys: entries in the order of their insertion,
-- own properties only.
pub mod Laws
pub mod Numbered
use hyperchart.Prelude.{Bool, List, Option, [], false, if◌then◌else◌, none, some, ◌||◌, ◌∷◌}
use hyperchart.Text.{Str, str_eq}

abbrev pub Dict {ℓ} : Type ℓ → Type ℓ
Dict V = List (Str × V)

module _ {ℓ} {V : Type ℓ} where
  -- d[k], map.get(k)
  unfoldable pub lookup : Str → Dict V → Option V
  lookup k [] = none
  lookup k ((j, v) ∷ d) = if str_eq j k then some v else lookup k d

  -- Object.hasOwn(d, k), k in d, map.has(k)
  unfoldable pub has_key : Str → Dict V → Bool
  has_key k [] = false
  has_key k ((j, v) ∷ d) = str_eq j k || has_key k d

  -- d[k] = v: in place if the key is there, else at the end.
  unfoldable pub put : Str → V → Dict V → Dict V
  put k v [] = (k, v) ∷ []
  put k v ((j, w) ∷ d) = let rest = put k v d in if str_eq j k then (j, v) ∷ d else (j, w) ∷ rest

  -- delete d[k]
  unfoldable pub remove : Str → Dict V → Dict V
  remove k [] = []
  remove k ((j, w) ∷ d) = let rest = remove k d in if str_eq j k then rest else (j, w) ∷ rest

  -- Object.keys(d), Object.values(d)
  abbrev pub keys : Dict V → List Str
  keys [] = []
  keys ((k, v) ∷ d) = k ∷ keys d

  abbrev pub values : Dict V → List V
  values [] = []
  values ((k, v) ∷ d) = v ∷ values d

  -- Object.assign(d, more)
  unfoldable pub assign : Dict V → Dict V → Dict V
  assign d [] = d
  assign d ((k, v) ∷ more) = assign (put k v d) more
