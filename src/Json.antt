-- ===== src/Json.antt =====
-- JSON values as durable records hold them, and their comparison, `sameRecordedValue` of
-- packages/hyperchart/src/core/projection.ts. A number stands as its canonical JSON text, so equal
-- numbers are equal texts; NaN and -0 have no JSON text. `undefined` is the value of a property that
-- is there with no value.
use hyperchart.Prelude.{
  Bool, List, Option, [], false, if◌then◌else◌, length, none, not, some, true, ◌&&◌, ◌==◌, ◌∷◌,
}
use hyperchart.Dict.{Dict}
use hyperchart.Text.{Str, str_eq}

mutual
  pub data Json : Type 0 where
    null : Json
    undefined : Json
    bool : Bool → Json
    num : Str → Json
    str : Str → Json
    arr : Items → Json
    obj : Fields → Json

  pub data Items : Type 0 where
    nil : Items
    cons : Json → Items → Items

  pub data Fields : Type 0 where
    end : Fields
    field : Str → Json → Fields → Fields

abbrev pub items : Items → List Json
items nil = []
items (cons v vs) = v ∷ items vs

abbrev pub fields : Fields → Dict Json
fields end = []
fields (field k v fs) = (k, v) ∷ fields fs

-- a[k] of an object
abbrev pub field_of : Str → Fields → Option Json
field_of k end = none
field_of k (field j v fs) = if str_eq j k then some v else field_of k fs

abbrev pub same_bool : Bool → Bool → Bool
same_bool true b = b
same_bool false b = not b

-- The test of one value against a lookup: Object.hasOwn(b, key) && sameRecordedValue(a[key], b[key]).
abbrev pub against : (Json → Bool) → Option Json → Bool
against test none = false
against test (some w) = test w

-- left.every((value, index) => …) and keys.every((key) => …) are the two list functions.
unfoldable mutual
  pub same_recorded_value : Json → Json → Bool
  same_recorded_value null null = true
  same_recorded_value undefined undefined = true
  same_recorded_value (bool a) (bool b) = same_bool a b
  same_recorded_value (num a) (num b) = str_eq a b
  same_recorded_value (str a) (str b) = str_eq a b
  same_recorded_value (arr xs) (arr ys) = length (items xs) == length (items ys) && same_items xs ys
  same_recorded_value (obj fs) (obj gs) =
      length (fields fs) == length (fields gs) && same_fields fs gs
  same_recorded_value _ _ = false

  pub same_items : Items → Items → Bool
  same_items nil ys = true
  same_items (cons x xs) nil = false
  same_items (cons x xs) (cons y ys) = same_recorded_value x y && same_items xs ys

  pub same_fields : Fields → Fields → Bool
  same_fields end gs = true
  same_fields (field k v fs) gs =
      against (same_recorded_value v) (field_of k gs) && same_fields fs gs
