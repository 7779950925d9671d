-- ===== src/Json.antt =====
-- src/core/crypto/canonical.ts: the values that the runtime handles, `isRecord` and `readPath`.
-- A JavaScript value is a tree. A missing value (`undefined`) is `none`; what JSON leaves out (a
-- function, a symbol, `undefined` where a value has to stand) is `exotic`. Bigints and instances of
-- classes are not modelled. Numbers are the integers and one
-- value for all that is not finite; fractions are not modelled.
pub mod Canonical
pub mod Snapshot
use Prim.Native.String.{String}
use openkedge.Prelude.Int.{ℤ, pos}
use openkedge.Prelude.{
  ℕ, suc, Bool, true, false, not, ◌||◌, Option, none, some, List, [], ◌∷◌, Result, ok, err, any,
  ◌==◌, string_eq, ◌≡◌, refl, contains, concat, decimal, split_dots, if◌then◌else◌,
}

pub data Number : Type 0 where
  int : ℤ → Number
  non_finite : Number

mutual
  pub data Value : Type 0 where
    null exotic : Value
    obj : Fields → Value
    arr : Items → Value
    str : String → Value
    num : Number → Value
    bool : Bool → Value

  pub data Fields : Type 0 where
    field : String → Value → Fields → Fields
    end : Fields

  pub data Items : Type 0 where
    cons : Value → Items → Items
    nil : Items

abbrev pub nat : ℕ → Value
nat n = num (int (pos n))

abbrev pub fields : List (String × Value) → Value
fields l = obj (of l)
  where
    of : List (String × Value) → Fields
    of [] = end
    of ((k, v) ∷ rest) = field k v (of rest)

unfoldable pub is_record : Value → Bool
is_record (obj fs) = true
is_record _ = false

-- The own property `key` of a record.
unfoldable pub own_field : String → Fields → Option Value
own_field key end = none
own_field key (field k v rest) = if k == key then some v else own_field key rest

-- The own property `key` of an array: an index in decimal, or the length.
own_item : String → ℕ → Items → Option Value
own_item key i nil = if key == "length" then some (nat i) else none
own_item key i (cons v rest) = if key == decimal i then some v else own_item key (suc i) rest

-- One step of the loop of `readPath`.
unfoldable pub own_property : String → Value → Option Value
unfolding own_item own_field
own_property key (obj fs) = own_field key fs
own_property key (arr xs) = own_item key 0 xs
own_property key _ = none

unfoldable pub read_keys : List String → Value → Option Value
unfolding own_property
read_keys [] value = some value
read_keys (key ∷ rest) value = elim (own_property key value) [
  | none ↦ none
  | some next ↦ read_keys rest next
]

abbrev forbidden_keys : List String
forbidden_keys = "__proto__" ∷ "constructor" ∷ "prototype" ∷ []

abbrev invalid_key : String → Bool
invalid_key key = key == "" || contains key forbidden_keys

unfoldable pub invalid_path : String → Bool
unfolding split_dots
invalid_path path = path == "" || any invalid_key (split_dots path)

-- `readPath`: a malformed path throws, a missing property is `undefined`.
unfoldable pub read_path : Option Value → String → Result String (Option Value)
unfolding invalid_path read_keys
read_path value path =
    if invalid_path path
    then err (concat ("Invalid attribute path: " ∷ path ∷ []))
    else ok (elim value [ none ↦ none | some v ↦ read_keys (split_dots path) v ])

read_path_test :
    read_path (some (fields (("result", fields (("cost", nat 7) ∷ [])) ∷ []))) "result.cost"
    ≡ ok (some (nat 7))
unfolding read_path
read_path_test = refl
