-- ===== src/Json/Snapshot.antt =====
-- src/core/crypto/canonical.ts: `immutableSnapshot` of a value, by way of its JSON. A number that is
-- not finite becomes `null`; what JSON does not have is dropped from a record, becomes `null` in an
-- array, and stays `undefined` by itself.
use Prim.Native.String.{String}
use openkedge.Prelude.{◌≡◌, refl, ap, Option, none, some, List, [], ◌∷◌}
use openkedge.Json.{
  int, non_finite, Value, null, exotic, bool, num, str, arr, obj, Items, nil, cons, Fields, end,
  field,
}

unfoldable mutual
  pub snapshot_value : Value → Value
  snapshot_value null = null
  snapshot_value exotic = exotic
  snapshot_value (obj fs) = obj (snapshot_fields fs)
  snapshot_value (arr xs) = arr (snapshot_items xs)
  snapshot_value (str s) = str s
  snapshot_value (num (int z)) = num (int z)
  snapshot_value (num non_finite) = null
  snapshot_value (bool b) = bool b

  pub snapshot_fields : Fields → Fields
  snapshot_fields end = end
  snapshot_fields (field k exotic rest) = snapshot_fields rest
  snapshot_fields (field k v rest) = field k (snapshot_value v) (snapshot_fields rest)

  pub snapshot_items : Items → Items
  snapshot_items nil = nil
  snapshot_items (cons exotic rest) = cons null (snapshot_items rest)
  snapshot_items (cons v rest) = cons (snapshot_value v) (snapshot_items rest)

-- An optional property.
unfoldable pub snapshot_option : Option Value → Option Value
unfolding snapshot_value
snapshot_option none = none
snapshot_option (some exotic) = none
snapshot_option (some v) = some (snapshot_value v)

-- The properties of a record, as a list.
unfoldable pub snapshot_entries : List (String × Value) → List (String × Value)
unfolding snapshot_value
snapshot_entries [] = []
snapshot_entries ((k, exotic) ∷ rest) = snapshot_entries rest
snapshot_entries ((k, v) ∷ rest) = (k, snapshot_value v) ∷ snapshot_entries rest

-- A record that is not JSON all through.
snapshot_value_test :
    snapshot_value (
      obj (
        field "a"
          (num non_finite)
          (field "b" exotic (field "c" (arr (cons exotic (cons (str "x") nil))) end))))
    ≡ obj (field "a" null (field "c" (arr (cons null (cons (str "x") nil))) end))
unfolding snapshot_value
snapshot_value_test = refl

-- The snapshot of a snapshot is that snapshot.
mutual
  unfolding snapshot_value

  pub snapshot_value_idem : (v : Value) → snapshot_value (snapshot_value v) ≡ snapshot_value v
  snapshot_value_idem (obj fs) = ap obj (snapshot_fields_idem fs)
  snapshot_value_idem (arr xs) = ap arr (snapshot_items_idem xs)
  snapshot_value_idem (num (int z)) = refl
  snapshot_value_idem (num non_finite) = refl
  snapshot_value_idem null = refl
  snapshot_value_idem exotic = refl
  snapshot_value_idem (str s) = refl
  snapshot_value_idem (bool b) = refl

  snapshot_fields_idem : (fs : Fields) → snapshot_fields (snapshot_fields fs) ≡ snapshot_fields fs
  snapshot_fields_idem end = refl
  snapshot_fields_idem (field k exotic rest) = snapshot_fields_idem rest
  snapshot_fields_idem (field k (num (int z)) rest) =
      ap (field k (num (int z))) (snapshot_fields_idem rest)
  snapshot_fields_idem (field k (num non_finite) rest) =
      ap (field k null) (snapshot_fields_idem rest)
  snapshot_fields_idem (field k v rest) = cc (snapshot_value_idem v, snapshot_fields_idem rest)

  snapshot_items_idem : (xs : Items) → snapshot_items (snapshot_items xs) ≡ snapshot_items xs
  snapshot_items_idem nil = refl
  snapshot_items_idem (cons exotic rest) = ap (cons null) (snapshot_items_idem rest)
  snapshot_items_idem (cons (num (int z)) rest) = ap (cons (num (int z))) (snapshot_items_idem rest)
  snapshot_items_idem (cons (num non_finite) rest) = ap (cons null) (snapshot_items_idem rest)
  snapshot_items_idem (cons v rest) = cc (snapshot_value_idem v, snapshot_items_idem rest)
