-- ===== src/Engine/Delegation/Canonical.antt =====
-- The canonical form of a value, whose JSON text is hashed: the fields of every object in the order
-- of their names. JSON and SHA-256 are the runtime's: `json_sha256` is the digest of a value's text.
use digital_employee.Common.{String, List, [], ◌∷◌, if◌then◌else◌, str_eq}
use digital_employee.Common.Text.{string_le}
use digital_employee.Common.Value.{Value, Fields, Items}

-- A field at its place among sorted fields.
unfoldable pub insert_field : String → Value → Fields → Fields
insert_field k v Fields.end = Fields.field k v Fields.end
insert_field k v (Fields.field j w fs) =
    let rest = insert_field k v fs in
    if string_le k j then Fields.field k v (Fields.field j w fs) else Fields.field j w rest

unfoldable mutual
  pub canonical_value : Value → Value
  canonical_value (Value.obj fs) = Value.obj (canonical_fields fs)
  canonical_value (Value.arr items) = Value.arr (canonical_items items)
  canonical_value Value.undefined = Value.undefined
  canonical_value Value.null = Value.null
  canonical_value Value.other_num = Value.other_num
  canonical_value (Value.bool b) = Value.bool b
  canonical_value (Value.num n) = Value.num n
  canonical_value (Value.str s) = Value.str s

  pub canonical_fields : Fields → Fields
  canonical_fields Fields.end = Fields.end
  canonical_fields (Fields.field k v fs) = insert_field k (canonical_value v) (canonical_fields fs)

  pub canonical_items : Items → Items
  canonical_items Items.nil = Items.nil
  canonical_items (Items.cons v items) = Items.cons (canonical_value v) (canonical_items items)

unfoldable pub without_field : String → Fields → Fields
without_field k Fields.end = Fields.end
without_field k (Fields.field j v fs) =
    let rest = without_field k fs in if str_eq j k then rest else Fields.field j v rest

-- An object and an array as values.
unfoldable pub fields_of : List (String × Value) → Fields
fields_of [] = Fields.end
fields_of ((k, v) ∷ rest) = Fields.field k v (fields_of rest)

unfoldable pub texts : List String → Items
texts [] = Items.nil
texts (s ∷ rest) = Items.cons (Value.str s) (texts rest)

module _ (json_sha256 : Value → String) where
  unfoldable pub compute_canonical_digest : Value → String
  compute_canonical_digest value = json_sha256 (canonical_value value)

  unfoldable pub compute_delegation_envelope_digest : Fields → String
  compute_delegation_envelope_digest body =
      compute_canonical_digest (Value.obj (without_field "envelopeDigest" body))
