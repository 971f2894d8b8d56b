-- ===== src/Canonical/Normal.antt =====
-- A JSON value with the keys of every object in the order of its canonical text. Values that differ only
-- in the order in which keys were set have one such form.
use consequence_rail.Base.{String, if◌then◌else◌}
use consequence_rail.Json.{
  Json, null, bool, num, str, arr, obj, Items, nil, cons, Fields, end, field,
}
use consequence_rail.Canonical.{key_before}

unfoldable pub insert_field : String → Json → Fields → Fields
unfolding key_before
insert_field k v end = field k v end
insert_field k v (field j w fs) =
    if key_before k j then field k v (field j w fs) else field j w (insert_field k v fs)

unfoldable mutual
  pub normal : Json → Json
  normal null = null
  normal (bool b) = bool b
  normal (num n) = num n
  normal (str s) = str s
  normal (arr vs) = arr (normal_items vs)
  normal (obj fs) = obj (normal_fields fs)

  pub normal_items : Items → Items
  normal_items nil = nil
  normal_items (cons v vs) = cons (normal v) (normal_items vs)

  pub normal_fields : Fields → Fields
  normal_fields end = end
  normal_fields (field k v fs) = insert_field k (normal v) (normal_fields fs)
