-- ===== src/Conf/Print.antt =====
-- A configuration struct written out as a configuration map, and which structs the parser of
-- nats-mq/conf/parse.go can read back.
use nats_mq.Prelude.{ℕ, String, ◌≡◌, ◌≢◌, Bool, true, false, List, [], ◌∷◌}
use nats_mq.Prelude.Int.{Fits}
use nats_mq.Conf.Value.{
  ConfValue, null, bool, text, integer, int64, float32, float64, list, map, Items, no_items, item,
  Entries, no_entries, entry,
}
use nats_mq.Conf.Schema.{
  Elem, text_elem, int_elem, float_elem, Prim, text_prim, int_prim, float_prim, Slot, bool_slot,
  int_slot, float_slot, text_slot, map_slot, prims_slot, structs_slot, struct_slot, Fields,
  no_fields, field, Structs, no_structs, struct,
}
use nats_mq.Conf.Scalars.{Conversions}
use nats_mq.Conf.Types.{zero_fields}

abbrev pub print_float : Bool → ℕ → ConfValue
print_float true b = float32 b
print_float false b = float64 b

abbrev pub print_prim : Elem → Prim → ConfValue
print_prim e (text_prim s) = text s
print_prim e (int_prim z) = integer int64 z
print_prim (float_elem is32) (float_prim b) = print_float is32 b
print_prim e (float_prim b) = float64 b

abbrev pub print_prims : Elem → List Prim → Items
print_prims e [] = no_items
print_prims e (p ∷ ps) = item (print_prim e p) (print_prims e ps)

unfoldable mutual
  pub print_slot : Slot → ConfValue
  print_slot (bool_slot b) = bool b
  print_slot (int_slot half z) = integer int64 z
  print_slot (float_slot is32 b) = print_float is32 b
  print_slot (text_slot s) = text s
  print_slot (map_slot assignable m) = map m
  print_slot (prims_slot e ps) = list (print_prims e ps)
  print_slot (structs_slot zero_value ss) = list (print_structs ss)
  print_slot (struct_slot fs) = map (print_fields fs)
  print_slot _ = null

  pub print_fields : Fields → Entries
  print_fields no_fields = no_entries
  print_fields (field name settable slot rest) = entry name (print_slot slot) (print_fields rest)

  pub print_structs : Structs → Items
  print_structs no_structs = no_items
  print_structs (struct fs ss) = item (map (print_fields fs)) (print_structs ss)

abbrev pub HasType : Elem → Prim → Type 0
HasType text_elem (text_prim s) = Unit
HasType (int_elem half) (int_prim z) = Fits half z
HasType (float_elem is32) (float_prim b) = Unit
HasType _ _ = ⊥

abbrev pub HaveType : Elem → List Prim → Type 0
HaveType e [] = Unit
HaveType e (p ∷ ps) = HasType e p × HaveType e ps

-- No field has this name.
abbrev pub IsFresh : String → Fields → Type 0
IsFresh name no_fields = Unit
IsFresh name (field other settable slot rest) = (name ≢ other) × IsFresh name rest

module _ (c : Conversions) where
  -- Every field can be set, is of a type that the parser knows, other than a HostPort, and has a value
  -- of its type; the names are not empty and differ; elements have their slice's type.
  unfoldable mutual
    pub IsPrintableSlot : Slot → Type 0
    IsPrintableSlot (bool_slot b) = Unit
    IsPrintableSlot (int_slot half z) = Fits half z
    IsPrintableSlot (float_slot true b) = c.narrow (c.widen b) ≡ b
    IsPrintableSlot (float_slot false b) = Unit
    IsPrintableSlot (text_slot s) = Unit
    IsPrintableSlot (map_slot assignable m) = assignable ≡ true
    IsPrintableSlot (prims_slot e ps) = HaveType e ps
    IsPrintableSlot (structs_slot zero_value ss) = ArePrintable zero_value ss
    IsPrintableSlot (struct_slot fs) = IsPrintable fs
    IsPrintableSlot _ = ⊥

    pub IsPrintable : Fields → Type 0
    IsPrintable no_fields = Unit
    IsPrintable (field name settable slot rest) =
        (settable ≡ true)
        × (name ≢ "")
        × IsFresh name rest
        × IsPrintableSlot slot
        × IsPrintable rest

    pub ArePrintable : Fields → Structs → Type 0
    ArePrintable zero_value no_structs = Unit
    ArePrintable zero_value (struct fs ss) =
        (zero_fields fs ≡ zero_value) × IsPrintable fs × ArePrintable zero_value ss
