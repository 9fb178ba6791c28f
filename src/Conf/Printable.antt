-- ===== src/Conf/Printable.antt =====
-- How a struct is shown to be printable field by field.
use nats_mq.Prelude.{
  String, ◌≡◌, refl, Bool, true, false, List, arith, str_eq, eq_iff, if◌then◌else◌,
}
use nats_mq.Prelude.Int.{ℤ, Fits}
use nats_mq.Conf.Schema.{
  Slot, int_slot, text_slot, bool_slot, struct_slot, prims_slot, structs_slot, Elem, Prim, Structs,
  Fields, no_fields, field,
}
use nats_mq.Conf.Scalars.{Conversions}
use nats_mq.Conf.Print.{HaveType, IsFresh, IsPrintableSlot, IsPrintable, ArePrintable}

abbrev pub is_fresh : String → Fields → Bool
is_fresh name no_fields = true
is_fresh name (field other settable slot rest) =
    let later = is_fresh name rest in if str_eq name other then false else later

IsFresh-of : (name : String) (fs : Fields) → is_fresh name fs ≡ true → IsFresh name fs
IsFresh-of name no_fields h = tt
IsFresh-of name (field other settable slot rest) h =
    (ground (arith, eq_iff name other), IsFresh-of name rest (ground arith))

-- The value of an int or int64.
abbrev pub IsInt64 : ℤ → Type 0
IsInt64 z = Fits 9223372036854775808 z

module _ (conv : Conversions) where
  pub IsPrintable-field :
      (name : String) (slot : Slot) (rest : Fields)
      → str_eq name "" ≡ false
      → is_fresh name rest ≡ true
      → IsPrintableSlot conv slot
      → IsPrintable conv rest
      → IsPrintable conv (field name true slot rest)
  unfolding IsPrintableSlot
  IsPrintable-field name slot rest n f s r =
      (refl, ground (arith, eq_iff name ""), IsFresh-of name rest f, s, r)

  pub int-IsPrintable :
      (name : String) (z : ℤ) (rest : Fields)
      → str_eq name "" ≡ false
      → is_fresh name rest ≡ true
      → IsInt64 z
      → IsPrintable conv rest
      → IsPrintable conv (field name true (int_slot 9223372036854775808 z) rest)
  unfolding IsPrintableSlot
  int-IsPrintable name z rest n f h r =
      IsPrintable-field name (int_slot 9223372036854775808 z) rest n f h r

  pub text-IsPrintable :
      (name : String) (s : String) (rest : Fields)
      → str_eq name "" ≡ false
      → is_fresh name rest ≡ true
      → IsPrintable conv rest
      → IsPrintable conv (field name true (text_slot s) rest)
  unfolding IsPrintableSlot
  text-IsPrintable name s rest n f r = IsPrintable-field name (text_slot s) rest n f tt r

  pub bool-IsPrintable :
      (name : String) (b : Bool) (rest : Fields)
      → str_eq name "" ≡ false
      → is_fresh name rest ≡ true
      → IsPrintable conv rest
      → IsPrintable conv (field name true (bool_slot b) rest)
  unfolding IsPrintableSlot
  bool-IsPrintable name b rest n f r = IsPrintable-field name (bool_slot b) rest n f tt r

  pub struct-IsPrintable :
      (name : String) (fs : Fields) (rest : Fields)
      → str_eq name "" ≡ false
      → is_fresh name rest ≡ true
      → IsPrintable conv fs
      → IsPrintable conv rest
      → IsPrintable conv (field name true (struct_slot fs) rest)
  unfolding IsPrintableSlot
  struct-IsPrintable name fs rest n f h r = IsPrintable-field name (struct_slot fs) rest n f h r

  pub end-IsPrintable : IsPrintable conv no_fields
  unfolding IsPrintableSlot
  end-IsPrintable = tt

  pub prims-IsPrintable :
      (name : String) (e : Elem) (ps : List Prim) (rest : Fields)
      → str_eq name "" ≡ false
      → is_fresh name rest ≡ true
      → HaveType e ps
      → IsPrintable conv rest
      → IsPrintable conv (field name true (prims_slot e ps) rest)
  unfolding IsPrintableSlot
  prims-IsPrintable name e ps rest n f h r = IsPrintable-field name (prims_slot e ps) rest n f h r

  pub structs-IsPrintable :
      (name : String) (zero_value : Fields) (ss : Structs) (rest : Fields)
      → str_eq name "" ≡ false
      → is_fresh name rest ≡ true
      → ArePrintable conv zero_value ss
      → IsPrintable conv rest
      → IsPrintable conv (field name true (structs_slot zero_value ss) rest)
  unfolding IsPrintableSlot
  structs-IsPrintable name zero_value ss rest n f h r =
      IsPrintable-field name (structs_slot zero_value ss) rest n f h r
