-- ===== src/Conf/RoundTrip.antt =====
-- A configuration that is written out as a map, and what parseStruct of nats-mq/conf/parse.go makes of
-- it.
use nats_mq.Prelude.{
  String, ◌≡◌, ◌≢◌, refl, Bool, true, false, List, [], ◌∷◌, some, arith, eq_iff, eq_refl,
}
use nats_mq.Error.{done}
use nats_mq.Message.Narrow.{wrap-Fits}
use nats_mq.Conf.Value.{ConfValue, Entries, entry, find_entry, get}
use nats_mq.Conf.Schema.{
  Elem, text_elem, int_elem, float_elem, Prim, text_prim, int_prim, float_prim, Slot, bool_slot,
  int_slot, float_slot, text_slot, map_slot, prims_slot, structs_slot, struct_slot, Fields,
  no_fields, field, Structs, no_structs, struct,
}
use nats_mq.Conf.Scalars.{
  Conversions, parse_boolean, parse_int, parse_float, parse_string, parse_primitive_array, convert,
  convert_items,
}
use nats_mq.Conf.Parse.{
  parse, turn, parse_struct_items, parse_structs, parse_struct, parse_slot, load_config_from_map,
}
use nats_mq.Conf.Types.{zero_fields, zero_slot}
use nats_mq.Conf.Print.{
  print_slot, print_fields, print_structs, print_prims, HaveType, IsFresh, IsPrintableSlot,
  IsPrintable, ArePrintable,
}

-- The map has each field's value under its name.
abbrev Holds : Fields → Entries → Type 0
Holds no_fields m = Unit
Holds (field name settable slot rest) m =
    (find_entry name m ≡ some (print_slot slot)) × Holds rest m

Holds-entry :
    (fs : Fields) (name : String) (v : ConfValue) (m : Entries)
    → IsFresh name fs
    → Holds fs m
    → Holds fs (entry name v m)
unfolding find_entry
Holds-entry no_fields name v m fresh h = tt
Holds-entry (field other settable slot rest) name v m fresh h =
    (ground (arith, eq_iff name other), Holds-entry rest name v m fresh.1 h.1)

module _ (c : Conversions) where
  Holds-print_fields : (fs : Fields) → IsPrintable c fs → Holds fs (print_fields fs)
  unfolding print_slot IsPrintableSlot find_entry
  Holds-print_fields no_fields h = tt
  Holds-print_fields (field name settable slot rest) h = (
    ground (arith, eq_refl name),
    Holds-entry rest name (print_slot slot) (print_fields rest) h.2 (Holds-print_fields rest h.4),
  )

  turn-print_slot :
      (strict : Bool) (name : String) (slot : Slot) (m : Entries)
      → name ≢ ""
      → IsPrintableSlot c slot
      → find_entry name m ≡ some (print_slot slot)
      → turn strict true name m ≡ parse (print_slot slot)
  unfolding turn get print_slot IsPrintableSlot
  turn-print_slot strict name (bool_slot b) m ne p e = ground (arith, eq_iff name "")
  turn-print_slot strict name slot m ne p e = ground (arith, eq_iff name "")

  convert_items-print_prims :
      (name : String) (e : Elem) (ps : List Prim)
      → HaveType e ps
      → convert_items c name e (print_prims e ps) ≡ done ps
  unfolding convert_items convert
  convert_items-print_prims name e [] h = refl
  convert_items-print_prims name text_elem (text_prim s ∷ ps) h =
      ground (arith, convert_items-print_prims name text_elem ps)
  convert_items-print_prims name (int_elem half) (int_prim z ∷ ps) h =
      ground (arith, convert_items-print_prims name (int_elem half) ps, wrap-Fits half z)
  convert_items-print_prims name (float_elem true) (float_prim b ∷ ps) h =
      ground (arith, convert_items-print_prims name (float_elem true) ps)
  convert_items-print_prims name (float_elem false) (float_prim b ∷ ps) h =
      ground (arith, convert_items-print_prims name (float_elem false) ps)
  convert_items-print_prims name e (p ∷ ps) h = absurd h.0

  module _ (strict : Bool) where
    mutual
      unfolding parse_struct zero_slot print_slot IsPrintableSlot parse_boolean parse_int
          parse_float parse_string parse_primitive_array parse_structs parse_struct_items

      parse_struct-held :
          (fs : Fields) (m : Entries)
          → IsPrintable c fs
          → Holds fs m
          → parse_struct c strict (zero_fields fs) m ≡ (done tt, fs)
      parse_struct-held no_fields m p h = refl
      parse_struct-held (field name true slot rest) m p h = rw (
        turn-print_slot strict name slot m p.1 p.3 h.0,
        parse_slot-print_slot slot name p.3,
        parse_struct-held rest m p.4 h.1,
      )
      parse_struct-held (field name false slot rest) m p h = cc

      parse_slot-print_slot :
          (slot : Slot) (name : String)
          → IsPrintableSlot c slot
          → parse_slot c strict (zero_slot slot) name (print_slot slot) ≡ (done tt, slot)
      parse_slot-print_slot (bool_slot b) name p = refl
      parse_slot-print_slot (int_slot half z) name p = ground (arith, wrap-Fits half z)
      parse_slot-print_slot (float_slot true b) name p = ground arith
      parse_slot-print_slot (float_slot false b) name p = refl
      parse_slot-print_slot (text_slot s) name p = refl
      parse_slot-print_slot (map_slot assignable m) name p = ground arith
      parse_slot-print_slot (prims_slot e ps) name p = rw (convert_items-print_prims name e ps p)
      parse_slot-print_slot (structs_slot zero_value ss) name p =
          rw (parse_struct_items-print_structs ss zero_value p)
      parse_slot-print_slot (struct_slot fs) name p =
          rw (parse_struct-held fs (print_fields fs) p (Holds-print_fields fs p))
      parse_slot-print_slot slot name p = absurd p

      parse_struct_items-print_structs :
          (ss : Structs) (zero_value : Fields)
          → ArePrintable c zero_value ss
          → parse_struct_items (parse_struct c strict zero_value) (print_structs ss) ≡ done ss
      parse_struct_items-print_structs no_structs zero_value p = refl
      parse_struct_items-print_structs (struct fs ss) zero_value p =
          rw (← p.0, parse_struct-held fs (print_fields fs) p.1 (Holds-print_fields fs p.1))
            (rw (parse_struct_items-print_structs ss zero_value p.2))

    -- A printable struct that is written out as a map and loaded into the zero value of its type, in
    -- strict mode or not, gives the struct back, with no error.
    pub load_config_from_map-print_fields :
        (fs : Fields)
        → IsPrintable c fs
        → load_config_from_map c strict (print_fields fs) (zero_fields fs) ≡ (done tt, fs)
    unfolding load_config_from_map
    load_config_from_map-print_fields fs p =
        parse_struct-held fs (print_fields fs) p (Holds-print_fields fs p)
