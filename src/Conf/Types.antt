-- ===== src/Conf/Types.antt =====
-- The types of the fields that nats-mq/conf/parse.go fills.
use native.Mathlib.Nat.{mod-lt}
use nats_mq.Prelude.{ℕ, ◌≤◌, ◌*◌, List, ◌∷◌, String, ◌≡◌, refl, ap, Bool, true, false, [], arith}
use nats_mq.Prelude.Int.{ℤ, pos, negsuc, Fits, wrap}
use nats_mq.Error.{Outcome, done, fails, panics, ◌>>=◌}
use nats_mq.Conf.Value.{
  ConfValue, list, map, integer, unsigned, float32, float64, Items, no_items, item, Entries,
  no_entries,
}
use nats_mq.Conf.Schema.{
  Elem, text_elem, int_elem, float_elem, Prim, int_prim, Slot, bool_slot, int_slot, float_slot,
  text_slot, map_slot, prims_slot, host_ports_slot, structs_slot, host_port_slot, struct_slot,
  other_slice, other_slot, Fields, no_fields, field, Structs, no_structs, struct,
}
use nats_mq.Conf.Scalars.{Conversions, parse_int, convert, convert_items, parse_primitive_array}
use nats_mq.Conf.Parse.{
  Parsed, Turn, skip, refuse, parse, turn, set_slot, take_turn, parsed_struct, parse_struct_items,
  parse_structs, parse_nested, parse_struct, parse_slot,
}

-- The zero value of a type: what reflect.New makes.
unfoldable mutual
  pub zero_slot : Slot → Slot
  zero_slot (bool_slot b) = bool_slot false
  zero_slot (int_slot half z) = int_slot half (pos 0)
  zero_slot (float_slot is32 b) = float_slot is32 0
  zero_slot (text_slot s) = text_slot ""
  zero_slot (map_slot assignable m) = map_slot assignable no_entries
  zero_slot (prims_slot e ps) = prims_slot e []
  zero_slot (host_ports_slot hps) = host_ports_slot []
  zero_slot (structs_slot zero_value ss) = structs_slot zero_value no_structs
  zero_slot (host_port_slot hp) = host_port_slot (record { host = ""; port = pos 0 })
  zero_slot (struct_slot fs) = struct_slot (zero_fields fs)
  zero_slot other_slice = other_slice
  zero_slot other_slot = other_slot

  pub zero_fields : Fields → Fields
  zero_fields no_fields = no_fields
  zero_fields (field name settable slot rest) =
      field name settable (zero_slot slot) (zero_fields rest)

-- An element of an integer type is in its range.
abbrev pub PrimFits : Elem → Prim → Type 0
PrimFits (int_elem half) (int_prim z) = (1 ≤ half) × Fits half z
PrimFits (int_elem half) _ = ⊥
PrimFits text_elem p = Unit
PrimFits (float_elem is32) p = Unit

-- An integer type of any size has the values from -half to half - 1, and half is not 0.
abbrev pub ElemFits : Elem → Type 0
ElemFits (int_elem half) = 1 ≤ half
ElemFits _ = Unit

abbrev pub PrimsFit : Elem → List Prim → Type 0
PrimsFit e [] = Unit
PrimsFit e (p ∷ ps) = PrimFits e p × PrimsFit e ps

-- Every integer is in the range of its field, also in a slice, and every element of a slice of structs
-- has the slice's element type.
unfoldable mutual
  pub IsTypedSlot : Slot → Type 0
  IsTypedSlot (int_slot half z) = (1 ≤ half) × Fits half z
  IsTypedSlot (prims_slot e ps) = ElemFits e × PrimsFit e ps
  IsTypedSlot (structs_slot zero_value ss) = IsTypedFields zero_value × AreTyped zero_value ss
  IsTypedSlot (struct_slot fs) = IsTypedFields fs
  IsTypedSlot _ = Unit

  pub IsTypedFields : Fields → Type 0
  IsTypedFields no_fields = Unit
  IsTypedFields (field name settable slot rest) = IsTypedSlot slot × IsTypedFields rest

  pub AreTyped : Fields → Structs → Type 0
  AreTyped zero_value no_structs = Unit
  AreTyped zero_value (struct fs ss) =
      (zero_fields fs ≡ zero_fields zero_value) × IsTypedFields fs × AreTyped zero_value ss

take_turn-keeps_type :
    (name : String) (settable : Bool) (slot : Slot) (rest : Fields)
    (switch : ConfValue → Parsed Slot) (after : Parsed Fields) (t : Turn)
    → ((v : ConfValue) → zero_slot (switch v).1 ≡ zero_slot slot)
    → zero_fields after.1 ≡ zero_fields rest
    → zero_fields (take_turn name settable slot rest switch after t).1
      ≡ zero_fields (field name settable slot rest)
unfolding zero_slot
take_turn-keeps_type name settable slot rest switch after skip kept rest_kept = ground arith
take_turn-keeps_type name settable slot rest switch after (refuse e) kept rest_kept = refl
take_turn-keeps_type name settable slot rest switch after (parse v) kept rest_kept =
    ground (arith, kept v)

parse_nested-keeps_type :
    (p : Entries → Parsed Fields) (name : String) (old : Fields) (v : ConfValue)
    → ((m : Entries) → zero_fields (p m).1 ≡ zero_fields old)
    → zero_slot (parse_nested p name old v).1 ≡ zero_slot (struct_slot old)
unfolding zero_slot
parse_nested-keeps_type p name old (map m) kept = ap struct_slot (kept m)
parse_nested-keeps_type p name old v kept = refl

module _ (c : Conversions) (strict : Bool) where
  mutual
    unfolding parse_struct zero_slot

    zero_fields-parse_struct :
        (fs : Fields) (m : Entries) → zero_fields (parse_struct c strict fs m).1 ≡ zero_fields fs
    zero_fields-parse_struct no_fields m = refl
    zero_fields-parse_struct (field name settable slot rest) m =
        take_turn-keeps_type name settable slot rest _ _ (turn strict settable name m)
          (zero_slot-parse_slot slot name) (zero_fields-parse_struct rest m)

    zero_slot-parse_slot :
        (slot : Slot) (name : String) (v : ConfValue)
        → zero_slot (parse_slot c strict slot name v).1 ≡ zero_slot slot
    zero_slot-parse_slot (struct_slot old) name v =
        parse_nested-keeps_type (parse_struct c strict old) name old v
          (zero_fields-parse_struct old)
    zero_slot-parse_slot slot name v = ground arith

wrap-in_range : (half : ℕ) (z : ℤ) → 1 ≤ half → Fits half (wrap half z)
wrap-in_range half (pos n) h = ground (arith, mod-lt n {m = 2 * half} (omega (arith, h)))
wrap-in_range half (negsuc n) h = ground (arith, mod-lt n {m = 2 * half} (omega (arith, h)))

set_int-IsTypedSlot :
    (half : ℕ) (old : ℤ) (o : Outcome ℤ)
    → IsTypedSlot (int_slot half old)
    → IsTypedSlot (set_slot (int_slot half old) (λ z. int_slot half (wrap half z)) o).1
unfolding IsTypedSlot
set_int-IsTypedSlot half old (done z) h = (h.0, wrap-in_range half z h.0)
set_int-IsTypedSlot half old (fails e) h = h
set_int-IsTypedSlot half old panics h = h

-- Prims that were converted to an element type.
abbrev PrimsOutcome : Elem → Outcome (List Prim) → Type 0
PrimsOutcome e (done ps) = PrimsFit e ps
PrimsOutcome e _ = Unit

abbrev PrimOutcome : Elem → Outcome Prim → Type 0
PrimOutcome e (done p) = PrimFits e p
PrimOutcome e _ = Unit

convert-PrimOutcome :
    (c : Conversions) (name : String) (e : Elem) (v : ConfValue)
    → ElemFits e
    → PrimOutcome e (convert c name e v)
unfolding convert
convert-PrimOutcome c name (int_elem half) (integer k z) h = (h, wrap-in_range half z h)
convert-PrimOutcome c name (int_elem half) (unsigned n) h = (h, wrap-in_range half (pos n) h)
convert-PrimOutcome c name (int_elem half) (float32 b) h =
    (h, wrap-in_range half (c.float_to_int (c.widen b)) h)
convert-PrimOutcome c name (int_elem half) (float64 b) h =
    (h, wrap-in_range half (c.float_to_int b) h)
convert-PrimOutcome c name text_elem v h = ground arith
convert-PrimOutcome c name (float_elem true) v h = ground arith
convert-PrimOutcome c name (float_elem false) v h = ground arith
convert-PrimOutcome c name e v h = ground arith

one_more-PrimsOutcome :
    (e : Elem) (p : Outcome Prim) (ps : Outcome (List Prim))
    → PrimOutcome e p
    → PrimsOutcome e ps
    → PrimsOutcome e (p >>= λ q. ps >>= λ qs. done (q ∷ qs))
one_more-PrimsOutcome e (done p) (done ps) h hs = (h, hs)
one_more-PrimsOutcome e (done p) (fails x) h hs = tt
one_more-PrimsOutcome e (done p) panics h hs = tt
one_more-PrimsOutcome e (fails x) ps h hs = tt
one_more-PrimsOutcome e panics ps h hs = tt

convert_items-PrimsOutcome :
    (c : Conversions) (name : String) (e : Elem) (items : Items)
    → ElemFits e
    → PrimsOutcome e (convert_items c name e items)
unfolding convert_items
convert_items-PrimsOutcome c name e no_items h = tt
convert_items-PrimsOutcome c name e (item v rest) h =
    one_more-PrimsOutcome e (convert c name e v) (convert_items c name e rest)
      (convert-PrimOutcome c name e v h) (convert_items-PrimsOutcome c name e rest h)

parse_primitive_array-PrimsOutcome :
    (c : Conversions) (name : String) (e : Elem) (v : ConfValue)
    → ElemFits e
    → PrimsOutcome e (parse_primitive_array c name e v)
unfolding parse_primitive_array
parse_primitive_array-PrimsOutcome c name e (list items) h =
    convert_items-PrimsOutcome c name e items h
parse_primitive_array-PrimsOutcome c name e v h =
    one_more-PrimsOutcome e (convert c name e v) (done []) (convert-PrimOutcome c name e v h) tt

set_prims-IsTypedSlot :
    (e : Elem) (old : List Prim) (o : Outcome (List Prim))
    → IsTypedSlot (prims_slot e old)
    → PrimsOutcome e o
    → IsTypedSlot (set_slot (prims_slot e old) (prims_slot e) o).1
unfolding IsTypedSlot
set_prims-IsTypedSlot e old (done ps) t h = (t.0, h)
set_prims-IsTypedSlot e old (fails x) t h = t
set_prims-IsTypedSlot e old panics t h = t

-- Structs that were parsed from the zero value have its type.
abbrev TypedOutcome : Fields → Outcome Structs → Type 0
TypedOutcome zero_value (done ss) = AreTyped zero_value ss
TypedOutcome zero_value _ = Unit

module _ (p : Entries → Parsed Fields) (zero_value : Fields)
    (kept : (m : Entries) → zero_fields (p m).1 ≡ zero_fields zero_value)
    (typed : (m : Entries) → IsTypedFields (p m).1) where
  parsed_struct-TypedOutcome :
      (r : Parsed Fields) (rest : Outcome Structs)
      → zero_fields r.1 ≡ zero_fields zero_value
      → IsTypedFields r.1
      → TypedOutcome zero_value rest
      → TypedOutcome zero_value (parsed_struct r rest)
  unfolding IsTypedSlot
  parsed_struct-TypedOutcome (done u, fs) (done ss) e t h = (e, t, h)
  parsed_struct-TypedOutcome (done u, fs) (fails x) e t h = tt
  parsed_struct-TypedOutcome (done u, fs) panics e t h = tt
  parsed_struct-TypedOutcome (fails x, fs) rest e t h = tt
  parsed_struct-TypedOutcome (panics, fs) rest e t h = tt

  parse_struct_items-TypedOutcome :
      (items : Items) → TypedOutcome zero_value (parse_struct_items p items)
  unfolding parse_struct_items IsTypedSlot
  parse_struct_items-TypedOutcome no_items = tt
  parse_struct_items-TypedOutcome (item (map m) rest) =
      parsed_struct-TypedOutcome (p m) _ (kept m) (typed m) (parse_struct_items-TypedOutcome rest)
  parse_struct_items-TypedOutcome (item v rest) = tt

  parse_structs-TypedOutcome :
      (name : String) (v : ConfValue) → TypedOutcome zero_value (parse_structs p name v)
  unfolding parse_structs IsTypedSlot
  parse_structs-TypedOutcome name (list items) = parse_struct_items-TypedOutcome items
  parse_structs-TypedOutcome name (map m) = parsed_struct-TypedOutcome (p m) _ (kept m) (typed m) tt
  parse_structs-TypedOutcome name v = tt

  set_structs-IsTypedSlot :
      (old : Structs) (o : Outcome Structs)
      → IsTypedSlot (structs_slot zero_value old)
      → TypedOutcome zero_value o
      → IsTypedSlot (set_slot (structs_slot zero_value old) (structs_slot zero_value) o).1
  unfolding IsTypedSlot
  set_structs-IsTypedSlot old (done ss) t h = (t.0, h)
  set_structs-IsTypedSlot old _ t h = t

take_turn-IsTypedFields :
    (name : String) (settable : Bool) (slot : Slot) (rest : Fields)
    (switch : ConfValue → Parsed Slot) (after : Parsed Fields) (t : Turn)
    → IsTypedFields (field name settable slot rest)
    → ((v : ConfValue) → IsTypedSlot (switch v).1)
    → IsTypedFields after.1
    → IsTypedFields (take_turn name settable slot rest switch after t).1
unfolding IsTypedSlot
take_turn-IsTypedFields name settable slot rest switch after skip h s r = (h.0, r)
take_turn-IsTypedFields name settable slot rest switch after (refuse e) h s r = h
take_turn-IsTypedFields name settable slot rest switch after (parse v) h s r = ground (arith, s v)

parse_nested-IsTypedSlot :
    (p : Entries → Parsed Fields) (name : String) (old : Fields) (v : ConfValue)
    → IsTypedFields old
    → ((m : Entries) → IsTypedFields (p m).1)
    → IsTypedSlot (parse_nested p name old v).1
unfolding IsTypedSlot
parse_nested-IsTypedSlot p name old (map m) h typed = typed m
parse_nested-IsTypedSlot p name old v h typed = h

module _ (c : Conversions) (strict : Bool) where
  mutual
    unfolding parse_struct IsTypedSlot

    typed_fields :
        (fs : Fields) (m : Entries)
        → IsTypedFields fs
        → IsTypedFields (parse_struct c strict fs m).1
    typed_fields no_fields m h = tt
    typed_fields (field name settable slot rest) m h =
        take_turn-IsTypedFields name settable slot rest _ _ (turn strict settable name m) h
          (λ v. typed_slot slot name v h.0) (typed_fields rest m h.1)

    typed_slot :
        (slot : Slot) (name : String) (v : ConfValue)
        → IsTypedSlot slot
        → IsTypedSlot (parse_slot c strict slot name v).1
    typed_slot (structs_slot zero_value old) name v h =
        set_structs-IsTypedSlot (parse_struct c strict zero_value) zero_value
          (zero_fields-parse_struct c strict zero_value) (λ m. typed_fields zero_value m h.0) old _
          h
          (parse_structs-TypedOutcome (parse_struct c strict zero_value) zero_value
            (zero_fields-parse_struct c strict zero_value) (λ m. typed_fields zero_value m h.0) name
            v)
    typed_slot (int_slot half old) name v h = set_int-IsTypedSlot half old (parse_int name v) h
    typed_slot (prims_slot e old) name v h =
        set_prims-IsTypedSlot e old (parse_primitive_array c name e v) h
          (parse_primitive_array-PrimsOutcome c name e v h.0)
    typed_slot (struct_slot old) name v h =
        parse_nested-IsTypedSlot (parse_struct c strict old) name old v h
          (λ m. typed_fields old m h)
    typed_slot slot name v h = ground arith
