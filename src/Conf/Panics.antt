-- ===== src/Conf/Panics.antt =====
-- When parseStruct of nats-mq/conf/parse.go panics.
use nats_mq.Prelude.{
  [], ◌∷◌, subst, inl, inr, Bool-cases, Option-cases, String, ◌≡◌, ◌≢◌, refl, Bool, some, arith,
  str_eq,
}
use nats_mq.Prelude.Convert.{to_lower}
use nats_mq.Error.{Outcome, done, panics, >>=-ne-panics}
use nats_mq.Conf.Value.{
  ConfValue, null, list, map, Items, no_items, item, Entries, no_entries, entry, find_entry, get,
  not_nil, text, integer,
}
use nats_mq.Conf.Schema.{
  Elem, Prim, Slot, host_port_slot, prims_slot, structs_slot, struct_slot, host_ports_slot, Fields,
  no_fields, field, Structs, no_structs,
}
use nats_mq.Conf.Scalars.{
  Conversions, parse_boolean, parse_int, parse_float, parse_string, parse_host_port,
  parse_host_port_items, parse_host_ports, convert, convert_items, parse_primitive_array,
}
use nats_mq.Conf.Parse.{
  Parsed, Turn, skip, refuse, parse, turn, set_slot, take_turn, parsed_struct, parse_struct_items,
  parse_structs, parse_nested, parse_struct, parse_slot,
}

-- No list in the value, however deep, has a nil element.
unfoldable mutual
  pub HasNoNil : ConfValue → Type 0
  HasNoNil (list items) = HaveNoNil items
  HasNoNil (map m) = EntriesHaveNoNil m
  HasNoNil _ = Unit

  pub HaveNoNil : Items → Type 0
  HaveNoNil no_items = Unit
  HaveNoNil (item v rest) = (v ≢ null) × HasNoNil v × HaveNoNil rest

  pub EntriesHaveNoNil : Entries → Type 0
  EntriesHaveNoNil no_entries = Unit
  EntriesHaveNoNil (entry k v rest) = HasNoNil v × EntriesHaveNoNil rest

find_entry-HasNoNil :
    (m : Entries) (name : String) (v : ConfValue)
    → EntriesHaveNoNil m
    → find_entry name m ≡ some v
    → HasNoNil v
unfolding find_entry HasNoNil
find_entry-HasNoNil no_entries name v h e = cc
find_entry-HasNoNil (entry k w rest) name v h e = elim (Bool-cases (str_eq k name)) [
  | inl same ↦ let q : w ≡ v = ground arith in subst HasNoNil q h.0
  | inr differ ↦ find_entry-HasNoNil rest name v h.1 (ground arith)
]

not_nil-some : (w v : ConfValue) → not_nil w ≡ some v → (w ≡ v) × (v ≢ null)
not_nil-some null v e = ground arith
not_nil-some w v e = ground arith

get-HasNoNil :
    (m : Entries) (name : String) (v : ConfValue)
    → EntriesHaveNoNil m
    → get m name ≡ some v
    → (v ≢ null) × HasNoNil v
unfolding get
get-HasNoNil m name v h e = elim (Option-cases (find_entry name m)) [
  | inr (w, f) ↦
      let (q, some_value) = not_nil-some w v (ground arith) in
      (some_value, subst HasNoNil q (find_entry-HasNoNil m name w h f))
  | inl f ↦ elim (Option-cases (find_entry (to_lower name) m)) [
    | inr (w, g) ↦
        let (q, some_value) = not_nil-some w v (ground arith) in
        (some_value, subst HasNoNil q (find_entry-HasNoNil m (to_lower name) w h g))
    | inl g ↦ absurd (ground arith)
  ]
]

parse_host_port-ne-panics : (name : String) (v : ConfValue) → parse_host_port name v ≢ panics
unfolding parse_host_port
parse_host_port-ne-panics name (text t) = λ p. ground arith
parse_host_port-ne-panics name (integer k z) = λ p. ground arith
parse_host_port-ne-panics name v = λ p. cc

parse_host_port_items-ne-panics :
    (name : String) (items : Items) → parse_host_port_items name items ≢ panics
unfolding parse_host_port_items
parse_host_port_items-ne-panics name no_items = λ p. cc
parse_host_port_items-ne-panics name (item v rest) =
    >>=-ne-panics _ _ (parse_host_port-ne-panics name v)
      (λ p x. >>=-ne-panics _ _ (parse_host_port_items-ne-panics name rest) (λ ps y. λ q. cc))

parse_host_ports-ne-panics : (name : String) (v : ConfValue) → parse_host_ports name v ≢ panics
unfolding parse_host_ports
parse_host_ports-ne-panics name (list items) = parse_host_port_items-ne-panics name items
parse_host_ports-ne-panics name v =
    >>=-ne-panics (parse_host_port name v) (λ hp. done (hp ∷ [])) (parse_host_port-ne-panics name v)
      (λ hp x. λ q. cc)

module _ (c : Conversions) where
  convert-ne-panics :
      (name : String) (e : Elem) (v : ConfValue) → v ≢ null → convert c name e v ≢ panics
  unfolding convert
  convert-ne-panics name e null h = absurd (h refl)
  convert-ne-panics name e (text t) h = ground arith
  convert-ne-panics name e v h = ground arith

  convert_items-ne-panics :
      (name : String) (e : Elem) (items : Items)
      → HaveNoNil items
      → convert_items c name e items ≢ panics
  unfolding convert_items HasNoNil
  convert_items-ne-panics name e no_items h = λ p. cc
  convert_items-ne-panics name e (item v rest) h =
      >>=-ne-panics _ _ (convert-ne-panics name e v h.0)
        (λ p x. >>=-ne-panics _ _ (convert_items-ne-panics name e rest h.2) (λ ps y. λ q. cc))

  parse_primitive_array-ne-panics :
      (name : String) (e : Elem) (v : ConfValue)
      → v ≢ null
      → HasNoNil v
      → parse_primitive_array c name e v ≢ panics
  unfolding parse_primitive_array HasNoNil
  parse_primitive_array-ne-panics name e (list items) ne h = convert_items-ne-panics name e items h
  parse_primitive_array-ne-panics name e v ne h =
      >>=-ne-panics (convert c name e v) (λ p. done (p ∷ [])) (convert-ne-panics name e v ne)
        (λ p x. λ q. cc)

set_slot-ne-panics {ℓ} :
    {A : Type ℓ} (old : Slot) (f : A → Slot) (o : Outcome A)
    → o ≢ panics
    → (set_slot old f o).0 ≢ panics
set_slot-ne-panics old f o h = ground arith

module _ (p : Entries → Parsed Fields)
    (safe : (m : Entries) → EntriesHaveNoNil m → (p m).0 ≢ panics) where
  parsed_struct-ne-panics :
      (r : Parsed Fields) (rest : Outcome Structs)
      → r.0 ≢ panics
      → rest ≢ panics
      → parsed_struct r rest ≢ panics
  parsed_struct-ne-panics r rest h k = ground arith

  parse_struct_items-ne-panics :
      (items : Items) → HaveNoNil items → parse_struct_items p items ≢ panics
  unfolding parse_struct_items HasNoNil
  parse_struct_items-ne-panics no_items h = λ q. cc
  parse_struct_items-ne-panics (item (map m) rest) h =
      parsed_struct-ne-panics (p m) _ (safe m h.1) (parse_struct_items-ne-panics rest h.2)
  parse_struct_items-ne-panics (item v rest) h = λ q. cc

  parse_structs-ne-panics :
      (name : String) (v : ConfValue) → HasNoNil v → parse_structs p name v ≢ panics
  unfolding parse_structs HasNoNil
  parse_structs-ne-panics name (list items) h = parse_struct_items-ne-panics items h
  parse_structs-ne-panics name (map m) h =
      parsed_struct-ne-panics (p m) (done no_structs) (safe m h) (λ q. cc)
  parse_structs-ne-panics name v h = λ q. cc

  parse_nested-ne-panics :
      (name : String) (old : Fields) (v : ConfValue)
      → HasNoNil v
      → (parse_nested p name old v).0 ≢ panics
  unfolding HasNoNil
  parse_nested-ne-panics name old (map m) h = safe m h
  parse_nested-ne-panics name old v h = λ q. cc

take_turn-ne-panics :
    (name : String) (settable : Bool) (slot : Slot) (rest : Fields)
    (switch : ConfValue → Parsed Slot) (after : Parsed Fields) (t : Turn)
    → ((v : ConfValue) → t ≡ parse v → (switch v).0 ≢ panics)
    → after.0 ≢ panics
    → (take_turn name settable slot rest switch after t).0 ≢ panics
take_turn-ne-panics name settable slot rest switch after skip h k = k
take_turn-ne-panics name settable slot rest switch after (refuse e) h k = λ q. cc
take_turn-ne-panics name settable slot rest switch after (parse v) h k = ground (arith, h v refl)

turn-found :
    (strict settable : Bool) (name : String) (m : Entries) (v : ConfValue)
    → turn strict settable name m ≡ parse v
    → get m name ≡ some v
unfolding turn
turn-found strict settable name m v e = ground arith

module _ (c : Conversions) (strict : Bool) where
  mutual
    unfolding parse_struct parse_boolean parse_int parse_float parse_string

    fields_safe :
        (fs : Fields) (m : Entries) → EntriesHaveNoNil m → (parse_struct c strict fs m).0 ≢ panics
    fields_safe no_fields m h = λ q. cc
    fields_safe (field name settable slot rest) m h =
        take_turn-ne-panics name settable slot rest (parse_slot c strict slot name)
          (parse_struct c strict rest m) (turn strict settable name m)
          (λ v t.
            let (ne, clean) = get-HasNoNil m name v h (turn-found strict settable name m v t) in
            slot_safe slot name v ne clean)
          (fields_safe rest m h)

    slot_safe :
        (slot : Slot) (name : String) (v : ConfValue)
        → v ≢ null
        → HasNoNil v
        → (parse_slot c strict slot name v).0 ≢ panics
    slot_safe (prims_slot e old) name v ne h =
        set_slot-ne-panics (prims_slot e old) (prims_slot e) _
          (parse_primitive_array-ne-panics c name e v ne h)
    slot_safe (host_port_slot old) name v ne h =
        set_slot-ne-panics (host_port_slot old) host_port_slot _ (parse_host_port-ne-panics name v)
    slot_safe (host_ports_slot old) name v ne h =
        set_slot-ne-panics (host_ports_slot old) host_ports_slot _
          (parse_host_ports-ne-panics name v)
    slot_safe (structs_slot zero_value old) name v ne h =
        set_slot-ne-panics (structs_slot zero_value old) (structs_slot zero_value) _ (
          parse_structs-ne-panics (parse_struct c strict zero_value) (fields_safe zero_value) name v
            h)
    slot_safe (struct_slot old) name v ne h =
        parse_nested-ne-panics (parse_struct c strict old) (fields_safe old) name old v h
    slot_safe slot name v ne h = ground arith

  -- parseStruct does not panic on a map in which no list, however deep, has a nil element.
  pub parse_struct-ne-panics :
      (fs : Fields) (m : Entries) → EntriesHaveNoNil m → (parse_struct c strict fs m).0 ≢ panics
  parse_struct-ne-panics fs m h = fields_safe fs m h
