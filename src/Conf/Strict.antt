-- ===== src/Conf/Strict.antt =====
-- What parseStruct of nats-mq/conf/parse.go demands in strict mode, and what it leaves alone.
use nats_mq.Prelude.{
  String, ◌≡◌, refl, ◌⊎◌, inl, inr, Bool, true, false, none, some, arith, Option-cases,
}
use nats_mq.Error.{Error, missing_field, Outcome, done, fails, panics}
use nats_mq.Conf.Value.{ConfValue, list, map, Items, no_items, item, Entries, get}
use nats_mq.Conf.Schema.{
  Slot, struct_slot, structs_slot, Structs, no_structs, other_slice, other_slot, Fields, no_fields,
  field,
}
use nats_mq.Conf.Scalars.{Conversions}
use nats_mq.Conf.Parse.{
  Parsed, Turn, skip, refuse, parse, turn, carry_on, take_turn, set_slot, parsed_struct,
  parse_struct_items, parse_structs, parse_nested, parse_struct, parse_slot,
}

-- Every item is a map of which P holds.
abbrev pub AreMaps : (Entries → Type 0) → Items → Type 0
AreMaps P no_items = Unit
AreMaps P (item (map m) rest) = P m × AreMaps P rest
AreMaps P (item v rest) = ⊥

-- A list of such maps, or one such map.
abbrev pub IsMaps : (Entries → Type 0) → ConfValue → Type 0
IsMaps P (list items) = AreMaps P items
IsMaps P (map m) = P m
IsMaps P _ = ⊥

-- Every field can be set, is of a known type and has a value in the map, and so have the fields of a
-- struct in it and of the elements of a slice of structs.
mutual
  pub IsCompleteSlot : Slot → ConfValue → Type 0
  IsCompleteSlot (struct_slot fs) v = (m : Entries) × (v ≡ map m) × IsComplete fs m
  IsCompleteSlot (structs_slot zero_value ss) v = IsMaps (IsComplete zero_value) v
  IsCompleteSlot other_slice v = ⊥
  IsCompleteSlot other_slot v = ⊥
  IsCompleteSlot _ v = Unit

  pub IsComplete : Fields → Entries → Type 0
  IsComplete no_fields m = Unit
  IsComplete (field name settable slot rest) m =
      (settable ≡ true)
      × ((v : ConfValue) × (get m name ≡ some v) × IsCompleteSlot slot v)
      × IsComplete rest m

turn-strict :
    (settable : Bool) (name : String) (m : Entries)
    → ((e : Error) × (turn true settable name m ≡ refuse e))
      ⊎ ((v : ConfValue) × (settable ≡ true)
          × (get m name ≡ some v)
          × (turn true settable name m ≡ parse v))
unfolding turn
turn-strict false name m = inl (_, refl)
turn-strict true name m = elim (Option-cases (get m name)) [
  | inl e ↦ inl (missing_field name, ground arith)
  | inr (v, e) ↦ inr (v, refl, e, ground arith)
]

take_turn-done :
    (name : String) (settable : Bool) (slot : Slot) (rest : Fields)
    (switch : ConfValue → Parsed Slot) (after : Parsed Fields) (v : ConfValue)
    → (take_turn name settable slot rest switch after (parse v)).0 ≡ done tt
    → ((switch v).0 ≡ done tt) × (after.0 ≡ done tt)
take_turn-done name settable slot rest switch after v e = ground arith

parse_nested-done :
    (p : Entries → Parsed Fields) (name : String) (old : Fields) (v : ConfValue)
    → (parse_nested p name old v).0 ≡ done tt
    → (m : Entries) × (v ≡ map m) × ((p m).0 ≡ done tt)
parse_nested-done p name old (map m) e = (m, refl, e)
parse_nested-done p name old v e = cc

parsed_struct-done :
    (r : Parsed Fields) (rest : Outcome Structs) (ss : Structs)
    → parsed_struct r rest ≡ done ss
    → (r.0 ≡ done tt) × ((ts : Structs) × (rest ≡ done ts))
parsed_struct-done (done u, fs) (done ts) ss e = (refl, (ts, refl))
parsed_struct-done (done u, fs) (fails x) ss e = cc
parsed_struct-done (done u, fs) panics ss e = cc
parsed_struct-done (fails x, fs) rest ss e = cc
parsed_struct-done (panics, fs) rest ss e = cc

module _ (p : Entries → Parsed Fields) (P : Entries → Type 0)
    (complete : (m : Entries) → (p m).0 ≡ done tt → P m) where
  parse_struct_items-AreMaps :
      (items : Items) (ss : Structs) → parse_struct_items p items ≡ done ss → AreMaps P items
  unfolding parse_struct_items
  parse_struct_items-AreMaps no_items ss e = tt
  parse_struct_items-AreMaps (item (map m) rest) ss e =
      let (here, (ts, later)) = parsed_struct-done (p m) (parse_struct_items p rest) ss e in
      (complete m here, parse_struct_items-AreMaps rest ts later)
  parse_struct_items-AreMaps (item v rest) ss e = cc

  parse_structs-IsMaps :
      (name : String) (v : ConfValue) (ss : Structs) → parse_structs p name v ≡ done ss → IsMaps P v
  unfolding parse_structs
  parse_structs-IsMaps name (list items) ss e = parse_struct_items-AreMaps items ss e
  parse_structs-IsMaps name (map m) ss e =
      complete m (parsed_struct-done (p m) (done no_structs) ss e).0
  parse_structs-IsMaps name v ss e = cc

set_slot-done {ℓ} :
    {A : Type ℓ} (old : Slot) (f : A → Slot) (o : Outcome A)
    → (set_slot old f o).0 ≡ done tt
    → (a : A) × (o ≡ done a)
set_slot-done old f (done a) e = (a, refl)
set_slot-done old f (fails x) e = cc
set_slot-done old f panics e = cc

module _ (c : Conversions) where
  mutual
    unfolding parse_struct IsComplete

    IsComplete-fields :
        (fs : Fields) (m : Entries) → (parse_struct c true fs m).0 ≡ done tt → IsComplete fs m
    IsComplete-fields no_fields m e = tt
    IsComplete-fields (field name settable slot rest) m e = elim (turn-strict settable name m) [
      | inl (x, t) ↦ cc (rw t at e)
      | inr (v, can, found, t) ↦
          let (here, later) =
            take_turn-done name settable slot rest (parse_slot c true slot name)
              (parse_struct c true rest m) v (rw t at e) in
          (can, (v, found, complete_slot slot name v here), IsComplete-fields rest m later)
    ]

    complete_slot :
        (slot : Slot) (name : String) (v : ConfValue)
        → (parse_slot c true slot name v).0 ≡ done tt
        → IsCompleteSlot slot v
    complete_slot (struct_slot old) name v e =
        let (m, is_map, d) = parse_nested-done (parse_struct c true old) name old v e in
        (m, is_map, IsComplete-fields old m d)
    complete_slot (structs_slot zero_value old) name v e =
        let p = parse_struct c true zero_value in
        let (ss, d) =
          set_slot-done (structs_slot zero_value old) (structs_slot zero_value)
            (parse_structs p name v) e in
        parse_structs-IsMaps p (IsComplete zero_value)
          (λ m here. IsComplete-fields zero_value m here) name v ss d
    complete_slot other_slice name v e = cc
    complete_slot other_slot name v e = cc
    complete_slot slot name v e = tt

  -- If parseStruct returns no error in strict mode, every field of the struct could be set, is of a type
  -- that the parser knows and has a value in the map, and so have the fields of the structs in it and
  -- of every element of its slices of structs, whose values are maps or lists of maps.
  pub parse_struct-IsComplete :
      (fs : Fields) (m : Entries) → (parse_struct c true fs m).0 ≡ done tt → IsComplete fs m
  parse_struct-IsComplete fs m e = IsComplete-fields fs m e

-- Two structs with the same field names, where every field that cannot be set or has no value in the
-- map is the same.
abbrev pub Keeps : Entries → Fields → Fields → Type 0
Keeps m no_fields no_fields = Unit
Keeps m no_fields (field name settable slot rest) = ⊥
Keeps m (field name settable slot rest) no_fields = ⊥
Keeps m (field name settable slot rest) (field name' settable' slot' rest') =
    (name' ≡ name)
    × (settable' ≡ settable)
    × ((settable ≡ false) ⊎ (get m name ≡ none) → slot' ≡ slot)
    × Keeps m rest rest'

Keeps-refl : (m : Entries) (fs : Fields) → Keeps m fs fs
Keeps-refl m no_fields = tt
Keeps-refl m (field name settable slot rest) = (refl, refl, (λ h. refl), Keeps-refl m rest)

turn-parse :
    (strict settable : Bool) (name : String) (m : Entries) (v : ConfValue)
    → turn strict settable name m ≡ parse v
    → (settable ≡ false) ⊎ (get m name ≡ none)
    → ⊥
unfolding turn
turn-parse strict settable name m v e (inl h) = ground arith
turn-parse strict settable name m v e (inr h) = ground arith

carry_on-Keeps :
    (m : Entries) (name : String) (settable : Bool) (slot : Slot) (rest : Fields) (p : Parsed Slot)
    (after : Parsed Fields)
    → ((settable ≡ false) ⊎ (get m name ≡ none) → ⊥)
    → Keeps m rest after.1
    → Keeps m (field name settable slot rest) (carry_on name settable rest p after).1
carry_on-Keeps m name settable slot rest (done u, slot') after never k =
    (refl, refl, (λ h. absurd (never h)), k)
carry_on-Keeps m name settable slot rest (fails e, slot') after never k =
    (refl, refl, (λ h. absurd (never h)), Keeps-refl m rest)
carry_on-Keeps m name settable slot rest (panics, slot') after never k =
    (refl, refl, (λ h. absurd (never h)), Keeps-refl m rest)

take_turn-Keeps :
    (m : Entries) (name : String) (settable : Bool) (slot : Slot) (rest : Fields)
    (switch : ConfValue → Parsed Slot) (after : Parsed Fields) (t : Turn)
    → ((v : ConfValue) → t ≡ parse v → (settable ≡ false) ⊎ (get m name ≡ none) → ⊥)
    → Keeps m rest after.1
    → Keeps m (field name settable slot rest) (take_turn name settable slot rest switch after t).1
take_turn-Keeps m name settable slot rest switch after skip never k = (refl, refl, (λ h. refl), k)
take_turn-Keeps m name settable slot rest switch after (refuse e) never k =
    (refl, refl, (λ h. refl), Keeps-refl m rest)
take_turn-Keeps m name settable slot rest switch after (parse v) never k =
    carry_on-Keeps m name settable slot rest (switch v) after (never v refl) k

module _ (c : Conversions) (strict : Bool) where
  -- However parseStruct ends, a field that cannot be set or has no value in the map, under its name or
  -- its name in lower case, keeps the value that it had.
  pub parse_struct-Keeps : (fs : Fields) (m : Entries) → Keeps m fs (parse_struct c strict fs m).1
  unfolding parse_struct
  parse_struct-Keeps no_fields m = tt
  parse_struct-Keeps (field name settable slot rest) m =
      take_turn-Keeps m name settable slot rest (parse_slot c strict slot name)
        (parse_struct c strict rest m) (turn strict settable name m)
        (turn-parse strict settable name m) (parse_struct-Keeps rest m)
