-- ===== src/Conf/Parse.antt =====
-- parseStruct and parseStructs of nats-mq/conf/parse.go, and the functions of nats-mq/conf/load.go.
use nats_mq.Prelude.{ℕ, String, Bool, true, false, not, none, some, if◌then◌else◌}
use nats_mq.Prelude.Int.{wrap}
use nats_mq.Error.{
  Error, Result, ok, err, Outcome, done, fails, panics, ◌>>=◌, bad_option, bad_struct_array,
  unsettable_field, missing_field, no_matching_map, unsupported_map, unknown_field_type,
}
use nats_mq.Conf.Value.{ConfValue, list, map, Items, no_items, item, Entries, get}
use nats_mq.Conf.Schema.{
  Slot, bool_slot, int_slot, float_slot, text_slot, map_slot, prims_slot, host_ports_slot,
  structs_slot, host_port_slot, struct_slot, other_slice, other_slot, Fields, no_fields, field,
  Structs, no_structs, struct,
}
use nats_mq.Conf.Scalars.{
  Conversions, parse_boolean, parse_int, parse_float, parse_string, parse_host_port,
  parse_host_ports, parse_primitive_array,
}

-- What parseStruct leaves: whether it returned an error or panicked, with the struct at that time.
abbrev pub Parsed : Type 0 → Type 0
Parsed A = Outcome (Unit {0}) × A

-- What the loop does at a field before its type is looked at.
pub data Turn : Type 0 where
  skip : Turn
  refuse : Error → Turn
  parse : ConfValue → Turn

unfoldable pub turn : Bool → Bool → String → Entries → Turn
unfolding get
turn strict settable name m =
    if not settable
    then (if strict then refuse (unsettable_field name) else skip)
    else elim (get m name) [
      | none ↦ if strict then refuse (missing_field name) else skip
      | some v ↦ parse v
    ]

-- A field is set if its value was parsed, and else keeps its value.
abbrev pub set_slot {ℓ} : {A : Type ℓ} → Slot → (A → Slot) → Outcome A → Parsed Slot
set_slot old f (done a) = (done tt, f a)
set_slot old f (fails e) = (fails e, old)
set_slot old f panics = (panics, old)

-- The loop goes on after a field that was set, and else returns.
abbrev pub carry_on : String → Bool → Fields → Parsed Slot → Parsed Fields → Parsed Fields
carry_on name settable rest (done u, slot) (o, rest') = (o, field name settable slot rest')
carry_on name settable rest (fails e, slot) after = (fails e, field name settable slot rest)
carry_on name settable rest (panics, slot) after = (panics, field name settable slot rest)

abbrev pub skip_on : String → Bool → Slot → Parsed Fields → Parsed Fields
skip_on name settable slot (o, rest') = (o, field name settable slot rest')

-- A round of the loop, with the switch on the field's kind and the rounds after it.
abbrev pub take_turn :
    String → Bool → Slot → Fields → (ConfValue → Parsed Slot) → Parsed Fields → Turn → Parsed Fields
take_turn name settable slot rest switch after skip = skip_on name settable slot after
take_turn name settable slot rest switch after (refuse e) = (fails e, field name settable slot rest)
take_turn name settable slot rest switch after (parse v) =
    carry_on name settable rest (switch v) after

abbrev pub nested : Parsed Fields → Parsed Slot
nested (o, fs) = (o, struct_slot fs)

-- The loop of parseStructs, with parseStruct on the zero value of the element type.
abbrev pub parsed_struct : Parsed Fields → Outcome Structs → Outcome Structs
parsed_struct (done u, fs) rest = do ss ← rest; done (struct fs ss)
parsed_struct (fails e, fs) rest = fails e
parsed_struct (panics, fs) rest = panics

unfoldable pub parse_struct_items : (Entries → Parsed Fields) → Items → Outcome Structs
parse_struct_items p no_items = done no_structs
parse_struct_items p (item (map m) rest) = parsed_struct (p m) (parse_struct_items p rest)
parse_struct_items p (item v rest) = fails bad_struct_array

unfoldable pub parse_structs : (Entries → Parsed Fields) → String → ConfValue → Outcome Structs
unfolding parse_struct_items
parse_structs p name (list items) = parse_struct_items p items
parse_structs p name (map m) = parsed_struct (p m) (done no_structs)
parse_structs p name v = fails (bad_option name)

abbrev pub parse_map : Bool → String → Entries → ConfValue → Parsed Slot
parse_map true name old (map m) = (done tt, map_slot true m)
parse_map false name old (map m) = (fails (unsupported_map name), map_slot false old)
parse_map assignable name old v = (fails (no_matching_map name), map_slot assignable old)

abbrev pub unknown : Bool → String → Slot → Parsed Slot
unknown true name slot = (fails (unknown_field_type name), slot)
unknown false name slot = (done tt, slot)

abbrev pub set_float : Conversions → Bool → ℕ → Slot
set_float c true b = float_slot true (c.narrow b)
set_float c false b = float_slot false b

abbrev pub parse_nested : (Entries → Parsed Fields) → String → Fields → ConfValue → Parsed Slot
parse_nested p name old (map m) = nested (p m)
parse_nested p name old v = (fails (no_matching_map name), struct_slot old)

module _ (c : Conversions) (strict : Bool) where
  unfoldable mutual
    unfolding turn parse_structs

    -- parseStruct: the loop over the fields.
    pub parse_struct : Fields → Entries → Parsed Fields
    parse_struct no_fields m = (done tt, no_fields)
    parse_struct (field name settable slot rest) m =
        take_turn name settable slot rest (parse_slot slot name) (parse_struct rest m)
          (turn strict settable name m)

    -- The switch on the field's kind.
    pub parse_slot : Slot → String → ConfValue → Parsed Slot
    parse_slot (bool_slot old) name v = set_slot (bool_slot old) bool_slot (parse_boolean name v)
    parse_slot (int_slot half old) name v =
        set_slot (int_slot half old) (λ z. int_slot half (wrap half z)) (parse_int name v)
    parse_slot (float_slot is32 old) name v =
        set_slot (float_slot is32 old) (set_float c is32) (parse_float c name v)
    parse_slot (text_slot old) name v = set_slot (text_slot old) text_slot (parse_string name v)
    parse_slot (map_slot assignable old) name v = parse_map assignable name old v
    parse_slot (prims_slot e old) name v =
        set_slot (prims_slot e old) (prims_slot e) (parse_primitive_array c name e v)
    parse_slot (host_ports_slot old) name v =
        set_slot (host_ports_slot old) host_ports_slot (parse_host_ports name v)
    parse_slot (structs_slot zero_value old) name v =
        set_slot (structs_slot zero_value old) (structs_slot zero_value)
          (parse_structs (parse_struct zero_value) name v)
    parse_slot (host_port_slot old) name v =
        set_slot (host_port_slot old) host_port_slot (parse_host_port name v)
    parse_slot (struct_slot old) name v = parse_nested (parse_struct old) name old v
    parse_slot other_slice name v = unknown strict name other_slice
    parse_slot other_slot name v = unknown strict name other_slot

  -- LoadConfigFromMap
  unfoldable pub load_config_from_map : Entries → Fields → Parsed Fields
  unfolding parse_struct
  load_config_from_map m config = parse_struct config m

  -- LoadConfigFromString, with what the NATS server's parser makes of the text.
  unfoldable pub load_config_from_string : Result Entries → Fields → Parsed Fields
  unfolding parse_struct
  load_config_from_string (err e) config = (fails e, config)
  load_config_from_string (ok m) config = parse_struct config m

  -- LoadConfigFromFile, with what the file holds and what the parser makes of it.
  unfoldable pub load_config_from_file :
      Result String → (String → Result Entries) → Fields → Parsed Fields
  unfolding load_config_from_string
  load_config_from_file (err e) conf_parse config = (fails e, config)
  load_config_from_file (ok s) conf_parse config = load_config_from_string (conf_parse s) config
