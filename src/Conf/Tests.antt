-- ===== src/Conf/Tests.antt =====
-- Runs of the configuration parser, and its properties at concrete inputs.
use nats_mq.Prelude.{
  ℕ, ◌*◌, ◌/◌, ◌≡◌, ◌≢◌, refl, String, Bool, true, false, List, [], ◌∷◌, Option, none, some, arith,
  eq_iff,
}
use nats_mq.Prelude.Int.{ℤ, Fits, pos, negsuc}
use nats_mq.Prelude.Convert.{atoi, itoa, rune_text, to_lower}
use nats_mq.Prelude.HostPort.{split_host_port, join_host_port}
use nats_mq.Error.{ok, done, fails, panics, missing_field}
use nats_mq.Conf.{BridgeConfig, default_bridge_config, empty_connector}
use nats_mq.Conf.Value.{
  null, text, integer, int64, list, map, no_items, item, Entries, no_entries, entry,
}
use nats_mq.Conf.Schema.{
  HostPort, host_port_string, bool_slot, int_slot, text_slot, prims_slot, structs_slot, struct_slot,
  text_elem, text_prim, Fields, no_fields, field, no_structs, struct,
}
use nats_mq.Conf.Paths.{FileSystem, unreadable, validate_file_path}
use nats_mq.Conf.HostPorts.{parse_host_port-host_port_string}
use nats_mq.Conf.Scalars.{Conversions, parse_host_port}
use nats_mq.Conf.Parse.{parse_struct, load_config_from_map}
use nats_mq.Conf.Types.{zero_fields}
use nats_mq.Conf.Print.{print_fields, IsPrintable, ArePrintable}
use nats_mq.Conf.RoundTrip.{load_config_from_map-print_fields}
use nats_mq.Conf.Strict.{IsComplete, parse_struct-IsComplete}
use nats_mq.Conf.Panics.{HasNoNil, parse_struct-ne-panics}
use nats_mq.Conf.Printable.{
  IsPrintable-field, bool-IsPrintable, prims-IsPrintable, struct-IsPrintable, structs-IsPrintable,
  end-IsPrintable,
}
use nats_mq.Conf.Layout.{bridge_fields}
use nats_mq.Conf.Reload.{InRange, load_config_from_map-bridge_fields}

lower_true : to_lower "TrUe" ≡ "true"
unfolding to_lower
lower_true = refl

reads_negative : atoi "-42" ≡ some (negsuc 41)
unfolding atoi
reads_negative = refl

too_large : atoi "9223372036854775808" ≡ none
unfolding atoi
too_large = refl

writes_port : itoa (pos 4222) ≡ "4222"
unfolding itoa
writes_port = refl

-- A number among the texts of a list becomes the character of that number.
number_as_text : rune_text (pos 65) ≡ "A"
unfolding rune_text
number_as_text = refl

plain_address : split_host_port "localhost:4222" ≡ some ("localhost", "4222")
unfolding split_host_port
plain_address = refl

ip6_address : split_host_port "[::1]:80" ≡ some ("::1", "80")
unfolding split_host_port
ip6_address = refl

no_port : split_host_port "[::1]" ≡ none
unfolding split_host_port
no_port = refl

-- Numbers in place of floats.
abbrev whole : Conversions
whole = record {
  widen = λ b. b * 4294967296;
  narrow = λ b. b / 4294967296;
  int_to_float = λ is32 z. 0;
  float_to_int = λ b. pos b;
  parse_float = λ s. none;
}

abbrev server : String → ℤ → Fields
server name port =
    field "Name" true (text_slot name) (field "Port" true (int_slot 32768 (port)) no_fields)

abbrev settings : Fields
settings = field "Verbose" true (bool_slot true) (
    field "Tags" true (prims_slot text_elem (text_prim "a" ∷ text_prim "b" ∷ [])) (
      field "Main" true (struct_slot (server "one" (pos 1))) (
        field "Others" true
          (structs_slot (server "" (pos 0)) (struct (server "two" (negsuc 0)) no_structs))
          no_fields)))

-- The port is too large for its type, and the names are in lower case.
abbrev given : Entries
given =
    entry "main" (map (entry "port" (integer int64 (pos 65537)) no_entries))
      (entry "tags" (list (item (text "x") (item (integer int64 (pos 66)) no_items))) no_entries)

abbrev loaded : Fields
loaded = field "Verbose" true (bool_slot true) (
    field "Tags" true (prims_slot text_elem (text_prim "x" ∷ text_prim "B" ∷ [])) (
      field "Main" true (struct_slot (server "one" (pos 1))) (
        field "Others" true
          (structs_slot (server "" (pos 0)) (struct (server "two" (negsuc 0)) no_structs))
          no_fields)))

loads : parse_struct whole false settings given ≡ (done tt, loaded)
unfolding parse_struct nats_mq.Conf.Scalars.parse_int nats_mq.Conf.Scalars.parse_primitive_array
    rune_text
loads = refl

strict_refuses : (parse_struct whole true settings given).0 ≡ fails (missing_field "Verbose")
unfolding parse_struct
strict_refuses = refl

parse_struct-ne-panics_example : (parse_struct whole false settings given).0 ≢ panics
unfolding HasNoNil
parse_struct-ne-panics_example =
    parse_struct-ne-panics whole false settings given
      ((tt, tt), (((λ e. cc), tt, ((λ e. cc), tt, tt)), tt))

-- A nil among the elements of a list.
nil_panics :
    (parse_struct whole false settings (entry "tags" (list (item null no_items)) no_entries)).0
    ≡ panics
unfolding parse_struct nats_mq.Conf.Scalars.parse_primitive_array
nil_panics = refl

server-IsPrintable :
    (name : String) (port : ℤ) → Fits 32768 port → IsPrintable whole (server name port)
unfolding IsPrintable
server-IsPrintable name port h =
    IsPrintable-field whole "Name" (text_slot name)
      (field "Port" true (int_slot 32768 port) no_fields) refl refl tt
      (IsPrintable-field whole "Port" (int_slot 32768 port) no_fields refl refl h tt)

others-ArePrintable :
    ArePrintable whole (server "" (pos 0)) (struct (server "two" (negsuc 0)) no_structs)
unfolding IsPrintable zero_fields
others-ArePrintable = (refl, server-IsPrintable "two" (negsuc 0) (omega arith), tt)

settings-IsPrintable : IsPrintable whole settings
settings-IsPrintable = bool-IsPrintable whole _ _ _ refl refl (
    prims-IsPrintable whole _ _ _ _ refl refl (tt, (tt, tt))
      (struct-IsPrintable whole _ _ _ refl refl (server-IsPrintable "one" (pos 1) (omega arith))
        (structs-IsPrintable whole _ _ _ _ refl refl others-ArePrintable (end-IsPrintable whole))))

load_config_from_map-print_fields_example :
    load_config_from_map whole true (print_fields settings) (zero_fields settings)
    ≡ (done tt, settings)
load_config_from_map-print_fields_example =
    load_config_from_map-print_fields whole true settings settings-IsPrintable

strict_passes : (parse_struct whole true settings (print_fields settings)).0 ≡ done tt
unfolding parse_struct print_fields nats_mq.Conf.Scalars.parse_boolean
    nats_mq.Conf.Scalars.parse_int nats_mq.Conf.Scalars.parse_string
    nats_mq.Conf.Scalars.parse_primitive_array
strict_passes = refl

parse_struct-IsComplete_example : IsComplete settings (print_fields settings)
parse_struct-IsComplete_example =
    parse_struct-IsComplete whole settings (print_fields settings) strict_passes

abbrev a_config : BridgeConfig
unfolding default_bridge_config
a_config = record (default_bridge_config "_STAN.discover" (pos 16384)) {
  connect = record empty_connector { kind = "Queue2NATS"; start_at_sequence = negsuc 0 } ∷ [];
}

a_config-InRange : InRange a_config
unfolding default_bridge_config
a_config-InRange = omega arith

load_config_from_map-bridge_fields_example :
    load_config_from_map whole true
      (print_fields (bridge_fields a_config))
      (zero_fields (bridge_fields a_config))
    ≡ (done tt, bridge_fields a_config)
load_config_from_map-bridge_fields_example =
    load_config_from_map-bridge_fields whole true a_config a_config-InRange

abbrev loopback : HostPort
loopback = record { host = "::1"; port = pos 4222 }

parse_host_port-host_port_string_example :
    parse_host_port "listen" (text (host_port_string loopback)) ≡ done loopback
parse_host_port-host_port_string_example =
    parse_host_port-host_port_string "listen" loopback
      (unfold nats_mq.Prelude.HostPort.has_char in record { no_open = refl; no_close = refl })
      (omega arith)

-- A file below a directory that may not be read.
abbrev locked : FileSystem
locked = record { abs = λ path. ok path; stat = λ path. unreadable }

unreadable_panics : validate_file_path locked "/locked/file" ≡ panics
unfolding validate_file_path
unreadable_panics = refl
