-- ===== src/Conf/Schema.antt =====
-- A configuration struct as reflection sees it (nats-mq/conf/parse.go): its fields in order, each with
-- its name, whether it can be set, its type and its value; and nats-mq/conf/hostport.go.
use nats_mq.Prelude.{ℕ, String, Bool, List}
use nats_mq.Prelude.Int.{ℤ}
use nats_mq.Prelude.Convert.{itoa}
use nats_mq.Prelude.HostPort.{join_host_port}
use nats_mq.Conf.Value.{Entries}

pub record HostPort : Type 0 where
  pub host : String
  pub port : ℤ

-- HostPort.String
unfoldable pub host_port_string : HostPort → String
unfolding join_host_port itoa
host_port_string hp = join_host_port hp.host (itoa hp.port)

-- The element types that parsePrimitiveArray is called with. An integer type has the values from
-- -half to half - 1; a float type is float32 or not.
pub data Elem : Type 0 where
  text_elem : Elem
  int_elem : ℕ → Elem
  float_elem : Bool → Elem

pub data Prim : Type 0 where
  text_prim : String → Prim
  int_prim : ℤ → Prim
  float_prim : ℕ → Prim

-- A field's type with its value. `map_slot` says whether the type is map[string]interface{};
-- `structs_slot` has the zero value of the element type first. `other_slot` and `other_slice` stand for
-- the types that the parser does not know, whose values it never touches.
mutual
  pub data Slot : Type 0 where
    bool_slot : Bool → Slot
    int_slot : ℕ → ℤ → Slot
    float_slot : Bool → ℕ → Slot
    text_slot : String → Slot
    map_slot : Bool → Entries → Slot
    prims_slot : Elem → List Prim → Slot
    host_ports_slot : List HostPort → Slot
    structs_slot : Fields → Structs → Slot
    host_port_slot : HostPort → Slot
    struct_slot : Fields → Slot
    other_slice other_slot : Slot

  pub data Fields : Type 0 where
    no_fields : Fields
    field : String → Bool → Slot → Fields → Fields

  pub data Structs : Type 0 where
    no_structs : Structs
    struct : Fields → Structs → Structs
