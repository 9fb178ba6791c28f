-- ===== src/Conf/Scalars.antt =====
-- The value parsers of nats-mq/conf/parse.go.
use nats_mq.Prelude.{ℕ, String, Bool, true, false, List, [], ◌∷◌, Option, none, some, str_eq}
use nats_mq.Prelude.Int.{ℤ, pos, wrap}
use nats_mq.Prelude.Convert.{to_lower, atoi, rune_text}
use nats_mq.Prelude.HostPort.{split_host_port}
use nats_mq.Error.{
  Outcome, done, fails, panics, ◌>>=◌, bad_option, bad_integer, bad_float, bad_host_port, bad_port,
  not_convertible,
}
use nats_mq.Conf.Value.{
  int64, ConfValue, null, bool, text, integer, unsigned, float32, float64, list, Items, no_items,
  item,
}
use nats_mq.Conf.Schema.{
  HostPort, Elem, text_elem, int_elem, float_elem, Prim, text_prim, int_prim, float_prim,
}

-- Go's conversions between floats, their texts and integers. The flag says whether the result is a
-- float32.
pub record Conversions : Type 0 where
  pub widen : ℕ → ℕ
  pub narrow : ℕ → ℕ
  pub int_to_float : Bool → ℤ → ℕ
  pub float_to_int : ℕ → ℤ
  pub parse_float : String → Option ℕ

unfoldable pub parse_boolean : String → ConfValue → Outcome Bool
parse_boolean name (bool b) = done b
parse_boolean name (text s) = done (str_eq (to_lower s) "true")
parse_boolean name _ = fails (bad_option name)

-- `int` has 64 bits here.
unfoldable pub parse_int : String → ConfValue → Outcome ℤ
parse_int name (integer k z) = done z
parse_int name (text s) = elim (atoi s) [ none ↦ fails (bad_integer name) | some z ↦ done z ]
parse_int name _ = fails (bad_integer name)

unfoldable pub parse_string : String → ConfValue → Outcome String
parse_string name (text s) = done s
parse_string name _ = fails (bad_option name)

unfoldable pub parse_host_port : String → ConfValue → Outcome HostPort
parse_host_port name (integer int64 z) = done (record { host = ""; port = z })
parse_host_port name (text s) = elim (split_host_port s) [
  | none ↦ fails (bad_host_port name)
  | some (h, p) ↦ elim (atoi p) [
    | none ↦ fails (bad_port name)
    | some z ↦ done (record { host = h; port = z })
  ]
]
parse_host_port name _ = fails (bad_option name)

unfoldable pub parse_host_port_items : String → Items → Outcome (List HostPort)
unfolding parse_host_port
parse_host_port_items name no_items = done []
parse_host_port_items name (item v rest) = do
  hp ← parse_host_port name v
  hps ← parse_host_port_items name rest
  done (hp ∷ hps)

unfoldable pub parse_host_ports : String → ConfValue → Outcome (List HostPort)
unfolding parse_host_port_items parse_host_port
parse_host_ports name (list items) = parse_host_port_items name items
parse_host_ports name v = do hp ← parse_host_port name v; done (hp ∷ [])

module _ (c : Conversions) where
  unfoldable pub parse_float : String → ConfValue → Outcome ℕ
  parse_float name (float32 b) = done (c.widen b)
  parse_float name (float64 b) = done b
  parse_float name (text s) = elim (c.parse_float s) [
    | none ↦ fails (bad_float name)
    | some b ↦ done b
  ]
  parse_float name _ = fails (bad_float name)

  -- sv.Convert(t) where the type is convertible; reflect.ValueOf(nil).Type() panics. An integer
  -- converts to the text of the character with that number.
  unfoldable pub convert : String → Elem → ConfValue → Outcome Prim
  convert name e null = panics
  convert name text_elem (text s) = done (text_prim s)
  convert name text_elem (integer k z) = done (text_prim (rune_text z))
  convert name text_elem (unsigned n) = done (text_prim (rune_text (pos n)))
  convert name (int_elem half) (integer k z) = done (int_prim (wrap half z))
  convert name (int_elem half) (unsigned n) = done (int_prim (wrap half (pos n)))
  convert name (int_elem half) (float32 b) =
      done (int_prim (wrap half (c.float_to_int (c.widen b))))
  convert name (int_elem half) (float64 b) = done (int_prim (wrap half (c.float_to_int b)))
  convert name (float_elem is32) (integer k z) = done (float_prim (c.int_to_float is32 z))
  convert name (float_elem is32) (unsigned n) = done (float_prim (c.int_to_float is32 (pos n)))
  convert name (float_elem true) (float32 b) = done (float_prim b)
  convert name (float_elem false) (float32 b) = done (float_prim (c.widen b))
  convert name (float_elem true) (float64 b) = done (float_prim (c.narrow b))
  convert name (float_elem false) (float64 b) = done (float_prim b)
  convert name e v = fails (not_convertible name)

  unfoldable pub convert_items : String → Elem → Items → Outcome (List Prim)
  unfolding convert
  convert_items name e no_items = done []
  convert_items name e (item v rest) = do
    p ← convert name e v
    ps ← convert_items name e rest
    done (p ∷ ps)

  unfoldable pub parse_primitive_array : String → Elem → ConfValue → Outcome (List Prim)
  unfolding convert_items convert
  parse_primitive_array name e (list items) = convert_items name e items
  parse_primitive_array name e v = do p ← convert name e v; done (p ∷ [])
