-- ===== src/Conf/Value.antt =====
-- What a configuration file or map holds: the interface{} values that nats-mq/conf/parse.go reads.
use nats_mq.Prelude.{ℕ, String, Bool, Option, none, some, str_eq, if◌then◌else◌}
use nats_mq.Prelude.Int.{ℤ}
use nats_mq.Prelude.Convert.{to_lower}

-- int and the four sized types.
pub data IntKind : Type 0 where
  int int8 int16 int32 int64 : IntKind

-- `other` is a value of a type, such as time.Time, that converts to no number and no text.
mutual
  pub data ConfValue : Type 0 where
    null : ConfValue
    bool : Bool → ConfValue
    text : String → ConfValue
    integer : IntKind → ℤ → ConfValue
    unsigned : ℕ → ConfValue
    float32 float64 : ℕ → ConfValue
    list : Items → ConfValue
    map : Entries → ConfValue
    other : String → ConfValue

  pub data Items : Type 0 where
    no_items : Items
    item : ConfValue → Items → Items

  pub data Entries : Type 0 where
    no_entries : Entries
    entry : String → ConfValue → Entries → Entries

-- val, ok := data[key]; a nil map has no entries.
unfoldable pub find_entry : String → Entries → Option ConfValue
find_entry key no_entries = none
find_entry key (entry k v rest) = if str_eq k key then some v else find_entry key rest

-- A nil value is as good as none.
abbrev pub not_nil : ConfValue → Option ConfValue
not_nil null = none
not_nil v = some v

-- get
unfoldable pub get : Entries → String → Option ConfValue
unfolding find_entry to_lower
get m key = if str_eq key "" then none else elim (find_entry key m) [
  | some v ↦ not_nil v
  | none ↦ elim (find_entry (to_lower key) m) [ some v ↦ not_nil v | none ↦ none ]
]
