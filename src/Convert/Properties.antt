-- ===== src/Convert/Properties.antt =====
-- copyMessageProperties and mapPropertiesToHandle of nats-mq/core/msgconv.go.
use nats_mq.Prelude.{String, Bool, true, false, List, [], ◌∷◌, ◌++◌, Option, none, some}
use nats_mq.Prelude.Int.{eqb_ℤ}
use nats_mq.Error.{Error, MqReturn, Outcome, done, fails, panics, ◌>>=◌, broken_property, mq}
use nats_mq.Message.Data.{Value, Property, BridgeMessage}
use nats_mq.Message.Property.{FloatConv, set_property, get_typed_property}
use nats_mq.Convert.Mqmd.{MqConstants}

-- A message handle, as inquiry sees it: the properties that successive calls of InqMP return, and the
-- return that ends them. The library says MQRC_PROPERTY_NOT_AVAILABLE when there are no more.
pub record MessageHandle : Type 0 where
  pub properties : List (String × Value)
  pub end : MqReturn

abbrev pub set_outcome : Option (BridgeMessage × Option Error) → Outcome BridgeMessage
set_outcome none = panics
set_outcome (some (msg, none)) = done msg
set_outcome (some (msg, some e)) = fails e

-- mqret.MQRC != MQRC_PROPERTY_NOT_AVAILABLE is an error, otherwise the loop ends.
abbrev pub end_of_inquiry : MqReturn → BridgeMessage → Bool → Outcome BridgeMessage
end_of_inquiry end msg true = done msg
end_of_inquiry end msg false = fails (mq end)

-- The loop that reads one property after another into the message.
unfoldable pub copy_loop :
    MqConstants → List (String × Value) → MqReturn → BridgeMessage → Outcome BridgeMessage
copy_loop c [] end msg = end_of_inquiry end msg (eqb_ℤ end.mqrc c.mqrc_property_not_available)
copy_loop c ((name, value) ∷ rest) end msg = do
  msg' ← set_outcome (set_property msg name value)
  copy_loop c rest end msg'

-- `none` is EmptyHandle.
unfoldable pub copy_message_properties :
    MqConstants → Option MessageHandle → BridgeMessage → Outcome BridgeMessage
unfolding copy_loop
copy_message_properties c none msg = done msg
copy_message_properties c (some h) msg = copy_loop c h.properties h.end msg

-- What the queue manager answers while a handle is filled: `none` is success.
pub record HandleCalls : Type 0 where
  pub crt_mh : Option MqReturn
  pub set_mp : String → Value → Option MqReturn

abbrev pub accepted : Option MqReturn → Outcome (Unit {0})
accepted none = done tt
accepted (some r) = fails (mq r)

-- value, ok := msg.GetTypedProperty(name)
abbrev pub typed_value : String → Option (Value × Bool) → Outcome Value
typed_value name none = panics
typed_value name (some (v, true)) = done v
typed_value name (some (v, false)) = fails (broken_property name)

module _ (fc : FloatConv) (calls : HandleCalls) where
  -- The loop over the names in the property map, in one of the orders that Go leaves open; the result
  -- is what the handle then holds.
  unfoldable pub put_loop :
      BridgeMessage
      → List (String × Property)
      → List (String × Value)
      → Outcome (List (String × Value))
  put_loop msg [] held = done held
  put_loop msg ((name, p) ∷ rest) held = do
    value ← typed_value name (get_typed_property fc msg name)
    stored ← accepted (calls.set_mp name value)
    put_loop msg rest (held ++ (name, value) ∷ [])

  unfoldable pub map_properties_to_handle : BridgeMessage → Outcome (List (String × Value))
  unfolding put_loop
  map_properties_to_handle msg = do
    created ← accepted calls.crt_mh
    elim (msg.properties) [ none ↦ done [] | some d ↦ put_loop msg d [] ]
