-- ===== src/Error.antt =====
-- The errors that the bridge's code builds or passes on, one constructor for each message of the
-- source or each library that an error comes from.
use nats_mq.Prelude.{ℕ, String, ◌≡◌, ◌≢◌, refl, ◌⊎◌, inl, inr}
use nats_mq.Prelude.Int.{ℤ}

-- *ibmmq.MQReturn: the completion and reason codes.
pub record MqReturn : Type 0 where
  pub mqcc : ℤ
  pub mqrc : ℤ

pub data Error : Type 0 where
  -- message/message.go
  unsupported_type : String → Error
  zero_length : Error
  -- nats-mq/core/msgconv.go
  broken_property : String → Error
  empty_message : Error
  -- nats-mq/core/connector.go and the connectors
  unknown_connector : String → Error
  requires_nats requires_stan : String → Error
  not_streaming : Error
  mq_callback : MqReturn → Error
  -- nats-mq/conf
  bad_option bad_integer bad_float bad_host_port bad_port not_convertible : String → Error
  unsettable_field missing_field no_matching_map unsupported_map unknown_field_type : String → Error
  bad_struct_array : Error
  path_unset : Error
  bad_path no_path not_a_directory not_a_file : String → Error
  -- nats-mq/core/monitoring.go and bridge.go
  both_ports : ℤ → ℤ → Error
  tls_pair_required no_config_file : Error
  monitor_port : Error → Error
  -- passed on from the network and the file system
  net file : ℕ → Error
  -- passed on from the MQ library, the codec, NATS and NATS streaming
  mq : MqReturn → Error
  codec nats stan : ℕ → Error

pub data Result {ℓ} (A : Type ℓ) : Type ℓ where
  ok : A → Result A
  err : Error → Result A

pub Result-cases {ℓ} :
    {A : Type ℓ} (r : Result A) → ((e : Error) × (r ≡ err e)) ⊎ ((a : A) × (r ≡ ok a))
Result-cases (err e) = inl (e, refl)
Result-cases (ok a) = inr (a, refl)

-- A call that may also panic, as a failed type assertion or a write to a nil map does.
pub data Outcome {ℓ} (A : Type ℓ) : Type ℓ where
  done : A → Outcome A
  fails : Error → Outcome A
  panics : Outcome A

infixl 5 ◌>>=◌
abbrev pub ◌>>=◌ {ℓ κ} : {A : Type ℓ} {B : Type κ} → Outcome A → (A → Outcome B) → Outcome B
done a >>= f = f a
fails e >>= f = fails e
panics >>= f = panics

abbrev pub lift {ℓ} : {A : Type ℓ} → Result A → Outcome A
lift (ok a) = done a
lift (err e) = fails e

-- A chain whose steps do not panic does not panic.
pub >>=-ne-panics {ℓ κ} :
    {A : Type ℓ} {B : Type κ} (m : Outcome A) (f : A → Outcome B)
    → m ≢ panics
    → ((a : A) → m ≡ done a → f a ≢ panics)
    → (m >>= f) ≢ panics
>>=-ne-panics (done a) f h k = k a refl
>>=-ne-panics (fails e) f h k = λ p. cc
>>=-ne-panics panics f h k = absurd (h refl)

pub lift-ne-panics {ℓ} : {A : Type ℓ} (r : Result A) → lift r ≢ panics
lift-ne-panics (ok a) = λ p. cc
lift-ne-panics (err e) = λ p. cc
