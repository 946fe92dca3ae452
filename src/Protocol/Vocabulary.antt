-- ===== src/Protocol/Vocabulary.antt =====
-- internal/protocol/v1/vocabulary.go. An operation is a text, as in the source, of which three values
-- are valid; the other closed vocabularies are data types of their valid values.
use activity_relay_directory.Prelude.{Bool, ◌||◌, Bytes, codes, bytes_eq}

abbrev pub Operation : Type 0
Operation = Bytes

abbrev pub operation_register : Operation
operation_register = codes "register"

abbrev pub operation_heartbeat : Operation
operation_heartbeat = codes "heartbeat"

abbrev pub operation_unregister : Operation
operation_unregister = codes "unregister"

unfoldable pub operation_valid : Operation → Bool
operation_valid operation =
    bytes_eq operation operation_register
    || bytes_eq operation operation_heartbeat
    || bytes_eq operation operation_unregister

pub data HealthState : Type 0 where
  healthy stale dead prune : HealthState

pub data AdministrativeState : Type 0 where
  active suspended : AdministrativeState

pub data Outcome : Type 0 where
  created updated unchanged recorded removed absent : Outcome

-- `outcome.ValidFor(operation)`
unfoldable pub valid_for : Outcome → Operation → Bool
valid_for outcome operation = elim outcome [
  | created ↦ bytes_eq operation operation_register
  | updated ↦ bytes_eq operation operation_register
  | unchanged ↦ bytes_eq operation operation_register
  | recorded ↦ bytes_eq operation operation_heartbeat
  | removed ↦ bytes_eq operation operation_unregister
  | absent ↦ bytes_eq operation operation_unregister
]
