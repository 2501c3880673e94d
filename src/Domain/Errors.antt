-- ===== src/Domain/Errors.antt =====
-- src/domain/errors.ts: the classes of delivery errors, and what the operations throw.
use Prim.Native.String.{String}
use whatsapp_bot.Base.{ℕ, Text, Option}
use whatsapp_bot.Domain.Jobs.{JobStatus}

pub data DeliveryErrorClass : Type 0 where
  temporary_network connection_closed rate_limited auth_required : DeliveryErrorClass
  logged_out permission_error destination_error invalid_payload : DeliveryErrorClass
  media_error session_error unknown_transient unknown_permanent : DeliveryErrorClass

pub record DeliveryError : Type 0 where
  pub error_class : DeliveryErrorClass
  pub message : String
  pub retry_after_ms : Option ℕ

-- The values that the code writes to `last_error_class`: a delivery class, or one of the three
-- markers of the shutdown, the operator and the restart.
pub data LastErrorClass : Type 0 where
  delivery : DeliveryErrorClass → LastErrorClass
  shutdown_before_send operator_cancelled delivery_uncertain_after_restart : LastErrorClass

-- What an operation throws: the classes of the source, and the constraint errors of the schema.
pub data Error : Type 0 where
  not_found : Text → Error
  duplicate_job : Text → Error
  invalid_state_transition : JobStatus → JobStatus → Error
  unique_constraint_failed check_constraint_failed foreign_key_constraint_failed : Error
  plain : String → Error
  delivery_error : DeliveryError → Error
