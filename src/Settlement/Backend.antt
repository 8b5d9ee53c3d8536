-- ===== src/Settlement/Backend.antt =====
-- apps/backend/crates/settlement-domain/src/backend.rs, commands.rs, descriptor.rs, payload.rs and
-- errors.rs: the contract of a settlement backend. Identifiers are texts. The trait is a record of
-- the methods that a backend supplies, each acting on the world outside, of the type `W`.
pub mod Results
pub mod Contract
use pi_musubi_core.Prelude.{
  ℕ, String, Bool, true, false, ◌&&◌, Option, List, Result, ok, err, ◌==◌, PartialEq, string_eq,
  if◌then◌else◌,
}
use pi_musubi_core.Prelude.Int.{ℤ}
use pi_musubi_core.Settlement.Currency.{CurrencyCode}
use pi_musubi_core.Settlement.Money.{Money}
use pi_musubi_core.Settlement.Capabilities.{
  SettlementCapability, BackendCapabilities, capabilities_support, receipt_verify, reconcile_status,
  normalize_callback,
}
use pi_musubi_core.Settlement.Backend.Results.{
  ReceiptVerification, SubmissionResult, ReconcileResult, NormalizedObservation,
}

pub record BackendPin : Type 0 where
  pub backend_key : String
  pub backend_version : String

pub data ProviderFamily : Type 0 where
  pi_network : ProviderFamily
  other : String → ProviderFamily

pub data ExecutionMode : Type 0 where
  synchronous asynchronous hybrid : ExecutionMode

pub record BackendDescriptor : Type 0 where
  pub backend_key : String
  pub backend_version : String
  pub provider_family : ProviderFamily
  pub execution_mode : ExecutionMode
  pub capabilities : BackendCapabilities

abbrev pub pin : BackendDescriptor → BackendPin
pin d = record { backend_key = d.backend_key; backend_version = d.backend_version }

-- The derived `PartialEq` of a pin, which is also `matches_descriptor` of the descriptor's pin.
abbrev pub pin_beq : BackendPin → BackendPin → Bool
pin_beq a b = (a.backend_key == b.backend_key) && (a.backend_version == b.backend_version)

abbrev pub matches_descriptor : BackendPin → BackendDescriptor → Bool
matches_descriptor p d =
    (p.backend_key == d.backend_key) && (p.backend_version == d.backend_version)

pub data BackendError : Type 0 where
  capability_unsupported : String → SettlementCapability → BackendError
  backend_pin_mismatch : BackendPin → BackendPin → BackendError
  invalid_configuration : String → BackendError
  invalid_provider_payload invalid_provider_response timeout : BackendError
  temporarily_unavailable idempotency_mapping_failed : BackendError
  observation_normalization_failed : BackendError

pub data VerifyReceiptExpectation : Type 0 where
  amount : Money → VerifyReceiptExpectation
  currency : CurrencyCode → VerifyReceiptExpectation

pub record VerifyReceiptCmd : Type 0 where
  pub backend : BackendPin
  pub receipt_id : String
  pub raw_callback_ref : String
  pub expected : Option VerifyReceiptExpectation

pub data ProviderPayloadValue : Type 0 where
  text : String → ProviderPayloadValue
  integer : ℤ → ProviderPayloadValue
  money : Money → ProviderPayloadValue
  provider_ref provider_submission_id : String → ProviderPayloadValue
  provider_callback_id provider_tx_hash : String → ProviderPayloadValue
  boolean : Bool → ProviderPayloadValue

pub record ProviderPayloadField : Type 0 where
  pub name : String
  pub value : ProviderPayloadValue

pub record ProviderPayloadSchema : Type 0 where
  pub name : String
  pub version : ℕ

pub record ProviderPayload : Type 0 where
  pub schema : ProviderPayloadSchema
  pub fields : List ProviderPayloadField

pub record SubmitActionCmd : Type 0 where
  pub backend : BackendPin
  pub case_id : String
  pub intent_id : String
  pub submission_id : String
  pub internal_idempotency_key : String
  pub capability : SettlementCapability
  pub amount : Option Money
  pub provider_payload : ProviderPayload

pub record ReconcileSubmissionCmd : Type 0 where
  pub backend : BackendPin
  pub case_id : String
  pub submission_id : String
  pub provider_ref : Option String

pub record NormalizeCallbackCmd : Type 0 where
  pub backend : BackendPin
  pub raw_callback_ref : String

abbrev pub Call : Type 0 → Type 0 → Type 0
Call W A = W → Result BackendError A × W

pub record SettlementBackend (W : Type 0) : Type 0 where
  pub descriptor : BackendDescriptor
  pub provider_idempotency_key : String → Result BackendError String
  pub verify_receipt_impl : VerifyReceiptCmd → Call W ReceiptVerification
  pub submit_action_impl : SubmitActionCmd → Call W SubmissionResult
  pub reconcile_submission_impl : ReconcileSubmissionCmd → Call W ReconcileResult
  pub normalize_callback_impl : NormalizeCallbackCmd → Call W (List NormalizedObservation)

module _ {W : Type 0} (b : SettlementBackend W) where
  abbrev pub supports : SettlementCapability → Bool
  supports capability = capabilities_support b.descriptor.capabilities capability

  abbrev pub ensure_capability : SettlementCapability → Result BackendError (Unit {0})
  ensure_capability capability =
      if supports capability
      then ok tt
      else err (capability_unsupported b.descriptor.backend_key capability)

  abbrev pub ensure_backend_pin : BackendPin → Result BackendError (Unit {0})
  ensure_backend_pin backend =
      if pin_beq backend (pin b.descriptor)
      then ok tt
      else err (backend_pin_mismatch backend (pin b.descriptor))

  -- `?` before a call.
  abbrev pub guard : {A : Type 0} → Result BackendError (Unit {0}) → Call W A → Call W A
  guard (ok _) call w = call w
  guard (err e) call w = (err e, w)

  unfoldable pub verify_receipt : VerifyReceiptCmd → Call W ReceiptVerification
  verify_receipt cmd =
      guard (ensure_backend_pin cmd.backend)
        (guard (ensure_capability receipt_verify) (b.verify_receipt_impl cmd))

  unfoldable pub submit_action : SubmitActionCmd → Call W SubmissionResult
  submit_action cmd =
      guard (ensure_backend_pin cmd.backend)
        (guard (ensure_capability cmd.capability) (b.submit_action_impl cmd))

  unfoldable pub reconcile_submission : ReconcileSubmissionCmd → Call W ReconcileResult
  reconcile_submission cmd =
      guard (ensure_backend_pin cmd.backend)
        (guard (ensure_capability reconcile_status) (b.reconcile_submission_impl cmd))

  unfoldable pub normalize_callback_of : NormalizeCallbackCmd → Call W (List NormalizedObservation)
  normalize_callback_of cmd =
      guard (ensure_backend_pin cmd.backend)
        (guard (ensure_capability normalize_callback) (b.normalize_callback_impl cmd))
