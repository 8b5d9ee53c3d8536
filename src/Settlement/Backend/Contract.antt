-- ===== src/Settlement/Backend/Contract.antt =====
-- apps/backend/crates/settlement-domain/src/backend.rs: what the guards of a backend promise.
use pi_musubi_core.Prelude.{
  ◌≡◌, ◌≢◌, ◌↔◌, inl, inr, refl, true, false, err, arith, Bool-cases, string_eq,
}
use pi_musubi_core.Settlement.Capabilities.{
  SettlementCapability, receipt_verify, reconcile_status, normalize_callback,
}
use pi_musubi_core.Settlement.Backend.{
  BackendPin, pin, pin_beq, capability_unsupported, backend_pin_mismatch, Call, SettlementBackend,
  supports, guard, ensure_backend_pin, ensure_capability, verify_receipt, submit_action,
  reconcile_submission, normalize_callback_of, VerifyReceiptCmd, SubmitActionCmd,
  ReconcileSubmissionCmd, NormalizeCallbackCmd,
}

pin_beq_iff : (a b : BackendPin) → (pin_beq a b ≡ true) ↔ (a ≡ b)
pin_beq_iff a b = ground (
  arith,
  string_eq.decides a.backend_key b.backend_key,
  string_eq.decides a.backend_version b.backend_version,
)

pin_other : (a b : BackendPin) → a ≢ b → pin_beq a b ≡ false
pin_other a b n = elim (Bool-cases (pin_beq a b)) [
  | inl e ↦ absurd (n ((pin_beq_iff a b).0 e))
  | inr e ↦ e
]

module _ {W : Type 0} (b : SettlementBackend W) where
  -- Guarded by a pin and a capability: the call is the implementation's for the backend's own pin
  -- and a supported capability, and else an error with the world as it was.
  pub record Guarded {A : Type 0} (backend : BackendPin) (capability : SettlementCapability)
      (impl call : Call W A) : Type 0 where
    pub reached :
        backend ≡ pin b.descriptor → supports b capability ≡ true → (w : W) → call w ≡ impl w
    pub misdirected :
        backend ≢ pin b.descriptor
        → (w : W) → call w ≡ (err (backend_pin_mismatch backend (pin b.descriptor)), w)
    pub unsupported :
        backend ≡ pin b.descriptor
        → supports b capability ≡ false
        → (w : W) → call w ≡ (err (capability_unsupported b.descriptor.backend_key capability), w)

  guard-Guarded :
      {A : Type 0} (backend : BackendPin) (capability : SettlementCapability) (impl : Call W A)
      → Guarded backend capability impl
          (guard b (ensure_backend_pin b backend) (guard b (ensure_capability b capability) impl))
  guard-Guarded backend capability impl = record {
    reached = λ e h w. rw ((pin_beq_iff backend (pin b.descriptor)).1 e, h) refl;
    misdirected = λ e w. rw (pin_other backend (pin b.descriptor) e) refl;
    unsupported = λ e h w. rw ((pin_beq_iff backend (pin b.descriptor)).1 e, h) refl;
  }

  -- Each operation of a backend reaches its implementation exactly under the backend's own pin
  -- and for a supported capability: that of the command for an action, and the fixed one for
  -- receipts, reconciliation and callbacks. Otherwise it fails and does nothing.
  pub backend_contract :
      ((c : VerifyReceiptCmd)
        → Guarded c.backend receipt_verify (b.verify_receipt_impl c) (verify_receipt b c))
      × ((c : SubmitActionCmd)
          → Guarded c.backend c.capability (b.submit_action_impl c) (submit_action b c))
      × ((c : ReconcileSubmissionCmd)
          → Guarded c.backend reconcile_status
              (b.reconcile_submission_impl c)
              (reconcile_submission b c))
      × ((c : NormalizeCallbackCmd)
          → Guarded c.backend normalize_callback
              (b.normalize_callback_impl c)
              (normalize_callback_of b c))
  unfolding verify_receipt submit_action reconcile_submission normalize_callback_of
  backend_contract = (
    (λ c. guard-Guarded c.backend receipt_verify (b.verify_receipt_impl c)),
    (λ c. guard-Guarded c.backend c.capability (b.submit_action_impl c)),
    (λ c. guard-Guarded c.backend reconcile_status (b.reconcile_submission_impl c)),
    (λ c. guard-Guarded c.backend normalize_callback (b.normalize_callback_impl c)),
  )
