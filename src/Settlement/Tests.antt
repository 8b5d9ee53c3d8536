-- ===== src/Settlement/Tests.antt =====
-- The settlement crate at concrete inputs.
use pi_musubi_core.Prelude.{
  ◌≡◌, ◌≤◌, ◌-◌, ◌^◌, refl, true, List, [], ◌∷◌, ok, err, arith, length, String,
}
use pi_musubi_core.Prelude.Text.{codes, trim, trim_start, is_whitespace}
use pi_musubi_core.Prelude.Int.{ℤ, pos, negsuc, ◌+ℤ◌, ◌-ℤ◌}
use pi_musubi_core.Settlement.Currency.{CurrencyCode, new_currency_code, all, is_code_char}
use pi_musubi_core.Settlement.Currency.Canonical.{new_currency_code_normal}
use pi_musubi_core.Settlement.Money.{Money, overflow, ensure_compatible, checked_add, checked_sub}
use pi_musubi_core.Settlement.Money.Arithmetic.{IsMoney, Fault, add_then_sub, checked_add_error}
use pi_musubi_core.Settlement.Capabilities.{
  SettlementCapability, hold_value, refund_value, receipt_verify, new_capabilities,
}
use pi_musubi_core.Settlement.Capabilities.Canonical.{new_capabilities_canonical, SameSupport}
use pi_musubi_core.Settlement.Backend.{
  SettlementBackend, pi_network, hybrid, timeout, VerifyReceiptCmd, verify_receipt, submit_action,
  reconcile_submission, normalize_callback_of, SubmitActionCmd, ReconcileSubmissionCmd,
  NormalizeCallbackCmd,
}
use pi_musubi_core.Settlement.Backend.Contract.{Guarded, backend_contract}
use pi_musubi_core.Settlement.Capabilities.{reconcile_status, normalize_callback}

abbrev pi_code : CurrencyCode
pi_code = record { code_points = codes "PI-1" }

accepts_pi : new_currency_code (codes " pi-1 ") ≡ ok pi_code
unfolding new_currency_code trim trim_start is_whitespace
accepts_pi = refl

new_currency_code_normal_example :
    (all is_code_char (codes "PI-1") ≡ true)
    × (2 ≤ length (codes "PI-1"))
    × (new_currency_code (codes "PI-1") ≡ ok pi_code)
new_currency_code_normal_example = new_currency_code_normal (codes " pi-1 ") pi_code accepts_pi

abbrev amount : ℤ → Money
amount units = record { currency = pi_code; minor_units = units; scale = 2 }

amount_in_range : IsMoney (amount (pos 250))
amount_in_range = (omega arith, omega arith)

sum : checked_add (amount (pos 250)) (amount (negsuc 99)) ≡ ok (amount (pos 150))
unfolding checked_add ensure_compatible ◌+ℤ◌
sum = refl

difference : checked_sub (amount (pos 250)) (amount (pos 400)) ≡ ok (amount (negsuc 149))
unfolding checked_sub ensure_compatible ◌-ℤ◌
difference = refl

add_then_sub_example : checked_sub (amount (pos 150)) (amount (negsuc 99)) ≡ ok (amount (pos 250))
add_then_sub_example =
    add_then_sub (amount (pos 250)) (amount (negsuc 99)) (amount (pos 150)) amount_in_range sum

overflows : checked_add (amount (pos (2 ^ 127 - 1))) (amount (pos 1)) ≡ err overflow
unfolding checked_add ensure_compatible ◌+ℤ◌
overflows = refl

checked_add_error_example :
    Fault (amount (pos (2 ^ 127 - 1))) (amount (pos 1)) (pos (2 ^ 127 - 1) +ℤ pos 1) overflow
checked_add_error_example =
    checked_add_error (amount (pos (2 ^ 127 - 1))) (amount (pos 1)) overflow overflows

abbrev listed : List SettlementCapability
listed = refund_value ∷ hold_value ∷ refund_value ∷ []

same_members : SameSupport listed (hold_value ∷ refund_value ∷ [])
same_members c = ground arith

new_capabilities_canonical_example :
    new_capabilities listed ≡ new_capabilities (hold_value ∷ refund_value ∷ [])
new_capabilities_canonical_example =
    new_capabilities_canonical listed (hold_value ∷ refund_value ∷ []) same_members

abbrev backend : SettlementBackend (List String)
backend = record {
  descriptor = record {
    backend_key = "pi";
    backend_version = "1";
    provider_family = pi_network;
    execution_mode = hybrid;
    capabilities = new_capabilities listed;
  };
  provider_idempotency_key = λ key. ok key;
  verify_receipt_impl = λ c w. (err timeout, c.receipt_id ∷ w);
  submit_action_impl = λ c w. (err timeout, c.case_id ∷ w);
  reconcile_submission_impl = λ c w. (err timeout, c.case_id ∷ w);
  normalize_callback_impl = λ c w. (ok [], c.raw_callback_ref ∷ w);
}

backend_contract_example :
    ((c : VerifyReceiptCmd)
      → Guarded backend c.backend receipt_verify
          (backend.verify_receipt_impl c)
          (verify_receipt backend c))
    × ((c : SubmitActionCmd)
        → Guarded backend c.backend c.capability
            (backend.submit_action_impl c)
            (submit_action backend c))
    × ((c : ReconcileSubmissionCmd)
        → Guarded backend c.backend reconcile_status
            (backend.reconcile_submission_impl c)
            (reconcile_submission backend c))
    × ((c : NormalizeCallbackCmd)
        → Guarded backend c.backend normalize_callback
            (backend.normalize_callback_impl c)
            (normalize_callback_of backend c))
backend_contract_example = backend_contract backend
