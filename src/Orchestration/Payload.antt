-- ===== src/Orchestration/Payload.antt =====
-- apps/backend/crates/orchestration/src/model.rs: the canonical text of a payload, its hash, and
-- the constructors that store it. What serde_json writes for a string and the SHA-256 digest in
-- hexadecimal are the parameter `Encoding`. Text that the source pushes is text returned; `write!` on a `String` does not fail.
pub mod Canonical
mod Tests
use Prim.Native.String.{◌++◌}
use pi_musubi_core.Prelude.{
  String, Bool, true, false, not, List, [], ◌∷◌, Result, ok, err, if◌then◌else◌, ◌≡◌,
}
use pi_musubi_core.Prelude.Int.{ℤ}
use pi_musubi_core.Prelude.Text.{codes, trim, is_empty}
use pi_musubi_core.Orchestration.Json.{
  Value, Values, Entries, null, bool, number, string, array, object, nil, cons, end, entry,
}
use pi_musubi_core.Orchestration.Json.Sorted.{sort_entries}
use pi_musubi_core.Orchestration.Model.{
  Uuid, DateTime, NewOutboxMessage, CommandEnvelope, DeliveryReceipt, OrchestrationError,
  payload_hash_encoding_failed, empty_external_idempotency_key,
}

pub record Encoding : Type 0 where
  pub json_string : String → Result String String
  pub sha256_hex : String → String

abbrev pub Written : Type 0
Written = Result OrchestrationError String

-- `?` on what was written, and `map_err`.
abbrev pub then_write : Written → (String → Written) → Written
then_write (ok text) f = f text
then_write (err e) f = err e

abbrev pub write_string : Encoding → String → Written
write_string encoding s = elim (encoding.json_string s) [
  | ok text ↦ ok text
  | err detail ↦ err (payload_hash_encoding_failed detail)
]

-- `if index > 0 { output.push_str(", ") }`
abbrev pub separator : Bool → String
separator first = if first then "" else ", "

unfoldable pub write_entries_text : Encoding → Bool → List (String × Written) → Written
write_entries_text encoding first [] = ok ""
write_entries_text encoding first (e ∷ es) =
    let rest = write_entries_text encoding false es in
    then_write (write_string encoding e.0) λ key.
      then_write e.1 λ value.
        then_write rest λ after. ok (separator first ++ (key ++ (": " ++ (value ++ after))))

unfoldable mutual
  unfolding write_entries_text sort_entries

  pub write_canonical_json : Encoding → Value → Written
  write_canonical_json encoding null = ok "null"
  write_canonical_json encoding (bool boolean) = ok (if boolean then "true" else "false")
  write_canonical_json encoding (number text) = ok text
  write_canonical_json encoding (string s) = write_string encoding s
  write_canonical_json encoding (array values) =
      then_write (write_values encoding true values) λ text. ok ("[" ++ (text ++ "]"))
  write_canonical_json encoding (object map) =
      then_write (write_entries_text encoding true (sort_entries (written_entries encoding map)))
        λ text. ok ("{" ++ (text ++ "}"))

  pub write_values : Encoding → Bool → Values → Written
  write_values encoding first nil = ok ""
  write_values encoding first (cons value values) =
      let rest = write_values encoding false values in
      then_write (write_canonical_json encoding value)
        λ text. then_write rest λ after. ok (separator first ++ (text ++ after))

  -- The entries with what is written for their values, in the map's order.
  pub written_entries : Encoding → Entries → List (String × Written)
  written_entries encoding end = []
  written_entries encoding (entry key value es) =
      (key, write_canonical_json encoding value) ∷ written_entries encoding es

unfoldable pub payload_hash : Encoding → Value → Written
unfolding write_canonical_json
payload_hash encoding payload_json =
    then_write (write_canonical_json encoding payload_json) λ text. ok (encoding.sha256_hex text)

pub record NewOutboxMessageSpec : Type 0 where
  pub event_id : Uuid
  pub idempotency_key : Uuid
  pub stream_key : String
  pub aggregate_type : String
  pub aggregate_id : Uuid
  pub event_type : String
  pub schema_version : ℤ
  pub payload_json : Value
  pub available_at : DateTime
  pub created_at : DateTime

unfoldable pub new_outbox_message :
    Encoding → NewOutboxMessageSpec → Result OrchestrationError NewOutboxMessage
unfolding payload_hash
new_outbox_message encoding spec = elim (payload_hash encoding spec.payload_json) [
  | err e ↦ err e
  | ok hash ↦ ok (record {
    event_id = spec.event_id;
    idempotency_key = spec.idempotency_key;
    stream_key = spec.stream_key;
    aggregate_type = spec.aggregate_type;
    aggregate_id = spec.aggregate_id;
    event_type = spec.event_type;
    schema_version = spec.schema_version;
    payload_json = spec.payload_json;
    payload_hash = hash;
    available_at = spec.available_at;
    created_at = spec.created_at;
  })
]

unfoldable pub new_command_envelope :
    Encoding → Uuid → Uuid → String → ℤ → Value → Result OrchestrationError CommandEnvelope
unfolding payload_hash
new_command_envelope encoding command_id source_event_id command_type schema_version payload_json =
    elim (payload_hash encoding payload_json) [
      | err e ↦ err e
      | ok hash ↦ ok (record {
        command_id = command_id;
        source_event_id = source_event_id;
        command_type = command_type;
        schema_version = schema_version;
        payload_json = payload_json;
        payload_hash = hash;
      })
    ]

-- `ExternalIdempotencyKey::new`: the key is its text.
unfoldable pub new_external_idempotency_key : String → Written
unfolding trim
new_external_idempotency_key value =
    if is_empty (trim (codes value)) then err empty_external_idempotency_key else ok value
