-- ===== src/Orchestration/Payload/Tests.antt =====
-- The canonical text of a payload at concrete inputs.
use Prim.Native.String.{◌++◌}
use pi_musubi_core.Prelude.{true, ok, err, ◌≡◌, refl, arith}
use pi_musubi_core.Prelude.Int.{pos}
use pi_musubi_core.Prelude.Text.{trim, trim_start, is_whitespace}
use pi_musubi_core.Orchestration.Json.{Value, bool, number, object, end, entry}
use pi_musubi_core.Orchestration.Json.Order.{lex_lt}
use pi_musubi_core.Orchestration.Json.Sorted.{sort_entries, insert_entry}
use pi_musubi_core.Orchestration.Model.{CommandEnvelope, empty_external_idempotency_key}
use pi_musubi_core.Orchestration.Payload.{
  Encoding, write_canonical_json, write_values, written_entries, write_entries_text, payload_hash,
  new_command_envelope, new_external_idempotency_key,
}
use pi_musubi_core.Orchestration.Payload.Canonical.{
  Reordered, objects, swapped, payload_hash-Reordered,
}

abbrev encoding : Encoding
encoding = record { json_string = λ s. ok ("'" ++ (s ++ "'")); sha256_hex = λ text. "#" ++ text }

abbrev payload : Value
payload = object (entry "to" (number "7") (entry "all" (bool true) end))

abbrev payload_again : Value
payload_again = object (entry "all" (bool true) (entry "to" (number "7") end))

swaps_entries : Reordered payload payload_again
swaps_entries = objects (swapped λ h. ground arith)

is_written : write_canonical_json encoding payload ≡ ok "{'all': true, 'to': 7}"
unfolding write_canonical_json write_values written_entries write_entries_text sort_entries
    insert_entry lex_lt
is_written = refl

payload_hash-Reordered_example : payload_hash encoding payload ≡ payload_hash encoding payload_again
payload_hash-Reordered_example = payload_hash-Reordered encoding payload payload_again swaps_entries

abbrev envelope : Value → CommandEnvelope
envelope value = record {
  command_id = 3;
  source_event_id = 4;
  command_type = "notify";
  schema_version = pos 1;
  payload_json = value;
  payload_hash = "#{'all': true, 'to': 7}";
}

makes : new_command_envelope encoding 3 4 "notify" (pos 1) payload ≡ ok (envelope payload)
unfolding new_command_envelope payload_hash write_canonical_json write_values written_entries
    write_entries_text sort_entries insert_entry lex_lt
makes = refl

makes_again :
    new_command_envelope encoding 3 4 "notify" (pos 1) payload_again ≡ ok (envelope payload_again)
unfolding new_command_envelope payload_hash write_canonical_json write_values written_entries
    write_entries_text sort_entries insert_entry lex_lt
makes_again = refl

blank_key : new_external_idempotency_key "  " ≡ err empty_external_idempotency_key
unfolding new_external_idempotency_key trim trim_start is_whitespace
blank_key = refl
