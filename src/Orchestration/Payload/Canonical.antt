-- ===== src/Orchestration/Payload/Canonical.antt =====
-- apps/backend/crates/orchestration/src/model.rs: what the payload hash depends on.
use Prim.Native.String.{◌++◌}
use pi_musubi_core.Prelude.{String, Bool, true, false, ok, ◌≡◌, ◌≢◌, refl, ap, ◌∙◌, arith}
use pi_musubi_core.Prelude.Int.{ℤ}
use pi_musubi_core.Prelude.Text.{codes}
use pi_musubi_core.Orchestration.Json.{Value, Values, Entries, array, object, nil, cons, end, entry}
use pi_musubi_core.Orchestration.Json.Sorted.{sort_entries, insert_entry, insert_entry_comm}
use pi_musubi_core.Orchestration.Model.{Uuid, CommandEnvelope, CommandInboxEntry}
use pi_musubi_core.Orchestration.Store.{matches_inbox_entry}
use pi_musubi_core.Orchestration.Payload.{
  Encoding, Written, then_write, write_entries_text, write_canonical_json, write_values,
  written_entries, payload_hash, new_command_envelope,
}

-- Two values that differ in the order of the entries of their objects only.
mutual
  pub data Reordered : Value → Value → Type 0 where
    same : (v : Value) → Reordered v v
    arrays : {vs ws : Values} → ReorderedValues vs ws → Reordered (array vs) (array ws)
    objects : {es fs : Entries} → ReorderedEntries es fs → Reordered (object es) (object fs)

  pub data ReorderedValues : Values → Values → Type 0 where
    no_values : ReorderedValues nil nil
    values :
        {v w : Value} {vs ws : Values}
        → Reordered v w
        → ReorderedValues vs ws
        → ReorderedValues (cons v vs) (cons w ws)

  pub data ReorderedEntries : Entries → Entries → Type 0 where
    no_entries : ReorderedEntries end end
    entries :
        {key : String} {v w : Value} {es fs : Entries}
        → Reordered v w
        → ReorderedEntries es fs
        → ReorderedEntries (entry key v es) (entry key w fs)
    swapped :
        {j k : String} {v w : Value} {es : Entries}
        → codes j ≢ codes k
        → ReorderedEntries (entry j v (entry k w es)) (entry k w (entry j v es))
    chained :
        {es fs gs : Entries}
        → ReorderedEntries es fs
        → ReorderedEntries fs gs
        → ReorderedEntries es gs

mutual
  unfolding write_canonical_json write_values written_entries sort_entries

  written_same :
      (e : Encoding) {v w : Value}
      → Reordered v w
      → write_canonical_json e v ≡ write_canonical_json e w
  written_same e (same v) = refl
  written_same e (arrays r) =
      ap (λ t. then_write t λ text. ok ("[" ++ (text ++ "]"))) (values_same e true r)
  written_same e (objects r) =
      ap (λ es. then_write (write_entries_text e true es) λ text. ok ("{" ++ (text ++ "}")))
        (entries_same e r)

  values_same :
      (e : Encoding) (first : Bool) {vs ws : Values}
      → ReorderedValues vs ws
      → write_values e first vs ≡ write_values e first ws
  values_same e first no_values = refl
  values_same e first (values r rs) = rw (written_same e r, values_same e false rs) refl

  entries_same :
      (e : Encoding) {es fs : Entries}
      → ReorderedEntries es fs
      → sort_entries (written_entries e es) ≡ sort_entries (written_entries e fs)
  entries_same e no_entries = refl
  entries_same e (entries {key = key} {v = v} {w = w} {es = es} r rs) =
      ap (λ t. insert_entry (key, t) (sort_entries (written_entries e es))) (written_same e r)
      ∙ ap (insert_entry (key, write_canonical_json e w)) (entries_same e rs)
  entries_same e (swapped {j = j} {k = k} {v = v} {w = w} {es = es} apart) =
      insert_entry_comm (j, write_canonical_json e v) (k, write_canonical_json e w)
        (sort_entries (written_entries e es)) apart
  entries_same e (chained r s) = entries_same e r ∙ entries_same e s

-- The payload hash is the same for two values that differ in the order of the entries of their
-- objects only, at whatever depth, whatever serde_json and the digest are.
pub payload_hash-Reordered :
    (encoding : Encoding) (v w : Value)
    → Reordered v w
    → payload_hash encoding v ≡ payload_hash encoding w
unfolding payload_hash
payload_hash-Reordered encoding v w r =
    ap (λ t. then_write t λ text. ok (encoding.sha256_hex text)) (written_same encoding r)

envelope_fields :
    (encoding : Encoding) (id source : Uuid) (kind : String) (version : ℤ) (v : Value)
    (c : CommandEnvelope)
    → new_command_envelope encoding id source kind version v ≡ ok c
    → (payload_hash encoding v ≡ ok c.payload_hash)
      × (source ≡ c.source_event_id)
      × (kind ≡ c.command_type)
      × (version ≡ c.schema_version)
unfolding new_command_envelope
envelope_fields encoding id source kind version v c h = ground arith

ok_inj : (s t : String) (r : Written) → r ≡ ok s → r ≡ ok t → s ≡ t
ok_inj s t r h k = cc

-- Two envelopes with the same identifiers, type and version, whose payloads differ in the order of
-- the entries of their objects only, match the same commands of an inbox.
pub new_command_envelope-Reordered :
    (encoding : Encoding) (id source : Uuid) (kind : String) (version : ℤ) (v w : Value)
    (c d : CommandEnvelope) (x : CommandInboxEntry)
    → Reordered v w
    → new_command_envelope encoding id source kind version v ≡ ok c
    → new_command_envelope encoding id source kind version w ≡ ok d
    → matches_inbox_entry c x ≡ matches_inbox_entry d x
unfolding matches_inbox_entry
new_command_envelope-Reordered encoding id source kind version v w c d x r h k =
    let (hc, sc, kc, vc) = envelope_fields encoding id source kind version v c h in
    let (hd, sd, kd, vd) = envelope_fields encoding id source kind version w d k in
    let hash =
      ok_inj c.payload_hash d.payload_hash (payload_hash encoding v) hc
        (payload_hash-Reordered encoding v w r ∙ hd) in
    rw (hash, ← sc, ← sd, ← kc, ← kd, ← vc, ← vd) refl
