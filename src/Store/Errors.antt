-- ===== src/Store/Errors.antt =====
-- `StoreError` of src/store/mod.rs. The source of an error, which `Display` leaves out, is left out.
use npmfilter.Prelude.{ℕ, ◌+◌, String, [], ◌∷◌}
use npmfilter.Prelude.Int.{ℤ, pos, negsuc}
use npmfilter.Prelude.Text.{format, decimal}
use npmfilter.External.{External}

pub data StoreError : Type 0 where
  pins_json migrate_failed query : StoreError
  state_dir open_failed permissions : (path : String) → StoreError
  schema_too_new : (found : ℤ) (supported : ℕ) → StoreError
  unknown_verdict unknown_severity : (raw : String) → StoreError
  bad_timestamp : (secs : ℤ) → StoreError

-- `{n}` for a signed number.
unfoldable pub signed : ℤ → String
unfolding format decimal
signed (pos n) = decimal n
signed (negsuc n) = format ("-" ∷ decimal (n + 1) ∷ [])

-- `StoreError::to_string`.
unfoldable pub error_text : External → StoreError → String
unfolding format signed decimal
error_text env pins_json = "a rule's file pins could not be read or written as JSON"
error_text env migrate_failed = "failed to migrate the npmfilter database"
error_text env query = "npmfilter database query failed"
error_text env (state_dir path) =
    format ("failed to create the npmfilter state directory " ∷ path ∷ [])
error_text env (open_failed path) = format ("failed to open the npmfilter database at " ∷ path ∷ [])
error_text env (permissions path) = format ("failed to restrict the permissions of " ∷ path ∷ [])
error_text env (schema_too_new found supported) = format (
    "the npmfilter database is at schema version "
    ∷ signed found
    ∷ ", newer than the "
    ∷ decimal supported
    ∷ " this binary understands"
    ∷ [])
error_text env (unknown_verdict raw) =
    format ("the rules table holds an unknown verdict " ∷ env.debug raw ∷ [])
error_text env (unknown_severity raw) =
    format ("the audit table holds an unknown severity " ∷ env.debug raw ∷ [])
error_text env (bad_timestamp secs) =
    format ("stored timestamp " ∷ signed secs ∷ " is not a representable date" ∷ [])
