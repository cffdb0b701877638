-- ===== src/RunControl/Keys.antt =====
-- The table `idempotency_keys`, with `_reserve_idempotency_key`, `_set_idempotency_status` and
-- `_require_owned_run` of src/repopilot/infrastructure/run_control.py.
use acoding_agent.Prelude.{
  ℕ, ◌==◌, Bool, ◌&&◌, not, Option, none, some, List, [], ◌∷◌, any, Text, text_eq, if◌then◌else◌,
}
use acoding_agent.Prelude.Checked.{Checked, accepted, ◌>>=◌, ◌>>◌, refuse_if, found_or}
use acoding_agent.RunControl.Records.{
  KeyStatus, pending, IdempotencyKey, Error, run_not_found, idempotency_conflict, run_unavailable,
  integrity_error,
}

abbrev pub has_key : (tenant_id : ℕ) (key : Text) → IdempotencyKey → Bool
has_key tenant_id key row = row.tenant_id == tenant_id && text_eq row.key key

unfoldable pub find_key : (tenant_id : ℕ) (key : Text) → List IdempotencyKey → Option IdempotencyKey
find_key tenant_id key [] = none
find_key tenant_id key (row ∷ rows) =
    if has_key tenant_id key row then some row else find_key tenant_id key rows

abbrev pub new_key :
    (tenant_id : ℕ) (key request_hash : Text) (run_id expires_at : ℕ) → IdempotencyKey
new_key tenant_id key request_hash run_id expires_at = record {
  tenant_id = tenant_id;
  key = key;
  request_sha256 = request_hash;
  run_id = run_id;
  request_artifact_id = none;
  status = pending;
  expires_at = expires_at;
}

-- `insert(…).on_conflict_do_nothing(index_elements=["tenant_id", "key"])`. A conflict on the other
-- unique column, `run_id`, is an error.
unfoldable pub insert_key :
    IdempotencyKey → List IdempotencyKey → Checked Error (List IdempotencyKey)
insert_key new rows = if any (has_key new.tenant_id new.key) rows then accepted rows else do
  refuse_if (any (λ row. row.run_id == new.run_id) rows) integrity_error
  accepted (new ∷ rows)

-- The end of `_reserve_idempotency_key`.
unfoldable pub check_record :
    (request_hash : Text) → Option IdempotencyKey → Checked Error IdempotencyKey
check_record request_hash found = do
  row ← found_or run_unavailable found
  refuse_if (not (text_eq row.request_sha256 request_hash)) idempotency_conflict
  accepted row

-- `_set_idempotency_status`
unfoldable pub set_idempotency_status :
    (tenant_id : ℕ) (key : Text)
    → KeyStatus
    → (request_artifact_id : ℕ) → List IdempotencyKey
    → List IdempotencyKey
set_idempotency_status tenant_id key status request_artifact_id [] = []
set_idempotency_status tenant_id key status request_artifact_id (row ∷ rows) =
    let rest = set_idempotency_status tenant_id key status request_artifact_id rows in
    (if has_key tenant_id key row
      then record row { status = status; request_artifact_id = some request_artifact_id }
      else row)
    ∷ rest

abbrev pub owns : (tenant_id run_id : ℕ) → IdempotencyKey → Bool
owns tenant_id run_id row = row.tenant_id == tenant_id && row.run_id == run_id

-- `_require_owned_run`
unfoldable pub require_owned_run :
    (tenant_id run_id : ℕ) → List IdempotencyKey → Checked Error (Unit {0})
require_owned_run tenant_id run_id rows =
    refuse_if (not (any (owns tenant_id run_id) rows)) run_not_found
