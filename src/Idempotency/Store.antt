-- ===== src/Idempotency/Store.antt =====
-- `IdempotencyRepository` (adapters/repositories/idempotency_repository.py) on the rows of the table
-- `idempotency_keys` (infrastructure/database/models/idempotency.py). Times are microseconds. Every
-- operation commits, so that each is one step; the lengths of the columns are left out.
use arche_api.Base.{ℕ, ◌+◌, ◌*◌, Option, none, some, if◌then◌else◌, leb}
use arche_api.Base.Text.{Text, text_eq}
use arche_api.Base.Dict.{Dict, lookup, insert}
use arche_api.Base.Results.{Result, ok, err}

pub data RecordState : Type 0 where
  is_started is_completed : RecordState

-- A row without its key.
pub record IdempotencyRecord (Json : Type 0) : Type 0 where
  pub request_hash : Text
  pub method : Text
  pub path : Text
  pub status_code : Option ℕ
  pub response_body : Option Json
  pub state : RecordState
  pub created_at : ℕ
  pub updated_at : ℕ
  pub expires_at : ℕ

-- The exceptions of the handler and of what it calls: bytes that are not UTF-8, a value that `dict`
-- does not take, an UPDATE that matches no row, and the exceptions of the handlers downstream.
pub data Raised : Type 0 where
  unicode_decode_error not_a_mapping stale_data_error : Raised
  downstream_error : ℕ → Raised

abbrev pub Table : Type 0 → Type 0
Table Json = Dict Text (IdempotencyRecord Json)

module _ {Json : Type 0} where
  abbrev pub if_active : ℕ → IdempotencyRecord Json → Option (IdempotencyRecord Json)
  if_active now row = if leb now row.expires_at then some row else none

  abbrev pub active_of : ℕ → Option (IdempotencyRecord Json) → Option (IdempotencyRecord Json)
  active_of now none = none
  active_of now (some row) = if_active now row

  -- `get_active`: the key is the primary key, so that there is one row at most.
  unfoldable pub get_active : Text → ℕ → Table Json → Option (IdempotencyRecord Json)
  get_active key now table = active_of now (lookup key table)

  -- `IdempotencyKey.new_started`
  abbrev pub new_started : Text → Text → Text → ℕ → ℕ → IdempotencyRecord Json
  new_started request_hash method path ttl_seconds now = record {
    request_hash = request_hash;
    method = method;
    path = path;
    status_code = none;
    response_body = none;
    state = is_started;
    created_at = now;
    updated_at = now;
    expires_at = now + ttl_seconds * 1000000;
  }

  -- A row of the key is set to the values that a new one would have.
  abbrev pub reset_or_new :
      Text → Text → Text → ℕ → ℕ → Option (IdempotencyRecord Json) → IdempotencyRecord Json
  reset_or_new request_hash method path ttl_seconds now none =
      new_started request_hash method path ttl_seconds now
  reset_or_new request_hash method path ttl_seconds now (some existing) = record existing {
    request_hash = request_hash;
    method = method;
    path = path;
    status_code = none;
    response_body = none;
    state = is_started;
    created_at = now;
    updated_at = now;
    expires_at = now + ttl_seconds * 1000000;
  }

  -- `create_started`
  unfoldable pub create_started : Text → Text → Text → Text → ℕ → ℕ → Table Json → Table Json
  create_started key request_hash method path ttl_seconds now table =
      insert key (reset_or_new request_hash method path ttl_seconds now (lookup key table)) table

  abbrev pub completed_row : ℕ → Option Json → ℕ → IdempotencyRecord Json → IdempotencyRecord Json
  completed_row status_code response_body now row = record row {
    status_code = some status_code;
    response_body = response_body;
    state = is_completed;
    updated_at = now;
  }

  abbrev pub save_on :
      Text
      → ℕ
      → Option Json
      → ℕ
      → Table Json
      → Option (IdempotencyRecord Json)
      → Result Raised (Unit {0}) × Table Json
  save_on key status_code response_body now table none = (err stale_data_error, table)
  save_on key status_code response_body now table (some row) =
      (ok tt, insert key (completed_row status_code response_body now row) table)

  -- `save_result`, after `dict(response_body)`, for a record that no other session has written since.
  unfoldable pub save_result :
      Text → ℕ → Option Json → ℕ → Table Json → Result Raised (Unit {0}) × Table Json
  save_result key status_code response_body now table =
      save_on key status_code response_body now table (lookup key table)
