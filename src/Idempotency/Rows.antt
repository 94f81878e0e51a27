-- ===== src/Idempotency/Rows.antt =====
-- The rows that the operations of the table leave, and the two ways of a request with a key.
use arche_api.Base.{ℕ, ◌≤◌, ◌≡◌, refl, Option, none, some, arith}
use arche_api.Base.Text.{Text, text_eq}
use arche_api.Base.Dict.{lookup, insert, lookup-insert}
use arche_api.Base.Results.{Result, ok}
use arche_api.Idempotency.Store.{
  IdempotencyRecord, Table, new_started, reset_or_new, completed_row, get_active, create_started,
  save_result, Raised,
}
use arche_api.Idempotency.Middleware.{
  Request, Response, Codec, Settings, method_of, keyed, compute_request_hash, answer, complete,
  start, dispatch_keyed, dispatch, keyed, dispatch,
}

module _ {Json : Type 0} where
  pub lookup-insert_same :
      (key : Text) (row : IdempotencyRecord Json) (table : Table Json)
      → lookup key (insert key row table) ≡ some row
  lookup-insert_same key row table =
      ground (arith, lookup-insert key key row table, text_eq.test_iff key key)

  reset_or_new_lem :
      (request_hash method path : Text) (ttl_seconds now : ℕ)
      (found : Option (IdempotencyRecord Json))
      → reset_or_new request_hash method path ttl_seconds now found
        ≡ new_started request_hash method path ttl_seconds now
  reset_or_new_lem request_hash method path ttl_seconds now none = refl
  reset_or_new_lem request_hash method path ttl_seconds now (some row) = refl

  pub lookup-create_started :
      (key request_hash method path : Text) (ttl_seconds now : ℕ) (table : Table Json)
      → lookup key (create_started key request_hash method path ttl_seconds now table)
        ≡ some (new_started request_hash method path ttl_seconds now)
  unfolding create_started
  lookup-create_started key request_hash method path ttl_seconds now table =
      rw (reset_or_new_lem request_hash method path ttl_seconds now (lookup key table))
        (lookup-insert_same key _ table)

  pub save_result-found :
      (key : Text) (status_code : ℕ) (body : Option Json) (now : ℕ) (table : Table Json)
      (row : IdempotencyRecord Json)
      → lookup key table ≡ some row
      → save_result key status_code body now table
        ≡ (ok tt, insert key (completed_row status_code body now row) table)
  unfolding save_result
  save_result-found key status_code body now table row found = rw found refl

  pub get_active-found :
      (key : Text) (now : ℕ) (table : Table Json) (row : IdempotencyRecord Json)
      → lookup key table ≡ some row
      → now ≤ row.expires_at
      → get_active key now table ≡ some row
  unfolding get_active
  get_active-found key now table row found active = rw found (ground arith)

  -- What runs downstream leaves the row of the key as it is.
  abbrev pub LeavesRow : Text → (Table Json → Result Raised Response × Table Json) → Type 0
  LeavesRow key call_next = (s : Table Json) → lookup key (call_next s).1 ≡ lookup key s

module _ {Json : Type 0} (settings : Settings) (codec : Codec Json) where
  abbrev pub new_row : Request → ℕ → IdempotencyRecord Json
  new_row request now =
      new_started (compute_request_hash settings codec request) (method_of settings codec request)
        request.path settings.ttl_seconds now

  pub lookup-start :
      (key : Text) (request : Request) (now : ℕ) (table : Table Json)
      → lookup key (start settings codec key request now table) ≡ some (new_row request now)
  unfolding start
  lookup-start key request now table = lookup-create_started key _ _ _ _ now table

  pub dispatch-keyed :
      (key : Text) (now later : ℕ) (request : Request)
      (call_next : Table Json → Result Raised Response × Table Json) (s : Table Json)
      → keyed settings codec request ≡ some key
      → dispatch settings codec now later request call_next s
        ≡ dispatch_keyed settings codec key now later request call_next s
  unfolding dispatch
  dispatch-keyed key now later request call_next s k = rw (dispatch, k) refl

  pub dispatch_keyed-some :
      (key : Text) (now later : ℕ) (request : Request)
      (call_next : Table Json → Result Raised Response × Table Json) (s : Table Json)
      (existing : IdempotencyRecord Json)
      → get_active key now s ≡ some existing
      → dispatch_keyed settings codec key now later request call_next s ≡ (
        answer settings codec existing
            (compute_request_hash settings codec request)
            request.request_id,
        s,
      )
  unfolding dispatch_keyed
  dispatch_keyed-some key now later request call_next s existing found =
      rw (dispatch_keyed, found) refl

  pub dispatch_keyed-none :
      (key : Text) (now later : ℕ) (request : Request)
      (call_next : Table Json → Result Raised Response × Table Json) (s : Table Json)
      → get_active key now s ≡ none
      → dispatch_keyed settings codec key now later request call_next s
        ≡ complete settings codec key later (call_next (start settings codec key request now s))
  unfolding dispatch_keyed
  dispatch_keyed-none key now later request call_next s missing = rw (dispatch_keyed, missing) refl
