-- ===== src/Idempotency/Locks.antt =====
-- The row of a request that failed.
use arche_api.Base.{
  ℕ, ◌+◌, ◌*◌, ◌≤◌, ◌≡◌, refl, Option, none, some, arith, if◌then◌else◌, sym, ◌∙◌, ap,
}
use arche_api.Base.Text.{Text, text_eq, text_beq}
use arche_api.Base.Dict.{lookup, insert}
use arche_api.Base.Results.{Result, ok, err}
use arche_api.Idempotency.Store.{IdempotencyRecord, Table, completed_row, get_active, Raised}
use arche_api.Idempotency.Middleware.{
  Request, Response, Reply, passed, conflict_response, ConflictCode, idempotency_key_conflict,
  idempotency_key_in_progress, Codec, Settings, keyed, compute_request_hash, answer, saved_body,
  save_body, complete, start, dispatch,
}
use arche_api.Idempotency.Rows.{
  save_result-found, get_active-found, new_row, lookup-start, LeavesRow, dispatch_keyed-some,
  dispatch_keyed-none, dispatch-keyed,
}

module _ {Json : Type 0} (settings : Settings) (codec : Codec Json) where
  save_body-raised :
      (key : Text) (later : ℕ) (response : Response) (e : Raised) (table t : Table Json)
      (saved : Result Raised (Option Json)) (row : IdempotencyRecord Json)
      → save_body settings codec key later response table saved ≡ (err e, t)
      → lookup key table ≡ some row
      → table ≡ t
  save_body-raised key later response e table t (err f) row h found = ground arith
  save_body-raised key later response e table t (ok body) row h found =
      let u = insert key (completed_row response.status_code body later row) table in
      let done : save_body settings codec key later response table (ok body)
          ≡ (ok (passed response), u) =
        rw (save_result-found key response.status_code body later table row found) refl in
      absurd (clash u (sym done ∙ h))
    where
      clash :
          (u : Table Json)
          → ¬ (
              ◌≡◌ {A = Result Raised (Reply Json) × Table Json}
                (ok (passed response), u)
                (err e, t))
      clash u q = absurd (ground arith)

  complete-raised :
      (key : Text) (later : ℕ) (outcome : Result Raised Response × Table Json) (e : Raised)
      (t : Table Json) (row : IdempotencyRecord Json)
      → complete settings codec key later outcome ≡ (err e, t)
      → lookup key outcome.1 ≡ some row
      → lookup key t ≡ some row
  unfolding complete
  complete-raised key later (err f, table) e t row h found = ground arith
  complete-raised key later (ok response, table) e t row h found =
      rw
        (← save_body-raised key later response e table t (saved_body settings codec response) row h
          found)
        found

  -- The code of the answer to a request with the hash `request_hash` while a record is STARTED.
  abbrev pub lock_code : Text → Text → ConflictCode
  lock_code request_hash own_hash =
      if text_beq request_hash own_hash
      then idempotency_key_in_progress
      else idempotency_key_conflict

  answer-started :
      (request : Request) (now : ℕ) (own_hash : Text) (trace_id : Option Text)
      → answer settings codec (new_row settings codec request now) own_hash trace_id
        ≡ ok (
            conflict_response
              (lock_code (compute_request_hash settings codec request) own_hash)
              trace_id)
  unfolding answer
  answer-started request now own_hash trace_id = ground arith

  -- A request with a key without an active record that ended in an exception, while nothing that ran
  -- downstream changed the row of the key: until the record expires, every request with the key is
  -- answered with a conflict, with the code in-progress if the hash is the same and key-conflict if
  -- not. Nothing runs downstream, nothing is written, so that no retry succeeds.
  pub dispatch-locked :
      (key : Text) (now later moment after : ℕ) (request again : Request)
      (call_next other_next : Table Json → Result Raised Response × Table Json) (e : Raised)
      (s t u : Table Json)
      → keyed settings codec request ≡ some key
      → get_active key now s ≡ none
      → LeavesRow key call_next
      → dispatch settings codec now later request call_next s ≡ (err e, t)
      → keyed settings codec again ≡ some key
      → lookup key u ≡ lookup key t
      → moment ≤ now + settings.ttl_seconds * 1000000
      → dispatch settings codec moment after again other_next u ≡ (
        ok (
            conflict_response
              (lock_code
                (compute_request_hash settings codec request)
                (compute_request_hash settings codec again))
              again.request_id),
        u,
      )
  dispatch-locked key now later moment after request again call_next other_next e s t u k missing
        leaves h k2 same_row active =
      let row =
        complete-raised key later (call_next (start settings codec key request now s)) e t
          (new_row settings codec request now)
          (sym (dispatch_keyed-none settings codec key now later request call_next s missing)
            ∙ (sym (dispatch-keyed settings codec key now later request call_next s k) ∙ h))
          (leaves _ ∙ lookup-start settings codec key request now s) in
      dispatch-keyed settings codec key moment after again other_next u k2
      ∙ (dispatch_keyed-some settings codec key moment after again other_next u _
            (get_active-found key moment u _ (same_row ∙ row) active)
          ∙ ap (λ a. (a, u)) (answer-started request now _ again.request_id))
