-- ===== src/Idempotency/Replays.antt =====
-- The answers to a request that comes again, from the row that the first one has left.
use arche_api.Base.{
  ℕ, ◌+◌, ◌*◌, ◌≤◌, ◌≡◌, refl, Option, none, some, arith, inl, inr, sym, ◌∙◌, ap, subst, [], ◌∷◌,
  Option-cases,
}
use arche_api.Base.Text.{Text, text_eq}
use arche_api.Base.Dict.{lookup, insert}
use arche_api.Base.Results.{Result, ok, err, ◌>>=◌, bind-ok, ok-injective}
use arche_api.Idempotency.Store.{IdempotencyRecord, Table, completed_row, get_active, Raised}
use arche_api.Idempotency.Middleware.{
  Request, Response, Reply, passed, replayed, Codec, Settings, keyed, compute_request_hash, answer,
  saved_body, save_body, complete, start, dispatch_keyed, dispatch, dict_or_none, Loaded, loaded,
  json_decode_error, not_utf8, or_none,
}
use arche_api.Idempotency.Rows.{
  lookup-insert_same, save_result-found, get_active-found, dispatch-keyed, new_row, lookup-start,
  LeavesRow, dispatch_keyed-some, dispatch_keyed-none,
}

module _ {Json : Type 0} (settings : Settings) (codec : Codec Json) where
  -- What a request has left once its response was passed on.
  abbrev pub Left : Text → ℕ → Response → IdempotencyRecord Json → Table Json → Type 0
  Left key later response row t =
      (body : Option Json) × (saved_body settings codec response ≡ ok body)
      × (lookup key t ≡ some (completed_row response.status_code body later row))

  passed-inj :
      (resp response : Response) (u t : Table Json)
      → ◌≡◌ {A = Result Raised (Reply Json) × Table Json}
          (ok (passed resp), u)
          (ok (passed response), t)
      → (resp ≡ response) × (u ≡ t)
  passed-inj resp response u t h = ground arith

  save_body-passed :
      (key : Text) (later : ℕ) (resp response : Response) (table t : Table Json)
      (saved : Result Raised (Option Json)) (row : IdempotencyRecord Json)
      → saved_body settings codec resp ≡ saved
      → save_body settings codec key later resp table saved ≡ (ok (passed response), t)
      → lookup key table ≡ some row
      → Left key later response row t
  save_body-passed key later resp response table t (err e) row s h found = absurd (ground arith)
  save_body-passed key later resp response table t (ok body) row s h found =
      let u = insert key (completed_row resp.status_code body later row) table in
      let done : save_body settings codec key later resp table (ok body) ≡ (ok (passed resp), u) =
        rw (save_result-found key resp.status_code body later table row found) refl in
      let (same, left) = passed-inj resp response u t (sym done ∙ h) in
      (body, rw (← same) s, rw (← left, ← same) (lookup-insert_same key _ table))

  complete-passed :
      (key : Text) (later : ℕ) (outcome : Result Raised Response × Table Json) (response : Response)
      (t : Table Json) (row : IdempotencyRecord Json)
      → complete settings codec key later outcome ≡ (ok (passed response), t)
      → lookup key outcome.1 ≡ some row
      → Left key later response row t
  unfolding complete
  complete-passed key later (err e, table) response t row h found = absurd (ground arith)
  complete-passed key later (ok resp, table) response t row h found =
      save_body-passed key later resp response table t (saved_body settings codec resp) row refl h
        found

  replay-not_passed :
      (saved : Result Raised (Option Json)) (n : ℕ) (response : Response)
      → ¬ (
          ◌≡◌ {A = Result Raised (Reply Json)}
            (saved >>= λ body. ok (replayed n body))
            (ok (passed response)))
  replay-not_passed (ok body) n response h = absurd (ground arith)
  replay-not_passed (err e) n response h = absurd (ground arith)

  answer-not_passed :
      (existing : IdempotencyRecord Json) (request_hash : Text) (trace_id : Option Text)
      (response : Response)
      → ¬ (answer settings codec existing request_hash trace_id ≡ ok (passed response))
  unfolding answer
  answer-not_passed existing request_hash trace_id response h =
      let replay : (n : ℕ)
          → ¬ (
              ◌≡◌ {A = Result Raised (Reply Json)}
                (dict_or_none settings codec existing.response_body >>= λ body.
                  ok (replayed n body))
                (ok (passed response))) =
        λ n. replay-not_passed (dict_or_none settings codec existing.response_body) n response in
      ground (arith, replay)

  dispatch_keyed-passed :
      (key : Text) (now later : ℕ) (request : Request)
      (call_next : Table Json → Result Raised Response × Table Json) (response : Response)
      (s t : Table Json)
      → LeavesRow key call_next
      → dispatch_keyed settings codec key now later request call_next s ≡ (ok (passed response), t)
      → Left key later response (new_row settings codec request now) t
  dispatch_keyed-passed key now later request call_next response s t leaves h =
      elim (Option-cases (get_active key now s)) [
        | inl e ↦
            complete-passed key later (call_next (start settings codec key request now s)) response
              t (new_row settings codec request now)
              (sym (dispatch_keyed-none settings codec key now later request call_next s e) ∙ h)
              (leaves _ ∙ lookup-start settings codec key request now s)
        | inr (existing, e) ↦ absurd (
            answer-not_passed existing (compute_request_hash settings codec request)
              request.request_id response
              (ap (λ p. p.0)
                (sym (
                    dispatch_keyed-some settings codec key now later request call_next s existing e)
                  ∙ h)))
      ]

  module _ (as_dict_twice : (j d : Json) → codec.as_dict j ≡ ok d → codec.as_dict d ≡ ok d) where
    dict_or_none-twice :
        (b body : Option Json)
        → dict_or_none settings codec b ≡ ok body
        → dict_or_none settings codec body ≡ ok body
    dict_or_none-twice none body h = ground arith
    dict_or_none-twice (some j) body h =
        let (members, same, is_dict) = bind-ok (codec.as_dict j) (λ d. ok (some d)) body h in
        let again = as_dict_twice j members is_dict in
        subst (λ o. dict_or_none settings codec o ≡ ok o) (ok-injective same)
          (ap (λ m. m >>= λ d. ok (some d)) again)

    or_none-twice :
        (l : Loaded Json) (body : Option Json)
        → or_none settings codec l ≡ ok body
        → dict_or_none settings codec body ≡ ok body
    or_none-twice (loaded b) body h = dict_or_none-twice b body h
    or_none-twice json_decode_error body h = ground arith
    or_none-twice not_utf8 body h = absurd (ground arith)

    bytes-twice :
        (bytes : Text) (n : ℕ) (body : Option Json)
        → saved_body settings codec (record { status_code = n; body = bytes }) ≡ ok body
        → dict_or_none settings codec body ≡ ok body
    unfolding saved_body
    bytes-twice [] n body h = ground arith
    bytes-twice (c ∷ cs) n body h = or_none-twice (codec.loads (c ∷ cs)) body h

    answer-completed :
        (row : IdempotencyRecord Json) (n : ℕ) (body : Option Json) (later : ℕ)
        (trace_id : Option Text)
        → dict_or_none settings codec body ≡ ok body
        → answer settings codec (completed_row n body later row) row.request_hash trace_id
          ≡ ok (replayed n body)
    unfolding answer
    answer-completed row n body later trace_id is_dict =
        rw ((text_eq.test_iff row.request_hash row.request_hash).1 refl, is_dict) refl

    -- Where `dict` of a value that `dict` returned is that value: a request with a key whose response was
    -- passed on, while nothing that ran downstream changed the row of the key. Until the record expires,
    -- every request with the key and the same hash is answered with the status and the saved body of
    -- that response. Nothing runs downstream, nothing is written.
    pub dispatch-replayed :
        (key : Text) (now later moment after : ℕ) (request again : Request)
        (call_next other_next : Table Json → Result Raised Response × Table Json)
        (response : Response) (s t u : Table Json)
        → keyed settings codec request ≡ some key
        → LeavesRow key call_next
        → dispatch settings codec now later request call_next s ≡ (ok (passed response), t)
        → keyed settings codec again ≡ some key
        → compute_request_hash settings codec again ≡ compute_request_hash settings codec request
        → lookup key u ≡ lookup key t
        → moment ≤ now + settings.ttl_seconds * 1000000
        → (body : Option Json) × (saved_body settings codec response ≡ ok body)
          × (dispatch settings codec moment after again other_next u
              ≡ (ok (replayed response.status_code body), u))
    dispatch-replayed key now later moment after request again call_next other_next response s t u k
          leaves h k2 same_hash same_row active =
        let (body, saved, row) =
          dispatch_keyed-passed key now later request call_next response s t leaves
            (sym (dispatch-keyed settings codec key now later request call_next s k) ∙ h) in
        let found = get_active-found key moment u _ (same_row ∙ row) active in
        let is_dict = bytes-twice response.body response.status_code body saved in
        (
          body,
          saved,
          dispatch-keyed settings codec key moment after again other_next u k2
              ∙ dispatch_keyed-some settings codec key moment after again other_next u _ found
              ∙ rw (same_hash) (
                  ap (λ a. (a, u))
                    (answer-completed (new_row settings codec request now) response.status_code body
                      later again.request_id is_dict)),
        )
