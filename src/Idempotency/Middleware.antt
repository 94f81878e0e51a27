-- ===== src/Idempotency/Middleware.antt =====
-- `IdempotencyMiddleware` (infrastructure/middleware/idempotency.py). Texts of bytes are lists of
-- numbers. The headers and the media type of a response are left out, and `upper` is that of the
-- letters of ASCII. What runs downstream is a function of the table: it may answer other requests
-- before it returns.
use arche_api.Base.{ℕ, Bool, Option, none, some, List, [], ◌∷◌, ◌++◌, any, if◌then◌else◌}
use arche_api.Base.Text.{Text, text_eq, text_beq, text_leb}
use arche_api.Base.Sort.{sort, lex}
use arche_api.Base.Results.{Result, ok, err, ◌>>=◌}
use arche_api.Normalization.Parse.{map_text, upper_case}
use arche_api.Idempotency.Store.{
  is_started, is_completed, IdempotencyRecord, Raised, unicode_decode_error, Table, get_active,
  create_started, save_result,
}

pub record Request : Type 0 where
  pub method : Text
  pub path : Text
  pub query_params : List (Text × Text)
  -- The headers `Idempotency-Key` and `X-Request-ID`.
  pub idempotency_key : Option Text
  pub request_id : Option Text
  pub body : Text

pub record Response : Type 0 where
  pub status_code : ℕ
  pub body : Text

-- The codes of the two conflicts, each an answer with status 409.
pub data ConflictCode : Type 0 where
  idempotency_key_conflict idempotency_key_in_progress : ConflictCode

pub data Reply (Json : Type 0) : Type 0 where
  passed : Response → Reply Json
  replayed : ℕ → Option Json → Reply Json
  conflict_response : ConflictCode → Option Text → Reply Json

-- `json.loads(body_bytes.decode("utf-8"))`
pub data Loaded (Json : Type 0) : Type 0 where
  loaded : Option Json → Loaded Json
  json_decode_error not_utf8 : Loaded Json

-- What is used of `json`, `dict` and `hashlib`: `loads` gives None for `null`, and `dict` may raise.
pub record Codec (Json : Type 0) : Type 0 where
  pub loads : Text → Loaded Json
  pub as_dict : Json → Result Raised Json
  pub sha256 : Text → Text

-- The fields of the middleware.
pub record Settings : Type 0 where
  pub ttl_seconds : ℕ
  pub methods : List Text

abbrev pub pair_leb : Text × Text → Text × Text → Bool
pair_leb = lex (λ p. p.0) text_leb (λ p q. text_leb p.1 q.1)

-- `"&".join(f"{k}={v}" for k, v in pairs)`
abbrev pub joined : List (Text × Text) → Text
joined [] = []
joined ((k, v) ∷ []) = k ++ (61 ∷ v)
joined ((k, v) ∷ (p ∷ ps)) = k ++ (61 ∷ (v ++ (38 ∷ joined (p ∷ ps))))

abbrev pub nonempty : Option Text → Option Text
nonempty (some (c ∷ cs)) = some (c ∷ cs)
nonempty _ = none

module _ {Json : Type 0} (settings : Settings) (codec : Codec Json) where
  abbrev pub method_of : Request → Text
  method_of request = map_text upper_case request.method

  -- The key of a request that is not passed through unchanged.
  unfoldable pub keyed : Request → Option Text
  keyed request =
      if any (text_beq (method_of request)) settings.methods
      then nonempty request.idempotency_key
      else none

  -- `_compute_request_hash`
  unfoldable pub compute_request_hash : Request → Text
  compute_request_hash request = codec.sha256 (
      method_of request
      ++ (124
          ∷ (request.path
              ++ (124
                  ∷ (joined (sort pair_leb request.query_params)
                      ++ (124 ∷ codec.sha256 request.body))))))

  -- `dict(body) if body is not None else None`
  abbrev pub dict_or_none : Option Json → Result Raised (Option Json)
  dict_or_none none = ok none
  dict_or_none (some body) = codec.as_dict body >>= λ members. ok (some members)

  -- The answer to a request for whose key there is an active record.
  unfoldable pub answer : IdempotencyRecord Json → Text → Option Text → Result Raised (Reply Json)
  answer existing request_hash trace_id =
      if text_beq existing.request_hash request_hash
      then elim existing.state [
        | is_completed ↦ elim existing.status_code [
          | none ↦ ok (conflict_response idempotency_key_in_progress trace_id)
          | some status_code ↦
              dict_or_none existing.response_body >>= λ body. ok (replayed status_code body)
        ]
        | is_started ↦ ok (conflict_response idempotency_key_in_progress trace_id)
      ]
      else ok (conflict_response idempotency_key_conflict trace_id)

  abbrev pub or_none : Loaded Json → Result Raised (Option Json)
  or_none (loaded body) = dict_or_none body
  or_none json_decode_error = ok none
  or_none not_utf8 = err unicode_decode_error

  -- What is saved as the body of a response.
  unfoldable pub saved_body : Response → Result Raised (Option Json)
  saved_body response = elim response.body [
    | [] ↦ ok none
    | c ∷ cs ↦ or_none (codec.loads (c ∷ cs))
  ]

  abbrev pub passed_on : Response → Result Raised (Unit {0}) → Result Raised (Reply Json)
  passed_on response (ok tt) = ok (passed response)
  passed_on response (err e) = err e

  abbrev pub save_body :
      Text
      → ℕ
      → Response
      → Table Json
      → Result Raised (Option Json)
      → Result Raised (Reply Json) × Table Json
  save_body key later response table (err e) = (err e, table)
  save_body key later response table (ok body) =
      let saved = save_result key response.status_code body later table in
      (passed_on response saved.0, saved.1)

  -- From the response of `call_next` on.
  unfoldable pub complete :
      Text → ℕ → Result Raised Response × Table Json → Result Raised (Reply Json) × Table Json
  complete key later (err e, table) = (err e, table)
  complete key later (ok response, table) = save_body key later response table (saved_body response)

  -- `create_started` for a request.
  unfoldable pub start : Text → Request → ℕ → Table Json → Table Json
  start key request now table =
      create_started key (compute_request_hash request) (method_of request) request.path
        settings.ttl_seconds now table

  -- `dispatch` of a request with a key; `now` and `later` are the two readings of the clock.
  unfoldable pub dispatch_keyed :
      Text
      → ℕ
      → ℕ
      → Request
      → (Table Json → Result Raised Response × Table Json)
      → Table Json
      → Result Raised (Reply Json) × Table Json
  dispatch_keyed key now later request call_next table = elim (get_active key now table) [
    | some existing ↦ (answer existing (compute_request_hash request) request.request_id, table)
    | none ↦ complete key later (call_next (start key request now table))
  ]

  abbrev pub pass_through :
      Result Raised Response × Table Json → Result Raised (Reply Json) × Table Json
  pass_through (response, table) = (response >>= λ r. ok (passed r), table)

  unfoldable pub dispatch :
      ℕ
      → ℕ
      → Request
      → (Table Json → Result Raised Response × Table Json)
      → Table Json
      → Result Raised (Reply Json) × Table Json
  dispatch now later request call_next table = elim (keyed request) [
    | none ↦ pass_through (call_next table)
    | some key ↦ dispatch_keyed key now later request call_next table
  ]
