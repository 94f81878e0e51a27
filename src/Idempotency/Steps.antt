-- ===== src/Idempotency/Steps.antt =====
-- The handling of several requests at once (infrastructure/middleware/idempotency.py): what each of them
-- does between two calls that wait is one step, and the steps of several requests interleave.
use arche_api.Base.{ℕ, suc, ◌≤◌, ◌≡◌, Option, none, some, List, [], ◌∷◌, ◌++◌, if◌then◌else◌, ◌==◌}
use arche_api.Base.Text.{Text, text_eq}
use arche_api.Idempotency.Store.{IdempotencyRecord, Table, get_active, save_result}
use arche_api.Idempotency.Middleware.{Request, Codec, Settings, keyed, start}

-- A request that has found no active record and is about to create one.
pub record Missed : Type 0 where
  pub key : Text
  pub request : Request
  pub now : ℕ

-- The table, these requests, the keys for which `call_next` was called (last first), and the time of the
-- last step.
pub record RequestSystem (Json : Type 0) : Type 0 where
  pub table : Table Json
  pub missed : List Missed
  pub starts : List Text
  pub clock : ℕ

module _ {Json : Type 0} (settings : Settings) (codec : Codec Json) where
  pub data RequestStep : RequestSystem Json → RequestSystem Json → Type 0 where
    -- `get_active` has found a record: the request is answered.
    answered :
        {s : RequestSystem Json} (key : Text) (request : Request) (now : ℕ)
        {row : IdempotencyRecord Json}
        → s.clock ≤ now
        → keyed settings codec request ≡ some key
        → get_active key now s.table ≡ some row
        → RequestStep s (record s { clock = now })
    -- It has found none.
    not_found :
        {s : RequestSystem Json} (key : Text) (request : Request) (now : ℕ)
        → s.clock ≤ now
        → keyed settings codec request ≡ some key
        → get_active key now s.table ≡ none
        → RequestStep s (record s {
          missed = record { key = key; request = request; now = now } ∷ s.missed;
          clock = now;
        })
    -- `create_started`, and the call of `call_next`.
    created :
        {s : RequestSystem Json} (before after : List Missed) (m : Missed) (time : ℕ)
        → s.clock ≤ time
        → s.missed ≡ before ++ (m ∷ after)
        → RequestStep s (record {
          table = start settings codec m.key m.request m.now s.table;
          missed = before ++ after;
          starts = m.key ∷ s.starts;
          clock = time;
        })
    -- `save_result` of a request that was started.
    saved :
        {s : RequestSystem Json} (key : Text) (status_code : ℕ) (body : Option Json) (time : ℕ)
        → s.clock ≤ time
        → RequestStep s
            (record s { table = (save_result key status_code body time s.table).1; clock = time })
    -- An exception, or a request without a key: nothing is written.
    not_saved :
        {s : RequestSystem Json} (time : ℕ)
        → s.clock ≤ time
        → RequestStep s (record s { clock = time })

  pub data RequestSteps : RequestSystem Json → RequestSystem Json → Type 0 where
    no_step : {s : RequestSystem Json} → RequestSteps s s
    more_steps :
        {s t u : RequestSystem Json} → RequestStep s t → RequestSteps t u → RequestSteps s u

-- How often `call_next` was called for a key.
abbrev pub count_starts : Text → List Text → ℕ
count_starts key [] = 0
count_starts key (k ∷ ks) = let rest = count_starts key ks in if key == k then suc rest else rest
