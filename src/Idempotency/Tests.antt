-- ===== src/Idempotency/Tests.antt =====
-- Two requests with one key, with a codec that takes texts as values.
use arche_api.Base.{◌≡◌, refl, Option, none, some, [], ◌∷◌, arith, eqb, if◌then◌else◌}
use arche_api.Base.Text.{Text, codes, text_eq}
use arche_api.Base.Results.{Result, ok, err}
use arche_api.Idempotency.Store.{
  IdempotencyRecord, Table, Raised, not_a_mapping, get_active, create_started, save_result,
  new_started, completed_row,
}
use arche_api.Idempotency.Middleware.{
  Request, Response, passed, replayed, conflict_response, idempotency_key_in_progress, Loaded,
  loaded, json_decode_error, Codec, Settings, keyed, compute_request_hash, saved_body, complete,
  start, dispatch_keyed, dispatch,
}
use arche_api.Idempotency.Replays.{dispatch-replayed}
use arche_api.Idempotency.Locks.{dispatch-locked}
use arche_api.Idempotency.Steps.{
  RequestSystem, RequestSteps, no_step, more_steps, answered, saved, count_starts,
}
use arche_api.Idempotency.Exclusion.{RequestSteps-not_started, Kept}

-- Objects begin with a brace, lists with a bracket.
abbrev loads : Text → Loaded Text
loads [] = json_decode_error
loads (c ∷ cs) =
    if eqb c 123
    then loaded (some (c ∷ cs))
    else if eqb c 91
    then loaded (some (c ∷ cs))
    else json_decode_error

abbrev as_dict : Text → Result Raised Text
as_dict [] = err not_a_mapping
as_dict (c ∷ cs) = if eqb c 123 then ok (c ∷ cs) else err not_a_mapping

abbrev codec : Codec Text
codec = record { loads = loads; as_dict = as_dict; sha256 = λ text. text }

abbrev settings : Settings
settings = record { ttl_seconds = 60; methods = codes "POST" ∷ [] }

abbrev post : Request
post = record {
  method = codes "post";
  path = codes "/a";
  query_params = (codes "x", codes "1") ∷ (codes "b", codes "2") ∷ [];
  idempotency_key = some (codes "k");
  request_id = none;
  body = codes "{}";
}

-- The query stands in another order.
abbrev again : Request
again = record post { query_params = (codes "b", codes "2") ∷ (codes "x", codes "1") ∷ [] }

abbrev created_response : Response
created_response = record { status_code = 201; body = codes "{1}" }

abbrev list_response : Response
list_response = record { status_code = 200; body = codes "[1]" }

abbrev answers : Response → Table Text → Result Raised Response × Table Text
answers response table = (ok response, table)

abbrev hash : Text
hash = codes "POST|/a|b=2&x=1|{}"

abbrev row : IdempotencyRecord Text
row = new_started hash (codes "POST") (codes "/a") 60 7

abbrev started_table : Table Text
started_table = (codes "k", row) ∷ []

abbrev completed_table : Table Text
completed_table = (codes "k", completed_row 201 (some (codes "{1}")) 9 row) ∷ []

hash_of_post : compute_request_hash settings codec post ≡ hash
unfolding compute_request_hash
hash_of_post = refl

hash_of_again : compute_request_hash settings codec again ≡ compute_request_hash settings codec post
unfolding compute_request_hash
hash_of_again = refl

keyed-post : keyed settings codec post ≡ some (codes "k")
unfolding keyed
keyed-post = refl

keyed-again : keyed settings codec again ≡ some (codes "k")
unfolding keyed
keyed-again = refl

first_run :
    dispatch settings codec 7 9 post (answers created_response) []
    ≡ (ok (passed created_response), completed_table)
unfolding dispatch keyed dispatch_keyed get_active complete saved_body save_result start
    create_started compute_request_hash
first_run = refl

list_run :
    dispatch settings codec 7 9 post (answers list_response) [] ≡ (err not_a_mapping, started_table)
unfolding dispatch keyed dispatch_keyed get_active complete saved_body save_result start
    create_started compute_request_hash
list_run = refl

as_dict_twice : (j d : Text) → as_dict j ≡ ok d → as_dict d ≡ ok d
as_dict_twice [] d h = absurd (ground arith)
as_dict_twice (c ∷ cs) [] h = ground arith
as_dict_twice (c ∷ cs) (e ∷ es) h = ground arith

dispatch-replayed_example :
    (body : Option Text) × (saved_body settings codec created_response ≡ ok body)
    × (dispatch settings codec 60000007 60000008 again (answers list_response) completed_table
        ≡ (ok (replayed 201 body), completed_table))
dispatch-replayed_example =
    dispatch-replayed settings codec as_dict_twice (codes "k") 7 9 60000007 60000008 post again
      (answers created_response) (answers list_response) created_response [] completed_table
      completed_table keyed-post (λ s. refl) first_run keyed-again hash_of_again refl (omega arith)

dispatch-locked_example :
    dispatch settings codec 100 101 again (answers created_response) started_table
    ≡ (ok (conflict_response idempotency_key_in_progress none), started_table)
unfolding compute_request_hash get_active
dispatch-locked_example =
    dispatch-locked settings codec (codes "k") 7 9 100 101 post again (answers list_response)
      (answers created_response) not_a_mapping [] started_table started_table keyed-post refl
      (λ s. refl) list_run keyed-again refl (omega arith)

abbrev running : RequestSystem Text
running = record { table = started_table; missed = []; starts = codes "k" ∷ []; clock = 7 }

abbrev finished : RequestSystem Text
finished = record { table = completed_table; missed = []; starts = codes "k" ∷ []; clock = 10 }

to_finished : RequestSteps settings codec running finished
unfolding keyed get_active save_result
to_finished = more_steps (answered (codes "k") again 8 (omega arith) refl refl) (
    more_steps (saved (codes "k") 201 (some (codes "{1}")) 9 (omega arith))
      (more_steps (answered (codes "k") again 10 (omega arith) refl refl) no_step))

RequestSteps-not_started_example :
    (count_starts (codes "k") finished.starts ≡ count_starts (codes "k") running.starts)
    × Kept (codes "k") row finished.table
RequestSteps-not_started_example =
    RequestSteps-not_started settings codec (codes "k") row running finished to_finished
      (omega arith) refl tt
