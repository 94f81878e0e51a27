-- ===== src/Idempotency/Exclusion.antt =====
-- What the steps of several requests keep of the active record of a key.
use arche_api.Base.{
  ℕ, ◌≤◌, ◌≡◌, ◌≢◌, refl, Option, none, some, List, [], ◌∷◌, ◌++◌, All, arith, ◌==◌, Bool-cases,
  inl, inr, sym, ◌∙◌, subst, ap,
}
use arche_api.Base.Text.{Text, text_eq}
use arche_api.Base.Dict.{lookup, insert, lookup-insert}
use arche_api.Idempotency.Store.{
  IdempotencyRecord, Table, get_active, create_started, save_result, save_on, completed_row,
}
use arche_api.Idempotency.Middleware.{Request, Codec, Settings, start}
use arche_api.Idempotency.Rows.{get_active-found}
use arche_api.Idempotency.Steps.{
  Missed, RequestSystem, RequestStep, answered, not_found, created, saved, not_saved, RequestSteps,
  no_step, more_steps, count_starts,
}

All-remove :
    (P : Missed → Type 0) (before after : List Missed) (m : Missed)
    → All P (before ++ (m ∷ after))
    → P m × All P (before ++ after)
All-remove P [] after m h = h
All-remove P (x ∷ before) after m h =
    let (here, rest) = All-remove P before after m h.1 in (here, (h.0, rest))

module _ {Json : Type 0} where
  -- The row of the key is there, with its hash and its time of expiry.
  abbrev pub Kept : Text → IdempotencyRecord Json → Table Json → Type 0
  Kept key row table =
      (kept : IdempotencyRecord Json) × (lookup key table ≡ some kept)
      × (kept.request_hash ≡ row.request_hash)
      × (kept.expires_at ≡ row.expires_at)

  -- Also, no request with the key is about to create a record, and `call_next` was called `n` times.
  pub record IsHeld (key : Text) (row : IdempotencyRecord Json) (n : ℕ) (s : RequestSystem Json)
      : Type 0 where
    pub kept : Kept key row s.table
    pub none_missed : All (λ m. key ≢ m.key) s.missed
    pub started : count_starts key s.starts ≡ n

  some-injective :
      {a b : IdempotencyRecord Json}
      → ◌≡◌ {A = Option (IdempotencyRecord Json)} (some a) (some b)
      → a ≡ b
  some-injective h = cc

  lookup-insert_other :
      (key other : Text) (row : IdempotencyRecord Json) (table : Table Json)
      → key ≢ other
      → lookup key (insert other row table) ≡ lookup key table
  lookup-insert_other key other row table apart =
      ground (arith, lookup-insert key other row table, text_eq.test_iff key other)

  save_on-Kept :
      (key other : Text) (row : IdempotencyRecord Json) (status_code : ℕ) (body : Option Json)
      (time : ℕ) (table : Table Json) (found : Option (IdempotencyRecord Json))
      → lookup other table ≡ found
      → Kept key row table
      → Kept key row (save_on other status_code body time table found).1
  save_on-Kept key other row status_code body time table none e h = h
  save_on-Kept key other row status_code body time table (some old) e (kept, here, hash, expiry) =
      elim (Bool-cases (key == other)) [
        | inl same ↦
            let q : key ≡ other = (text_eq.test_iff key other).0 same in
            let olds : old ≡ kept =
              some-injective (sym e ∙ (ap (λ k. lookup k table) (sym q) ∙ here)) in
            let row_now = completed_row status_code body time old in
            let found : lookup key (insert other row_now table) ≡ some row_now =
              ground (arith, lookup-insert key other row_now table) in
            (
              row_now,
              found,
              ap (λ r. r.request_hash) olds ∙ hash,
              ap (λ r. r.expires_at) olds ∙ expiry,
            )
        | inr apart ↦
            let q : key ≢ other = λ p. absurd (ground (arith, text_eq.test_iff key other)) in
            let row_now = completed_row status_code body time old in
            (kept, lookup-insert_other key other row_now table q ∙ here, hash, expiry)
      ]

  save_result-Kept :
      (key other : Text) (row : IdempotencyRecord Json) (status_code : ℕ) (body : Option Json)
      (time : ℕ) (table : Table Json)
      → Kept key row table
      → Kept key row (save_result other status_code body time table).1
  unfolding save_result
  save_result-Kept key other row status_code body time table h =
      save_on-Kept key other row status_code body time table (lookup other table) refl h

module _ {Json : Type 0} (settings : Settings) (codec : Codec Json) (key : Text)
    (row : IdempotencyRecord Json) where
  start-Kept :
      (other : Text) (request : Request) (now : ℕ) (table : Table Json)
      → key ≢ other
      → Kept key row table
      → Kept key row (start settings codec other request now table)
  unfolding start create_started
  start-Kept other request now table apart (kept, here, hash, expiry) =
      (kept, lookup-insert_other key other _ table apart ∙ here, hash, expiry)

  not_missed :
      (other : Text) (now : ℕ) (table : Table Json)
      → Kept key row table
      → now ≤ row.expires_at
      → get_active other now table ≡ none
      → key ≢ other
  not_missed other now table (kept, here, hash, expiry) active missing same =
      let found : get_active key now table ≡ some kept =
        get_active-found key now table kept here (rw expiry active) in
      clash (sym (ap (λ k. get_active k now table) same ∙ missing) ∙ found)
    where
      clash : ¬ (◌≡◌ {A = Option (IdempotencyRecord Json)} none (some kept))
      clash q = absurd (ground arith)

  count_starts-other :
      (other : Text) (starts : List Text)
      → key ≢ other
      → count_starts key (other ∷ starts) ≡ count_starts key starts
  count_starts-other other starts apart = ground (arith, text_eq.test_iff key other)

  RequestStep-IsHeld :
      (n : ℕ) (s t : RequestSystem Json)
      → RequestStep settings codec s t
      → t.clock ≤ row.expires_at
      → IsHeld key row n s
      → IsHeld key row n t
  RequestStep-IsHeld n s t (answered other request now later k found) active h = record {
    kept = h.kept;
    none_missed = h.none_missed;
    started = h.started;
  }
  RequestStep-IsHeld n s t (not_found other request now later k missing) active h = record {
    kept = h.kept;
    none_missed = (not_missed other now s.table h.kept active missing, h.none_missed);
    started = h.started;
  }
  RequestStep-IsHeld n s t (created before after m time later e) active h =
      let (apart, rest) =
        All-remove (λ m. key ≢ m.key) before after m
          (subst (All (λ m. key ≢ m.key)) e h.none_missed) in
      record {
        kept = start-Kept m.key m.request m.now s.table apart h.kept;
        none_missed = rest;
        started = count_starts-other m.key s.starts apart ∙ h.started;
      }
  RequestStep-IsHeld n s t (saved other status_code body time later) active h = record {
    kept = save_result-Kept key other row status_code body time s.table h.kept;
    none_missed = h.none_missed;
    started = h.started;
  }
  RequestStep-IsHeld n s t (not_saved time later) active h = record {
    kept = h.kept;
    none_missed = h.none_missed;
    started = h.started;
  }

  RequestStep-clock :
      (s t : RequestSystem Json) → RequestStep settings codec s t → s.clock ≤ t.clock
  RequestStep-clock s t (answered other request now later k found) = later
  RequestStep-clock s t (not_found other request now later k missing) = later
  RequestStep-clock s t (created before after m time later e) = later
  RequestStep-clock s t (saved other status_code body time later) = later
  RequestStep-clock s t (not_saved time later) = later

  RequestSteps-clock :
      (s t : RequestSystem Json) → RequestSteps settings codec s t → s.clock ≤ t.clock
  RequestSteps-clock s t no_step = omega arith
  RequestSteps-clock s t (more_steps {t = u} first rest) =
      let one = RequestStep-clock s u first in let more = RequestSteps-clock u t rest in omega arith

  RequestSteps-IsHeld :
      (n : ℕ) (s t : RequestSystem Json)
      → RequestSteps settings codec s t
      → t.clock ≤ row.expires_at
      → IsHeld key row n s
      → IsHeld key row n t
  RequestSteps-IsHeld n s t no_step active h = h
  RequestSteps-IsHeld n s t (more_steps {t = u} first rest) active h =
      let later = RequestSteps-clock u t rest in
      RequestSteps-IsHeld n u t rest active (RequestStep-IsHeld n s u first (omega arith) h)

  -- From a table with a row of the key, while no request with the key stands between its lookup and the
  -- creation of its record: until the row expires, no interleaving of requests calls `call_next` for the
  -- key, and the row stays, with its hash and its time of expiry.
  pub RequestSteps-not_started :
      (s t : RequestSystem Json)
      → RequestSteps settings codec s t
      → t.clock ≤ row.expires_at
      → lookup key s.table ≡ some row
      → All (λ m. key ≢ m.key) s.missed
      → (count_starts key t.starts ≡ count_starts key s.starts) × Kept key row t.table
  RequestSteps-not_started s t steps active found none_missed =
      let held =
        RequestSteps-IsHeld (count_starts key s.starts) s t steps active
          (record { kept = (row, found, refl, refl); none_missed = none_missed; started = refl }) in
      (held.started, held.kept)
