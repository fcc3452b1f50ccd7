-- ===== src/Studio/Store/Write.antt =====
-- examples/studio-backend/src/store.ts: the operations that write.
use synxed_solana_protocol.Base.{
  ℕ, ◌+◌, Bool, false, not, ◌&&◌, ◌||◌, Option, none, some, List, [], ◌∷◌, ◌++◌, if◌then◌else◌,
}
use synxed_solana_protocol.Base.Text.{String, ◌===◌}
use synxed_solana_protocol.Types.{
  Result, ok, ◌>>=◌, ◌>>◌, throw_if, or_throw, runtime, SettlementRequestN,
}
use synxed_solana_protocol.Ledger.Evidence.{PayoutLine, LedgerEntry, SettlementRecord}
use synxed_solana_protocol.Studio.Store.{
  EventStatus, AttemptStatus, same_event_status, is_prepared, StoredEvent, AttemptParams,
  StoredAttempt, Store, Enqueued, event, update_event, is_attempt, update_attempts, any_attempt,
  with_event_status, with_attempt,
}

-- `JSON.stringify`, in `encodeRequest` and of the beneficiary ids.
pub record Encoding : Type 0 where
  pub request_text : SettlementRequestN → String
  pub ids_text : List (String × String) → String

abbrev pub pending_event : SettlementRequestN → List (String × String) → String → StoredEvent
pending_event request ids at = record {
  event_id = request.event_id;
  request = request;
  beneficiary_ids = ids;
  status = EventStatus.pending;
  attempts = 0;
  note = none;
  created_at = at;
}

abbrev pub with_tables : List StoredEvent → List StoredAttempt → Store → Store
with_tables events rows store = record {
  events = events;
  attempt_rows = rows;
  settlements = store.settlements;
  entries = store.entries;
  pools = store.pools;
}

-- The test that an event's stored request is the one enqueued again.
abbrev pub differs : Encoding → SettlementRequestN → List (String × String) → StoredEvent → Bool
differs encoding request ids existing =
    not (encoding.request_text existing.request === encoding.request_text request)
    || not (encoding.ids_text existing.beneficiary_ids === encoding.ids_text ids)

-- `at` is the time of the insertion.
unfoldable pub enqueue :
    Encoding
    → String
    → SettlementRequestN
    → List (String × String)
    → Store
    → Result (Store × Enqueued)
enqueue encoding at request ids store = elim (event request.event_id store) [
  | some existing ↦
      throw_if (differs encoding request ids existing) runtime >> ok (store, Enqueued.unchanged)
  | none ↦ ok (
    with_tables (store.events ++ (pending_event request ids at ∷ [])) store.attempt_rows store,
    Enqueued.added,
  )
]

abbrev pub prepared_attempt : String → ℕ → SettlementRequestN → AttemptParams → StoredAttempt
prepared_attempt id attempt request params = record {
  event_id = id;
  attempt = attempt;
  request = request;
  params = params;
  signature = none;
  raw_transaction = none;
  last_valid_block_height = none;
  status = AttemptStatus.prepared;
  error = none;
}

-- The insertion throws where the event has an attempt of that number.
unfoldable pub begin_attempt :
    String → SettlementRequestN → AttemptParams → Store → Result (Store × ℕ)
begin_attempt id request params store = do
  e ← or_throw (event id store) runtime
  throw_if (not (same_event_status e.status EventStatus.pending)) runtime
  let attempt = e.attempts + 1
  throw_if (any_attempt (is_attempt id attempt) store.attempt_rows) runtime
  ok (
    with_tables (update_event id (with_attempt attempt) store.events)
        (store.attempt_rows ++ (prepared_attempt id attempt request params ∷ [])) store,
    attempt,
  )

abbrev pub with_signature : String → String → ℕ → StoredAttempt → StoredAttempt
with_signature signature raw_transaction height a = record {
  event_id = a.event_id;
  attempt = a.attempt;
  request = a.request;
  params = a.params;
  signature = some signature;
  raw_transaction = some raw_transaction;
  last_valid_block_height = some height;
  status = AttemptStatus.signed;
  error = a.error;
}

abbrev pub with_attempt_status : AttemptStatus → Option String → StoredAttempt → StoredAttempt
with_attempt_status status error a = record {
  event_id = a.event_id;
  attempt = a.attempt;
  request = a.request;
  params = a.params;
  signature = a.signature;
  raw_transaction = a.raw_transaction;
  last_valid_block_height = a.last_valid_block_height;
  status = status;
  error = error;
}

unfoldable pub record_signed : String → ℕ → String → String → ℕ → Store → Store
record_signed id attempt signature raw_transaction height store =
    with_tables store.events
      (update_attempts (λ a. is_attempt id attempt a && is_prepared a.status)
        (with_signature signature raw_transaction height) store.attempt_rows)
      store

-- The source's type leaves out `landed`.
unfoldable pub set_attempt_status : String → ℕ → AttemptStatus → Option String → Store → Store
set_attempt_status id attempt status error store =
    with_tables store.events
      (update_attempts (is_attempt id attempt) (with_attempt_status status error)
        store.attempt_rows)
      store

-- The source's type leaves out `paid`.
unfoldable pub set_event_status : String → EventStatus → Option String → Store → Store
set_event_status id status note store =
    with_tables (update_event id (with_event_status status note) store.events) store.attempt_rows
      store

-- `INSERT OR IGNORE`: a row that stands already, by the table's keys, is left out.
unfoldable pub has_row {ℓ} : {A : Type ℓ} → (A → A → Bool) → A → List A → Bool
has_row same row [] = false
has_row same row (r ∷ rows) = same r row || has_row same row rows

unfoldable pub insert_or_ignore {ℓ} : {A : Type ℓ} → (A → A → Bool) → A → List A → List A
insert_or_ignore same row rows = if has_row same row rows then rows else rows ++ (row ∷ [])

unfoldable pub insert_all {ℓ} : {A : Type ℓ} → (A → A → Bool) → List A → List A → List A
insert_all same [] rows = rows
insert_all same (row ∷ more) rows = insert_all same more (insert_or_ignore same row rows)

-- The keys of the tables: `settlements` has two.
abbrev pub same_settlement : String × SettlementRecord → String × SettlementRecord → Bool
same_settlement (a, r) (b, s) = a === b || r.signature === s.signature

abbrev pub same_entry : String × LedgerEntry → String × LedgerEntry → Bool
same_entry (_, a) (_, b) = a.entry_id === b.entry_id

abbrev pub same_pool : String × PayoutLine → String × PayoutLine → Bool
same_pool (a, r) (b, s) = a === b && r.role === s.role

abbrev pub rows_of {ℓ} : {A : Type ℓ} → String → List A → List (String × A)
rows_of id [] = []
rows_of id (a ∷ rows) = (id, a) ∷ rows_of id rows

-- The attempt that landed, where one is known.
abbrev pub land : String → Option ℕ → List StoredAttempt → List StoredAttempt
land id none rows = rows
land id (some attempt) rows =
    update_attempts (is_attempt id attempt) (with_attempt_status AttemptStatus.landed none) rows

-- The event is stored, as the foreign keys require of every row that is inserted.
unfoldable pub record_paid :
    String → Option ℕ → SettlementRecord → List LedgerEntry → List PayoutLine → Store → Store
record_paid id attempt settlement direct_entries pool_payouts store = record {
  events = update_event id (with_event_status EventStatus.paid none) store.events;
  attempt_rows = land id attempt store.attempt_rows;
  settlements = insert_or_ignore same_settlement (id, settlement) store.settlements;
  entries = insert_all same_entry (rows_of id direct_entries) store.entries;
  pools = insert_all same_pool (rows_of id pool_payouts) store.pools;
}
