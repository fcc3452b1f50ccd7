-- ===== src/Studio/Store.antt =====
-- examples/studio-backend/src/store.ts: the worker's durable state. A table is the list of its rows,
-- the oldest first; a transaction that throws leaves the tables as they were. The columns of
-- requests, parameters, records, entries and lines hold the value whose JSON text they store, and
-- the times of the last update, which nothing reads, are left out.
pub mod Write
pub mod Rows
pub mod Kept
pub mod Balances
pub mod Steps
use synxed_solana_protocol.Base.{
  ℕ, suc, ◌+◌, Bool, true, false, not, ◌&&◌, ◌||◌, Option, none, some, List, [], ◌∷◌, ◌++◌, map,
  take, ◌==◌, if◌then◌else◌,
}
use synxed_solana_protocol.Base.Int.{ℤ, pos, ◌+ℤ◌}
use synxed_solana_protocol.Base.Text.{String, ◌===◌}
use synxed_solana_protocol.Types.{
  Result, ok, err, ◌>>=◌, ◌>>◌, throw_if, or_throw, runtime, SettlementRequestN,
}
use synxed_solana_protocol.Ledger.Evidence.{PayoutLine, LedgerEntry, SettlementRecord}
use synxed_solana_protocol.Ledger.Match.{precedes}
use synxed_solana_protocol.Ledger.Pool.{big_int_text}

pub data EventStatus : Type 0 where
  pending in_flight paid incident needs_attention : EventStatus

pub data AttemptStatus : Type 0 where
  prepared signed failed expired landed : AttemptStatus

abbrev pub same_event_status : EventStatus → EventStatus → Bool
same_event_status EventStatus.pending EventStatus.pending = true
same_event_status EventStatus.in_flight EventStatus.in_flight = true
same_event_status EventStatus.paid EventStatus.paid = true
same_event_status EventStatus.incident EventStatus.incident = true
same_event_status EventStatus.needs_attention EventStatus.needs_attention = true
same_event_status _ _ = false

abbrev pub is_prepared : AttemptStatus → Bool
is_prepared AttemptStatus.prepared = true
is_prepared _ = false

-- A row of `events`; `beneficiary_ids` holds the entries of the record.
pub record StoredEvent : Type 0 where
  pub event_id : String
  pub request : SettlementRequestN
  pub beneficiary_ids : List (String × String)
  pub status : EventStatus
  pub attempts : ℕ
  pub note : Option String
  pub created_at : String

pub record AttemptParams : Type 0 where
  pub program_id : String
  pub namespace : String
  pub lamports_per_atomic_unit : String
  pub payer : String
  pub authority : String

pub record StoredAttempt : Type 0 where
  pub event_id : String
  pub attempt : ℕ
  pub request : SettlementRequestN
  pub params : AttemptParams
  pub signature : Option String
  pub raw_transaction : Option String
  pub last_valid_block_height : Option ℕ
  pub status : AttemptStatus
  pub error : Option String

-- The rows of `settlements`, `ledger_entries` and `pool_payouts` carry their event's id first.
pub record Store : Type 0 where
  pub events : List StoredEvent
  pub attempt_rows : List StoredAttempt
  pub settlements : List (String × SettlementRecord)
  pub entries : List (String × LedgerEntry)
  pub pools : List (String × PayoutLine)

pub data Enqueued : Type 0 where
  added unchanged : Enqueued

unfoldable pub find_event : String → List StoredEvent → Option StoredEvent
find_event id [] = none
find_event id (e ∷ events) =
    let rest = find_event id events in if e.event_id === id then some e else rest

abbrev pub event : String → Store → Option StoredEvent
event id store = find_event id store.events

-- The rows of an event's attempts, which are stored in the order of their numbers.
unfoldable pub attempts_of : String → List StoredAttempt → List StoredAttempt
attempts_of id [] = []
attempts_of id (a ∷ rows) =
    let rest = attempts_of id rows in if a.event_id === id then a ∷ rest else rest

-- `ORDER BY created_at, event_id`
abbrev pub comes_first : StoredEvent → StoredEvent → Bool
comes_first a b =
    if a.created_at === b.created_at
    then precedes a.event_id b.event_id
    else precedes a.created_at b.created_at

unfoldable pub insert_event : StoredEvent → List StoredEvent → List StoredEvent
insert_event e [] = e ∷ []
insert_event e (f ∷ events) =
    let later = f ∷ insert_event e events in if comes_first e f then e ∷ f ∷ events else later

unfoldable pub with_status : EventStatus → List StoredEvent → List StoredEvent
with_status status [] = []
with_status status (e ∷ events) =
    let rest = with_status status events in
    if same_event_status e.status status then insert_event e rest else rest

-- No limit is none, which the source writes -1.
abbrev pub events_with_status : EventStatus → Option ℕ → Store → List StoredEvent
events_with_status status none store = with_status status store.events
events_with_status status (some limit) store = take limit (with_status status store.events)

-- `UPDATE events SET … WHERE event_id = ?`
unfoldable pub update_event :
    String → (StoredEvent → StoredEvent) → List StoredEvent → List StoredEvent
update_event id f [] = []
update_event id f (e ∷ events) =
    let rest = update_event id f events in (if e.event_id === id then f e else e) ∷ rest

abbrev pub is_attempt : String → ℕ → StoredAttempt → Bool
is_attempt id attempt a = a.event_id === id && a.attempt == attempt

-- `UPDATE attempts SET … WHERE …`
unfoldable pub update_attempts :
    (StoredAttempt → Bool)
    → (StoredAttempt → StoredAttempt)
    → List StoredAttempt
    → List StoredAttempt
update_attempts p f [] = []
update_attempts p f (a ∷ rows) =
    let rest = update_attempts p f rows in (if p a then f a else a) ∷ rest

unfoldable pub any_attempt : (StoredAttempt → Bool) → List StoredAttempt → Bool
any_attempt p [] = false
any_attempt p (a ∷ rows) = p a || any_attempt p rows

abbrev pub with_event_status : EventStatus → Option String → StoredEvent → StoredEvent
with_event_status status note e = record {
  event_id = e.event_id;
  request = e.request;
  beneficiary_ids = e.beneficiary_ids;
  status = status;
  attempts = e.attempts;
  note = note;
  created_at = e.created_at;
}

abbrev pub with_attempt : ℕ → StoredEvent → StoredEvent
with_attempt attempt e = record {
  event_id = e.event_id;
  request = e.request;
  beneficiary_ids = e.beneficiary_ids;
  status = EventStatus.in_flight;
  attempts = attempt;
  note = none;
  created_at = e.created_at;
}
