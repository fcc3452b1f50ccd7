-- ===== src/Studio/Store/Steps.antt =====
-- The theorems on the store's operations.
use synxed_solana_protocol.Base.{
  ℕ, ◌+◌, ◌≤◌, ◌≡◌, refl, sym, ap, ◌∙◌, inl, inr, ◌⊎◌, true, false, Option, none, some, List, [],
  ◌∷◌, ◌++◌, All, arith,
}
use synxed_solana_protocol.Base.Text.{String}
use synxed_solana_protocol.Types.{ok, err, runtime, SettlementRequestN}
use synxed_solana_protocol.Ledger.Evidence.{PayoutLine, LedgerEntry, SettlementRecord}
use synxed_solana_protocol.Studio.Store.{
  EventStatus, AttemptStatus, same_event_status, StoredEvent, AttemptParams, StoredAttempt, Store,
  Enqueued, event, find_event, update_event, is_attempt, with_event_status, with_attempt,
}
use synxed_solana_protocol.Studio.Store.Write.{
  Encoding, enqueue, begin_attempt, record_signed, set_attempt_status, set_event_status,
  record_paid, pending_event, prepared_attempt, with_tables, land, same_settlement, same_entry,
  same_pool, differs, rows_of, with_attempt_status,
}
use synxed_solana_protocol.Studio.Store.Rows.{
  ===_refl, find_event-append_new, find_event-update_event, update_event-update_event,
  update_attempts-update_attempts, insert_or_ignore-insert_or_ignore, insert_all-insert_all,
}
use synxed_solana_protocol.Studio.Store.Kept.{
  IsCounted, IsValid, Grows-All, append-Grows, update_event-Grows, update_attempts-All, All-append,
  any_attempt-uncounted, Step,
}
use mathlib.Core.Path.{subst}

Option-cases {ℓ} : {A : Type ℓ} (o : Option A) → ((a : A) × (o ≡ some a)) ⊎ (o ≡ none)
Option-cases none = inr refl
Option-cases (some a) = inl (a, refl)

abbrev pub begun : String → SettlementRequestN → AttemptParams → StoredEvent → Store → Store
begun id request params e store =
    with_tables (update_event id (with_attempt (e.attempts + 1)) store.events)
      (store.attempt_rows ++ (prepared_attempt id (e.attempts + 1) request params ∷ [])) store

pub begin_attempt_inv :
    (id : String) (request : SettlementRequestN) (params : AttemptParams) (s t : Store) (n : ℕ)
    → begin_attempt id request params s ≡ ok (t, n)
    → (e : StoredEvent) × (event id s ≡ some e)
      × (same_event_status e.status EventStatus.pending ≡ true)
      × (t ≡ begun id request params e s)
      × (n ≡ e.attempts + 1)
unfolding begin_attempt
begin_attempt_inv id request params s t n h = elim (Option-cases (event id s)) [
  | inr q ↦ absurd (ground arith)
  | inl (e, q) ↦ (e, q, ground arith, ground arith, ground arith)
]

enqueue_inv :
    (encoding : Encoding) (at : String) (request : SettlementRequestN)
    (ids : List (String × String)) (s t : Store) (k : Enqueued)
    → enqueue encoding at request ids s ≡ ok (t, k)
    → ((e : StoredEvent) × (event request.event_id s ≡ some e)
        × (differs encoding request ids e ≡ false)
        × (t ≡ s))
      ⊎ ((event request.event_id s ≡ none)
          × (t ≡ with_tables (s.events ++ (pending_event request ids at ∷ [])) s.attempt_rows s))
unfolding enqueue
enqueue_inv encoding at request ids s t k h = elim (Option-cases (event request.event_id s)) [
  | inr q ↦ inr (q, ground arith)
  | inl (e, q) ↦ inl (e, q, ground arith, ground arith)
]

begun-IsValid :
    (id : String) (request : SettlementRequestN) (params : AttemptParams) (e : StoredEvent)
    (s : Store)
    → event id s ≡ some e
    → IsValid s
    → IsValid (begun id request params e s)
begun-IsValid id request params e s q v =
    let new = update_event id (with_attempt (e.attempts + 1)) s.events in
    let counts : (x : StoredEvent) → find_event id s.events ≡ some x → x.attempts ≤ e.attempts + 1 =
      λ x r.
        let same : x ≡ e = ground arith in
        omega (arith, ap (λ (y : StoredEvent). y.attempts) same) in
    All-append new s.attempt_rows (prepared_attempt id (e.attempts + 1) request params)
      (Grows-All s.events new s.attempt_rows
        (update_event-Grows id (with_attempt (e.attempts + 1)) s.events (λ x. refl) counts) v)
      (
        with_attempt (e.attempts + 1) e,
        find_event-update_event id (with_attempt (e.attempts + 1)) (λ x. refl) s.events q,
        omega arith,
      )

status-IsValid :
    (id : String) (status : EventStatus) (note : Option String) (s : Store)
    (rows : List StoredAttempt)
    → All (IsCounted s.events) rows
    → All (IsCounted (update_event id (with_event_status status note) s.events)) rows
status-IsValid id status note s rows v =
    Grows-All s.events _ rows
      (update_event-Grows id (with_event_status status note) s.events (λ x. refl)
        (λ x r. omega arith))
      v

land-All :
    (id : String) (n : Option ℕ) (events : List StoredEvent) (rows : List StoredAttempt)
    → All (IsCounted events) rows
    → All (IsCounted events) (land id n rows)
land-All id none events rows v = v
land-All id (some n) events rows v =
    update_attempts-All (is_attempt id n) (with_attempt_status AttemptStatus.landed none) events
      rows (λ a c. c) v

-- Whatever operations of the store are called, in any order, each attempt stays one of a stored
-- event, which has counted it.
pub Step-IsValid : (s t : Store) → Step s t → IsValid s → IsValid t
unfolding record_signed set_attempt_status set_event_status record_paid
Step-IsValid s t (Step.enqueues encoding at request ids {k = k} h) v =
    elim (enqueue_inv encoding at request ids s t k h) [
      | inl (e, q, d, same) ↦ subst IsValid (sym same) v
      | inr (q, same) ↦ subst IsValid (sym same) (
          Grows-All s.events _ s.attempt_rows (append-Grows s.events (pending_event request ids at))
            v)
    ]
Step-IsValid s t (Step.begins id request params {n = n} h) v =
    let (e, q, p, same, count) = begin_attempt_inv id request params s t n h in
    subst IsValid (sym same) (begun-IsValid id request params e s q v)
Step-IsValid s t (Step.signs id n signature raw height _) v =
    update_attempts-All _ _ s.events s.attempt_rows (λ a c. c) v
Step-IsValid s t (Step.sets_attempt id n status error _) v =
    update_attempts-All _ _ s.events s.attempt_rows (λ a c. c) v
Step-IsValid s t (Step.sets_event id status note _) v =
    status-IsValid id status note s s.attempt_rows v
Step-IsValid s t (Step.pays id n settlement entries lines _) v =
    status-IsValid id EventStatus.paid none s (land id n s.attempt_rows)
      (land-All id n s.events s.attempt_rows v)

-- In a valid store a pending event can always begin its next attempt: no attempt of that number
-- stands in the way, the attempt is stored as prepared with its request and parameters, and the
-- event is in flight with one attempt more.
pub begin_attempt-IsValid :
    (id : String) (request : SettlementRequestN) (params : AttemptParams) (s : Store)
    (e : StoredEvent)
    → IsValid s
    → event id s ≡ some e
    → e.status ≡ EventStatus.pending
    → (t : Store) × (begin_attempt id request params s ≡ ok (t, e.attempts + 1))
      × (event id t ≡ some (with_attempt (e.attempts + 1) e))
      × (t.attempt_rows
          ≡ s.attempt_rows ++ (prepared_attempt id (e.attempts + 1) request params ∷ []))
unfolding begin_attempt
begin_attempt-IsValid id request params s e v q p =
    let free =
      any_attempt-uncounted id (e.attempts + 1) e s.events s.attempt_rows q (omega arith) v in
    (
      begun id request params e s,
      ground (arith, free),
      find_event-update_event id (with_attempt (e.attempts + 1)) (λ x. refl) s.events q,
      refl,
    )

-- Once an attempt has begun, no other begins for the event in the state it leaves, whatever the
-- request and the parameters: the event is in flight.
pub begin_attempt-begin_attempt :
    (id : String) (request request' : SettlementRequestN) (params params' : AttemptParams)
    (s t : Store) (n : ℕ)
    → begin_attempt id request params s ≡ ok (t, n)
    → begin_attempt id request' params' t ≡ err runtime
unfolding begin_attempt
begin_attempt-begin_attempt id request request' params params' s t n h =
    let (e, q, p, same, count) = begin_attempt_inv id request params s t n h in
    let found : event id t ≡ some (with_attempt (e.attempts + 1) e) =
      ap (event id) same
      ∙ find_event-update_event id (with_attempt (e.attempts + 1)) (λ x. refl) s.events q in
    ground arith

-- An event that was enqueued, or found stored, is found unchanged when the same request and
-- beneficiaries are enqueued again, and the store stays as it is.
pub enqueue-enqueue :
    (encoding : Encoding) (at at' : String) (request : SettlementRequestN)
    (ids : List (String × String)) (s t : Store) (k : Enqueued)
    → enqueue encoding at request ids s ≡ ok (t, k)
    → enqueue encoding at' request ids t ≡ ok (t, Enqueued.unchanged)
unfolding enqueue
enqueue-enqueue encoding at at' request ids s t k h =
    elim (enqueue_inv encoding at request ids s t k h) [
      | inl (e, q, d, same) ↦
          let found : event request.event_id t ≡ some e = ap (event request.event_id) same ∙ q in
          ground arith
      | inr (q, same) ↦
          let found : event request.event_id t ≡ some (pending_event request ids at) =
            ap (event request.event_id) same
            ∙ find_event-append_new request.event_id s.events (pending_event request ids at) q
                refl in
          ground (arith, ===_refl (encoding.request_text request), ===_refl (encoding.ids_text ids))
    ]

land-land :
    (id : String) (n : Option ℕ) (rows : List StoredAttempt)
    → land id n (land id n rows) ≡ land id n rows
land-land id none rows = refl
land-land id (some n) rows =
    update_attempts-update_attempts (is_attempt id n)
      (with_attempt_status AttemptStatus.landed none) rows (λ a. refl) (λ a. refl)

-- Recording the same payment again changes nothing, from whatever state it was recorded first.
pub record_paid-record_paid :
    (id : String) (n : Option ℕ) (settlement : SettlementRecord) (entries : List LedgerEntry)
    (lines : List PayoutLine) (s : Store)
    → record_paid id n settlement entries lines (record_paid id n settlement entries lines s)
      ≡ record_paid id n settlement entries lines s
unfolding record_paid
record_paid-record_paid id n settlement entries lines s = cc (
  update_event-update_event id (with_event_status EventStatus.paid none) (λ e. refl) s.events
      (λ e. refl),
  land-land id n s.attempt_rows,
  insert_or_ignore-insert_or_ignore same_settlement (λ (a, r). ground (arith, ===_refl a))
      (id, settlement) s.settlements,
  insert_all-insert_all same_entry (λ (a, r). ===_refl r.entry_id) (rows_of id entries) s.entries,
  insert_all-insert_all same_pool (λ (a, r). ground (arith, ===_refl a, ===_refl r.role))
      (rows_of id lines) s.pools,
)
