-- ===== src/Studio/Store/Kept.antt =====
-- What the operations of the store keep: an attempt is of a stored event and is counted by it.
use synxed_solana_protocol.Base.{
  ℕ, ◌≤◌, ◌<◌, ◌≡◌, refl, sym, ◌∙◌, inl, inr, Bool, false, Option, some, List, [], ◌∷◌, ◌++◌, All,
  arith, Bool-cases,
}
use synxed_solana_protocol.Base.Text.{String, ◌===◌, ===_iff}
use synxed_solana_protocol.Types.{ok, SettlementRequestN}
use synxed_solana_protocol.Ledger.Evidence.{PayoutLine, LedgerEntry, SettlementRecord}
use synxed_solana_protocol.Studio.Store.{
  EventStatus, AttemptStatus, StoredEvent, AttemptParams, StoredAttempt, Store, Enqueued,
  find_event, update_event, is_attempt, update_attempts, any_attempt,
}
use synxed_solana_protocol.Studio.Store.Write.{
  Encoding, enqueue, begin_attempt, record_signed, set_attempt_status, set_event_status,
  record_paid,
}
use synxed_solana_protocol.Studio.Store.Rows.{
  find_event-append, find_event-update_event, find_event-update_event_other,
}
use mathlib.Core.Path.{subst}

-- The event of an attempt is stored and has counted it.
abbrev pub IsCounted : List StoredEvent → StoredAttempt → Type 0
IsCounted events a =
    (e : StoredEvent) × (find_event a.event_id events ≡ some e) × (a.attempt ≤ e.attempts)

abbrev pub IsValid : Store → Type 0
IsValid store = All (IsCounted store.events) store.attempt_rows

-- Events are kept, and count no fewer attempts.
abbrev pub Grows : List StoredEvent → List StoredEvent → Type 0
Grows old new =
    (id : String) (e : StoredEvent)
    → find_event id old ≡ some e
    → (e' : StoredEvent) × (find_event id new ≡ some e') × (e.attempts ≤ e'.attempts)

Grows-IsCounted :
    (old new : List StoredEvent)
    → Grows old new
    → (a : StoredAttempt) → IsCounted old a
    → IsCounted new a
Grows-IsCounted old new g a (e, h, k) = let (e', h', k') = g a.event_id e h in (e', h', omega arith)

pub Grows-All :
    (old new : List StoredEvent) (rows : List StoredAttempt)
    → Grows old new
    → All (IsCounted old) rows
    → All (IsCounted new) rows
Grows-All old new [] g h = tt
Grows-All old new (a ∷ rows) g (h, hs) =
    (Grows-IsCounted old new g a h, Grows-All old new rows g hs)

pub append-Grows : (events : List StoredEvent) (x : StoredEvent) → Grows events (events ++ (x ∷ []))
append-Grows events x id e h = (e, find_event-append id events x h, omega arith)

pub update_event-Grows :
    (id : String) (f : StoredEvent → StoredEvent) (events : List StoredEvent)
    → ((e : StoredEvent) → (f e).event_id ≡ e.event_id)
    → ((e : StoredEvent) → find_event id events ≡ some e → e.attempts ≤ (f e).attempts)
    → Grows events (update_event id f events)
update_event-Grows id f events keeps more k e h = elim (Bool-cases (k === id)) [
  | inl q ↦
      let same = (===_iff k id).0 q in
      let at = subst (λ k. find_event k events ≡ some e) same h in
      (
        f e,
        subst (λ k. find_event k (update_event id f events) ≡ some (f e)) (sym same)
            (find_event-update_event id f keeps events at),
        more e at,
      )
  | inr q ↦ (e, find_event-update_event_other id f keeps k events q ∙ h, omega arith)
]

pub update_attempts-All :
    (p : StoredAttempt → Bool) (f : StoredAttempt → StoredAttempt) (events : List StoredEvent)
    (rows : List StoredAttempt)
    → ((a : StoredAttempt) → IsCounted events a → IsCounted events (f a))
    → All (IsCounted events) rows
    → All (IsCounted events) (update_attempts p f rows)
unfolding update_attempts
update_attempts-All p f events [] keeps h = tt
update_attempts-All p f events (a ∷ rows) keeps (h, hs) = elim (Bool-cases (p a)) [
  | inl q ↦ rw q (keeps a h, update_attempts-All p f events rows keeps hs)
  | inr q ↦ rw q (h, update_attempts-All p f events rows keeps hs)
]

pub All-append :
    (events : List StoredEvent) (rows : List StoredAttempt) (x : StoredAttempt)
    → All (IsCounted events) rows
    → IsCounted events x
    → All (IsCounted events) (rows ++ (x ∷ []))
All-append events [] x h k = (k, tt)
All-append events (a ∷ rows) x (h, hs) k = (h, All-append events rows x hs k)

-- The attempts of a number that its event has not counted are none.
pub any_attempt-uncounted :
    (id : String) (n : ℕ) (e : StoredEvent) (events : List StoredEvent) (rows : List StoredAttempt)
    → find_event id events ≡ some e
    → e.attempts < n
    → All (IsCounted events) rows
    → any_attempt (is_attempt id n) rows ≡ false
unfolding any_attempt
any_attempt-uncounted id n e events [] h k v = refl
any_attempt-uncounted id n e events (a ∷ rows) h k ((e', h', k'), vs) =
    let rest = any_attempt-uncounted id n e events rows h k vs in
    elim (Bool-cases (a.event_id === id)) [
      | inr q ↦ ground arith
      | inl q ↦
          let found = subst (λ t. find_event t events ≡ some e') ((===_iff a.event_id id).0 q) h' in
          let same : e'.attempts ≡ e.attempts = cc in ground arith
    ]

-- The operations of the store, as the worker may call them in any order.
pub data Step : Store → Store → Type 0 where
  enqueues :
      (encoding : Encoding) (at : String) (request : SettlementRequestN)
      (ids : List (String × String)) {s t : Store} {k : Enqueued}
      → enqueue encoding at request ids s ≡ ok (t, k)
      → Step s t
  begins :
      (id : String) (request : SettlementRequestN) (params : AttemptParams) {s t : Store} {n : ℕ}
      → begin_attempt id request params s ≡ ok (t, n)
      → Step s t
  signs :
      (id : String) (n : ℕ) (signature raw : String) (height : ℕ) (s : Store)
      → Step s (record_signed id n signature raw height s)
  sets_attempt :
      (id : String) (n : ℕ) (status : AttemptStatus) (error : Option String) (s : Store)
      → Step s (set_attempt_status id n status error s)
  sets_event :
      (id : String) (status : EventStatus) (note : Option String) (s : Store)
      → Step s (set_event_status id status note s)
  pays :
      (id : String) (n : Option ℕ) (settlement : SettlementRecord) (entries : List LedgerEntry)
      (lines : List PayoutLine) (s : Store)
      → Step s (record_paid id n settlement entries lines s)
