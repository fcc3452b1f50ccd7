-- ===== src/Studio/Worker/Clear.antt =====
-- An event is made pending again only when no attempt of it may land: resolving.
use synxed_solana_protocol.Base.{
  ℕ, ◌≡◌, refl, sym, ap, ◌∙◌, inl, inr, ◌⊎◌, Bool, true, false, not, ◌&&◌, ◌||◌, Option, none, some,
  List, [], ◌∷◌, arith, Bool-cases,
}
use synxed_solana_protocol.Base.Text.{String, ◌===◌, ===_iff}
use synxed_solana_protocol.Ledger.Evidence.{PayoutLine, LedgerEntry, SettlementRecord}
use synxed_solana_protocol.Studio.Store.{
  EventStatus, AttemptStatus, same_event_status, is_prepared, StoredEvent, StoredAttempt, Store,
  find_event, update_event, is_attempt, any_attempt, with_event_status,
}
use synxed_solana_protocol.Studio.Store.Write.{set_event_status, set_attempt_status, record_paid}
use synxed_solana_protocol.Studio.Worker.Resolve.{is_signed, expire_signed}
use synxed_solana_protocol.Studio.Worker.Closing.{
  IsCoveredBy, IsCoveredBy-less, IsCoveredBy-close, IsCoveredBy-other,
}

-- An attempt of these may be, or come to be, known to the cluster.
abbrev pub can_land : AttemptStatus → Bool
can_land status = is_prepared status || is_signed status

-- The events that are stored under the id: none is pending.
unfoldable pub none_pending : String → List StoredEvent → Bool
none_pending id [] = true
none_pending id (e ∷ events) =
    not (e.event_id === id && same_event_status e.status EventStatus.pending)
    && none_pending id events

-- No attempt of the event that is stored can land.
abbrev pub IsClosed : String → Store → Type 0
IsClosed id store = IsCoveredBy can_land id [] store.attempt_rows

abbrev pub IsNotPending : String → Store → Type 0
IsNotPending id store = none_pending id store.events ≡ true

-- The event is not pending, or no attempt of it can land.
abbrev pub IsClear : String → Store → Type 0
IsClear id store = IsNotPending id store ⊎ IsClosed id store

none_pending-update_event :
    (id : String) (status : EventStatus) (why : Option String) (events : List StoredEvent)
    → same_event_status status EventStatus.pending ≡ false
    → none_pending id (update_event id (with_event_status status why) events) ≡ true
unfolding none_pending update_event
none_pending-update_event id status why [] q = refl
none_pending-update_event id status why (e ∷ events) q =
    let rest = none_pending-update_event id status why events q in
    elim (Bool-cases (e.event_id === id)) [
      | inl p ↦ rw p (ground arith)
      | inr p ↦ rw p (ground arith)
    ]

-- An event that is marked as anything else is not pending.
pub set_event_status-IsNotPending :
    (id : String) (status : EventStatus) (why : Option String) (s : Store)
    → same_event_status status EventStatus.pending ≡ false
    → IsNotPending id (set_event_status id status why s)
unfolding set_event_status
set_event_status-IsNotPending id status why s q = none_pending-update_event id status why s.events q

-- The kinds together.
IsClosed-both :
    (id : String) (rows : List StoredAttempt)
    → IsCoveredBy is_prepared id [] rows
    → IsCoveredBy is_signed id [] rows
    → IsCoveredBy can_land id [] rows
unfolding any_attempt
IsClosed-both id [] h k = tt
IsClosed-both id (a ∷ rows) (h, hs) (k, ks) = (ground arith, IsClosed-both id rows hs ks)

pub expire_signed-IsCoveredBy :
    (id : String) (attempts : List StoredAttempt) (s : Store)
    → IsCoveredBy is_prepared id [] s.attempt_rows
    → IsCoveredBy is_signed id attempts s.attempt_rows
    → IsClosed id (expire_signed attempts s)
unfolding expire_signed set_attempt_status
expire_signed-IsCoveredBy id [] s h k = IsClosed-both id s.attempt_rows h k
expire_signed-IsCoveredBy id (a ∷ attempts) s h k = elim (Bool-cases (is_signed a.status)) [
  | inl q ↦ rw q (
      expire_signed-IsCoveredBy id attempts
        (set_attempt_status a.event_id a.attempt AttemptStatus.expired none s)
        (IsCoveredBy-other is_prepared id _ [] s.attempt_rows AttemptStatus.expired none refl h)
        (IsCoveredBy-close is_signed id a attempts s.attempt_rows AttemptStatus.expired none refl
          k))
  | inr q ↦ rw q (
      expire_signed-IsCoveredBy id attempts s h
        (IsCoveredBy-less is_signed id a attempts s.attempt_rows q k))
]

pub set_attempt_status-IsClear :
    (id k : String) (attempt : ℕ) (status : AttemptStatus) (error : Option String) (s : Store)
    → can_land status ≡ false
    → IsClear id s
    → IsClear id (set_attempt_status k attempt status error s)
unfolding set_attempt_status
set_attempt_status-IsClear id k attempt status error s q (inl h) = inl h
set_attempt_status-IsClear id k attempt status error s q (inr h) =
    inr (IsCoveredBy-other can_land id (is_attempt k attempt) [] s.attempt_rows status error q h)

pub find_event-id :
    (id : String) (events : List StoredEvent) (e : StoredEvent)
    → find_event id events ≡ some e
    → e.event_id ≡ id
unfolding find_event
find_event-id id [] e h = absurd (ground arith)
find_event-id id (x ∷ events) e h = elim (Bool-cases (x.event_id === id)) [
  | inl q ↦
      let same : x ≡ e = ground arith in
      ap (λ (y : StoredEvent). y.event_id) (sym same) ∙ (===_iff x.event_id id).0 q
  | inr q ↦ find_event-id id events e (ground arith)
]

pub record_paid-IsNotPending :
    (id : String) (attempt : Option ℕ) (settlement : SettlementRecord) (entries : List LedgerEntry)
    (lines : List PayoutLine) (s : Store)
    → IsNotPending id (record_paid id attempt settlement entries lines s)
unfolding record_paid
record_paid-IsNotPending id attempt settlement entries lines s =
    none_pending-update_event id EventStatus.paid none s.events refl
