-- ===== src/Studio/Worker/RecordClear.antt =====
-- Deciding from the record, and resolving as a whole, keep an event clear.
use synxed_solana_protocol.Base.{
  ◌≡◌, refl, ap, inl, inr, Bool, true, false, Option, none, some, List, [],
}
use synxed_solana_protocol.Base.Text.{String}
use synxed_solana_protocol.Types.{Result, ok, err}
use synxed_solana_protocol.Bytes.{Bytes}
use synxed_solana_protocol.Solana.{Solana}
use synxed_solana_protocol.Ledger.Evidence.{SettlementReconciliation}
use synxed_solana_protocol.Ledger.History.{SettlementTransaction}
use synxed_solana_protocol.Client.Library.{Library}
use synxed_solana_protocol.Client.Accounts.{SettlementRecordAccount}
use synxed_solana_protocol.Studio.Store.{
  EventStatus, same_event_status, is_prepared, StoredEvent, StoredAttempt, Store, event,
  attempts_of,
}
use synxed_solana_protocol.Studio.Store.Write.{set_event_status}
use synxed_solana_protocol.Studio.Worker.Action.{Action, State}
use synxed_solana_protocol.Studio.Worker.Network.{Network, Provider, WorkerOptions, Outcome}
use synxed_solana_protocol.Studio.Worker.Evidence.{Request}
use synxed_solana_protocol.Studio.Worker.Resolve.{
  is_signed, retry, resolve_absent, find_created, fails_to_match, second_disagrees, resolve_rows,
  resolve_agreed, resolve_matched, second_confirms, resolve_mismatch, resolve_unmatched, candidates,
  resolve_results, resolve_created, resolve_found, resolve_record, resolve_read, resolve_landed,
  resolve_attempts, resolve_in_flight, resolve_event, resolve,
}
use synxed_solana_protocol.Studio.Worker.Triple.{
  After, Triple, >>=-Triple, caught-Triple, caught-kept, stored-Triple, asks-Triple, lift-Triple,
  returns-Triple, throws-Triple, writes-Triple, weaken, Triple-after,
}
use synxed_solana_protocol.Studio.Worker.Closing.{IsCoveredBy, IsCoveredBy-attempts_of}
use mathlib.Core.Path.{subst}
use synxed_solana_protocol.Studio.Worker.Clear.{
  IsClear, IsClosed, set_event_status-IsNotPending, record_paid-IsNotPending,
  expire_signed-IsCoveredBy, find_event-id,
}
use synxed_solana_protocol.Studio.Worker.ResolveClear.{
  Remains, may_still_land-Remains, fetch_record-kept, absent_on_second-Remains, stays-IsClear,
  reconcile-kept, reconcile_each-kept,
}

IsClosed-marked :
    (id : String) (status : EventStatus) (why : Option String) (s : Store)
    → IsClosed id s
    → IsClear id (set_event_status id status why s)
unfolding set_event_status
IsClosed-marked id status why s h = inr h

module _ (w : Solana) (l : Library w.PublicKey) (n : Network w.PublicKey)
    (options : WorkerOptions w.PublicKey) (e : StoredEvent) where
  open w use {PublicKey}
  open n use {World}

  abbrev Clears : Action World Outcome → (Store → Type 0) → Type 0
  Clears m P = Triple P m (λ _. IsClear e.event_id) (IsClear e.event_id)

  retry-IsClear : (used_up : Bool) → Clears (retry w l n options e used_up) (IsClosed e.event_id)
  unfolding retry
  retry-IsClear true = writes-Triple _ (IsClosed-marked e.event_id _ _) (returns-Triple (λ s h. h))
  retry-IsClear false = writes-Triple _ (IsClosed-marked e.event_id _ _) (returns-Triple (λ s h. h))

  resolve_absent-IsClear :
      (absent : Bool) → Clears (resolve_absent w l n options e absent) (Remains e.event_id [])
  unfolding resolve_absent
  resolve_absent-IsClear false = returns-Triple (λ s h. h.0)
  resolve_absent-IsClear true =
      writes-Triple _
        (λ s h.
          expire_signed-IsCoveredBy e.event_id _ s h.1
            (IsCoveredBy-attempts_of is_signed e.event_id s.attempt_rows))
        (retry-IsClear _)

  resolve_rows-IsClear :
      (attempts : List StoredAttempt) (signature : String) (rows : Result SettlementReconciliation)
      → Clears (resolve_rows w l n options e attempts signature rows) (IsClear e.event_id)
  unfolding resolve_rows
  resolve_rows-IsClear attempts signature (err x) = stays-IsClear w l n options e.event_id _ _
  resolve_rows-IsClear attempts signature (ok r) =
      writes-Triple _ (λ s h. inl (record_paid-IsNotPending e.event_id _ _ _ _ s))
        (returns-Triple (λ s h. h))

  resolve_agreed-IsClear :
      (attempts : List StoredAttempt) (signature : String) (request : Request) (disagrees : Bool)
      → Clears
          (resolve_agreed w l n options e attempts signature request disagrees)
          (IsClear e.event_id)
  unfolding resolve_agreed
  resolve_agreed-IsClear attempts signature request true =
      stays-IsClear w l n options e.event_id _ _
  resolve_agreed-IsClear attempts signature request false =
      >>=-Triple (reconcile-kept w l n options e.event_id _ _ _ _ _ _)
        (resolve_rows-IsClear attempts signature)

  fails_to_match-kept :
      (P : Store → Type 0) (R : Store → Type 0) (result : Result SettlementReconciliation)
      → Triple P (fails_to_match w l n options result) (λ _. P) R
  unfolding fails_to_match
  fails_to_match-kept P R (ok _) = returns-Triple (λ s h. h)
  fails_to_match-kept P R (err _) = returns-Triple (λ s h. h)

  second_disagrees-kept :
      (P : Store → Type 0) (R : Store → Type 0) (has_second : Bool) (signature : String)
      (request : Request)
      → Triple P (second_disagrees w l n options has_second signature request) (λ _. P) R
  unfolding second_disagrees
  second_disagrees-kept P R true signature request =
      >>=-Triple
        (reconcile-kept w l n options e.event_id P R Provider.second signature request none)
        (fails_to_match-kept P R)
  second_disagrees-kept P R false signature request = returns-Triple (λ s h. h)

  resolve_matched-IsClear :
      (attempts : List StoredAttempt) (signature : String) (request : Request)
      → Clears (resolve_matched w l n options e attempts signature request) (IsClear e.event_id)
  unfolding resolve_matched
  resolve_matched-IsClear attempts signature request =
      >>=-Triple (second_disagrees-kept _ _ options.has_second signature request)
        (resolve_agreed-IsClear attempts signature request)

  resolve_mismatch-IsClear :
      (signature : String) (results : List (Result SettlementReconciliation)) (confirms : Bool)
      → Clears (resolve_mismatch w l n options e signature results confirms) (IsClear e.event_id)
  unfolding resolve_mismatch
  resolve_mismatch-IsClear signature results true =
      writes-Triple _
        (λ s h. inl (set_event_status-IsNotPending e.event_id EventStatus.incident _ s refl))
        (returns-Triple (λ s h. h))
  resolve_mismatch-IsClear signature results false = stays-IsClear w l n options e.event_id _ _

  second_confirms-kept :
      (P : Store → Type 0) (R : Store → Type 0) (has_second : Bool) (signature : String)
      (requests : List Request)
      → Triple P (second_confirms w l n options has_second signature requests) (λ _. P) R
  unfolding second_confirms
  second_confirms-kept P R true signature requests =
      >>=-Triple
        (reconcile_each-kept w l n options e.event_id P R Provider.second signature requests)
        (λ results. returns-Triple (λ s h. h))
  second_confirms-kept P R false signature requests = returns-Triple (λ s h. h)

  resolve_unmatched-IsClear :
      (signature : String) (requests : List Request)
      (results : List (Result SettlementReconciliation)) (mismatch : Bool)
      → Clears
          (resolve_unmatched w l n options e signature requests results mismatch)
          (IsClear e.event_id)
  unfolding resolve_unmatched
  resolve_unmatched-IsClear signature requests results true =
      >>=-Triple (second_confirms-kept _ _ options.has_second signature requests)
        (resolve_mismatch-IsClear signature results)
  resolve_unmatched-IsClear signature requests results false =
      stays-IsClear w l n options e.event_id _ _

  resolve_results-IsClear :
      (attempts : List StoredAttempt) (signature : String)
      (results : List (Result SettlementReconciliation)) (matched : Option Request)
      → Clears
          (resolve_results w l n options e attempts signature results matched)
          (IsClear e.event_id)
  unfolding resolve_results
  resolve_results-IsClear attempts signature results (some request) =
      resolve_matched-IsClear attempts signature request
  resolve_results-IsClear attempts signature results none =
      resolve_unmatched-IsClear signature (candidates w l n options e attempts) results _

  resolve_created-IsClear :
      (attempts : List StoredAttempt) (signature : String) (top_level : Bool)
      → Clears (resolve_created w l n options e attempts signature top_level) (IsClear e.event_id)
  unfolding resolve_created
  resolve_created-IsClear attempts signature true =
      >>=-Triple
        (reconcile_each-kept w l n options e.event_id _ _ Provider.primary signature
          (candidates w l n options e attempts))
        (λ results. resolve_results-IsClear attempts signature results _)
  resolve_created-IsClear attempts signature false = stays-IsClear w l n options e.event_id _ _

  resolve_found-IsClear :
      (attempts : List StoredAttempt) (found : Result SettlementTransaction)
      → Clears (resolve_found w l n options e attempts found) (IsClear e.event_id)
  unfolding resolve_found
  resolve_found-IsClear attempts (err x) = stays-IsClear w l n options e.event_id _ _
  resolve_found-IsClear attempts (ok created) =
      resolve_created-IsClear attempts created.signature created.top_level

  find_created-kept :
      (P : Store → Type 0) → Triple P (find_created w l n options e.event_id) (λ _. P) P
  unfolding find_created
  find_created-kept P =
      >>=-Triple (asks-Triple _)
        (λ connection. >>=-Triple (lift-Triple (λ s h. h)) (λ found. lift-Triple (λ s h. h)))

  resolve_record-IsClear :
      (attempts : List StoredAttempt)
      → Clears (resolve_record w l n options e attempts) (IsClear e.event_id)
  unfolding resolve_record
  resolve_record-IsClear attempts =
      >>=-Triple (caught-kept (find_created-kept (IsClear e.event_id)))
        (resolve_found-IsClear attempts)

  resolve_read-IsClear :
      (seed : Bytes) (read : Result (Option (SettlementRecordAccount PublicKey)))
      → Clears (resolve_read w l n options e seed read) (Remains e.event_id [])
  unfolding resolve_read
  resolve_read-IsClear seed (err x) = stays-IsClear w l n options e.event_id _ _
  resolve_read-IsClear seed (ok none) =
      >>=-Triple (absent_on_second-Remains w l n options e.event_id options.has_second seed)
        resolve_absent-IsClear
  resolve_read-IsClear seed (ok (some _)) = stored-Triple (λ store h.
      weaken (λ s k. k.0.0) (resolve_record-IsClear (attempts_of e.event_id store.attempt_rows)))

  resolve_landed-IsClear :
      (landing : Result Bool)
      → Triple
          (After (λ _. Remains e.event_id []) (IsClear e.event_id) landing)
          (resolve_landed w l n options e landing)
          (λ _. IsClear e.event_id)
          (IsClear e.event_id)
  unfolding resolve_landed
  resolve_landed-IsClear (err x) = stays-IsClear w l n options e.event_id _ _
  resolve_landed-IsClear (ok true) = returns-Triple (λ s h. h.0)
  resolve_landed-IsClear (ok false) = >>=-Triple (lift-Triple (λ s h. h.0)) (λ seed.
      >>=-Triple
        (caught-kept (
          fetch_record-kept w l n options e.event_id (Remains e.event_id []) Provider.primary seed))
        (resolve_read-IsClear seed))

  resolve_attempts-IsClear :
      (attempts : List StoredAttempt) (elsewhere : Option StoredAttempt)
      → Clears (resolve_attempts w l n options e attempts elsewhere) (Remains e.event_id attempts)
  unfolding resolve_attempts
  resolve_attempts-IsClear attempts (some a) =
      writes-Triple _
        (λ s h. inl (set_event_status-IsNotPending e.event_id EventStatus.needs_attention _ s refl))
        (returns-Triple (λ s h. h))
  resolve_attempts-IsClear attempts none =
      >>=-Triple
        (caught-Triple (may_still_land-Remains w l n options e.event_id attempts false none))
        resolve_landed-IsClear

  resolve_in_flight-IsClear :
      (attempts : List StoredAttempt) (in_flight : Bool)
      → Clears (resolve_in_flight w l n options e attempts in_flight) (Remains e.event_id attempts)
  unfolding resolve_in_flight
  resolve_in_flight-IsClear attempts true = resolve_attempts-IsClear attempts _
  resolve_in_flight-IsClear attempts false = throws-Triple (λ s h. h.0)

module _ (w : Solana) (l : Library w.PublicKey) (n : Network w.PublicKey)
    (options : WorkerOptions w.PublicKey) (id : String) where
  open w use {PublicKey}
  open n use {World}

  resolve_event-IsClear :
      (found : Option StoredEvent) (store : Store)
      → event id store ≡ found
      → Triple
          (λ s. IsClear id s × (s.attempt_rows ≡ store.attempt_rows))
          (resolve_event w l n options found store)
          (λ _. IsClear id)
          (IsClear id)
  unfolding resolve_event
  resolve_event-IsClear none store q = throws-Triple (λ s h. h.0)
  resolve_event-IsClear (some e) store q =
      subst
        (λ (k : String).
          Triple (λ s. IsClear k s × (s.attempt_rows ≡ store.attempt_rows))
            (resolve_in_flight w l n options e (attempts_of e.event_id store.attempt_rows)
              (same_event_status e.status EventStatus.in_flight))
            (λ _. IsClear k) (IsClear k))
        (find_event-id id store.events e q)
        (weaken
          (λ s h. (
            h.0,
            subst
                (λ (rows : List StoredAttempt).
                  IsCoveredBy is_prepared e.event_id (attempts_of e.event_id rows) s.attempt_rows)
                h.1 (IsCoveredBy-attempts_of is_prepared e.event_id s.attempt_rows),
          ))
          (resolve_in_flight-IsClear w l n options e (attempts_of e.event_id store.attempt_rows) _))

  pub resolve-Triple : Triple (IsClear id) (resolve w l n options id) (λ _. IsClear id) (IsClear id)
  unfolding resolve
  resolve-Triple = stored-Triple (λ store h.
      weaken (λ s k. (k.0, ap (λ (x : Store). x.attempt_rows) k.1))
        (resolve_event-IsClear (event id store) store refl))

  -- Where the event is not pending, or no attempt of it is prepared or signed, the same holds after
  -- it is resolved, whether that returns or throws and whatever the connections answer.
  pub resolve-IsClear :
      (s : State World) → IsClear id s.store → IsClear id (resolve w l n options id s).1.store
  resolve-IsClear s h = Triple-after resolve-Triple s h
