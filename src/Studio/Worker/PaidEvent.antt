-- ===== src/Studio/Worker/PaidEvent.antt =====
-- An event that is resolved as paid, or that a reconciliation matches: what that took.
use synxed_solana_protocol.Base.{
  ◌≡◌, refl, ap, ◌∙◌, Bool, true, false, Option, none, some, List, arith,
}
use synxed_solana_protocol.Base.Text.{String}
use synxed_solana_protocol.Types.{Result, ok, err}
use synxed_solana_protocol.Bytes.{Bytes}
use synxed_solana_protocol.Solana.{Solana}
use synxed_solana_protocol.Instruction.Encode.{event_id_seed}
use synxed_solana_protocol.Client.Library.{Library}
use synxed_solana_protocol.Client.Accounts.{SettlementRecordAccount}
use synxed_solana_protocol.Studio.Store.{
  StoredEvent, StoredAttempt, Store, event, attempts_of, EventStatus, same_event_status,
}
use synxed_solana_protocol.Studio.Worker.Action.{
  State, writes->>-returned, caught-ok, >>=-returned, caught, stored, lift,
}
use synxed_solana_protocol.Studio.Worker.Network.{Network, Provider, WorkerOptions, Outcome}
use synxed_solana_protocol.Studio.Worker.Evidence.{fetch_record}
use synxed_solana_protocol.Studio.Worker.Resolve.{
  may_still_land, absent_on_second, retry, resolve_absent, resolve_read, resolve_landed,
  resolve_attempts, resolve_event, find_elsewhere, resolve_in_flight, resolve,
}
use mathlib.Core.Path.{subst, sym}
use synxed_solana_protocol.Studio.Worker.Paid.{PaysCreated, resolve_record-IsRecorded}

module _ (w : Solana) (l : Library w.PublicKey) (n : Network w.PublicKey)
    (options : WorkerOptions w.PublicKey) where
  open w use {PublicKey}
  open n use {World}

  retry-not_paid :
      (e : StoredEvent) (used_up : Bool) (s t : State World)
      → ¬ (retry w l n options e used_up s ≡ (ok Outcome.paid, t))
  unfolding retry
  retry-not_paid e true s t h = ground (arith, (writes->>-returned _ _ s t h).0)
  retry-not_paid e false s t h = ground (arith, (writes->>-returned _ _ s t h).0)

  resolve_absent-not_paid :
      (e : StoredEvent) (absent : Bool) (s t : State World)
      → ¬ (resolve_absent w l n options e absent s ≡ (ok Outcome.paid, t))
  unfolding resolve_absent
  resolve_absent-not_paid e false s t h = ground arith
  resolve_absent-not_paid e true s t h =
      let (_, u, _, h1) = >>=-returned _ _ s t h in retry-not_paid e _ u t h1

  -- The primary connection has the event's record, and then its creating transaction pays it.
  abbrev pub PaysRecord : StoredEvent → State World → State World → Type 0
  PaysRecord e before after =
      (seed : Bytes) × (found : SettlementRecordAccount PublicKey) × (read : State World)
      × (event_id_seed w e.event_id ≡ ok seed)
      × (fetch_record w l n options Provider.primary seed before ≡ (ok (some found), read))
      × PaysCreated w l n options e (attempts_of e.event_id read.store.attempt_rows) read after

  resolve_read-PaysCreated :
      (e : StoredEvent) (seed : Bytes) (read : Result (Option (SettlementRecordAccount PublicKey)))
      (s t : State World)
      → resolve_read w l n options e seed read s ≡ (ok Outcome.paid, t)
      → (found : SettlementRecordAccount PublicKey) × (read ≡ ok (some found))
        × PaysCreated w l n options e (attempts_of e.event_id s.store.attempt_rows) s t
  unfolding resolve_read
  resolve_read-PaysCreated e seed (err x) s t h =
      absurd (ground (arith, (writes->>-returned _ _ s t h).0))
  resolve_read-PaysCreated e seed (ok none) s t h =
      let (absent, u, _, h1) =
        >>=-returned (absent_on_second w l n options options.has_second e.event_id seed) _ s t h in
      absurd (resolve_absent-not_paid e absent u t h1)
  resolve_read-PaysCreated e seed (ok (some found)) s t h =
      let (store, u, p, h1) = >>=-returned stored _ s t h in
      let pays =
        resolve_record-IsRecorded w l n options e (attempts_of e.event_id store.attempt_rows) u t
          h1 in
      let same_store : store ≡ s.store = ground arith in
      let same_state : u ≡ s = ap (λ (x : Result Store × State World). x.1) (sym p) in
      (
        found,
        refl,
        subst
            (λ (x : State World).
              PaysCreated w l n options e (attempts_of e.event_id s.store.attempt_rows) x t)
            same_state
            (subst
              (λ (x : Store).
                PaysCreated w l n options e (attempts_of e.event_id x.attempt_rows) u t)
              same_store pays),
      )

  resolve_landed-PaysRecord :
      (e : StoredEvent) (landing : Result Bool) (s t : State World)
      → resolve_landed w l n options e landing s ≡ (ok Outcome.paid, t)
      → (landing ≡ ok false) × PaysRecord e s t
  unfolding resolve_landed
  resolve_landed-PaysRecord e (err x) s t h =
      absurd (ground (arith, (writes->>-returned _ _ s t h).0))
  resolve_landed-PaysRecord e (ok true) s t h = absurd (ground arith)
  resolve_landed-PaysRecord e (ok false) s t h =
      let (seed, u, p, h1) = >>=-returned (lift (event_id_seed w e.event_id)) _ s t h in
      let (read, v, p2, h2) =
        >>=-returned (caught (fetch_record w l n options Provider.primary seed)) _ u t h1 in
      let (found, q, pays) = resolve_read-PaysCreated e seed read v t h2 in
      let fetched =
        caught-ok (fetch_record w l n options Provider.primary seed) u v
          (p2 ∙ ap (λ (x : Result (Option (SettlementRecordAccount PublicKey))). (ok x, v)) q) in
      let seeded : event_id_seed w e.event_id ≡ ok seed =
        ap (λ (x : Result Bytes × State World). x.0) p in
      let same_state : u ≡ s = ap (λ (x : Result Bytes × State World). x.1) (sym p) in
      (
        refl,
        subst (λ (x : State World). PaysRecord e x t) same_state
            (seed, found, v, seeded, fetched, pays),
      )

  -- No attempt of another namespace is stored, none may still land, and then the record pays.
  abbrev pub PaysEvent : StoredEvent → List StoredAttempt → State World → State World → Type 0
  PaysEvent e attempts before after =
      (landed : State World) × (find_elsewhere w l n options attempts ≡ none)
      × (may_still_land w l n options attempts false none before ≡ (ok false, landed))
      × PaysRecord e landed after

  resolve_attempts-PaysEvent :
      (e : StoredEvent) (attempts : List StoredAttempt) (elsewhere : Option StoredAttempt)
      (s t : State World)
      → find_elsewhere w l n options attempts ≡ elsewhere
      → resolve_attempts w l n options e attempts elsewhere s ≡ (ok Outcome.paid, t)
      → PaysEvent e attempts s t
  unfolding resolve_attempts
  resolve_attempts-PaysEvent e attempts (some a) s t q h =
      absurd (ground (arith, (writes->>-returned _ _ s t h).0))
  resolve_attempts-PaysEvent e attempts none s t q h =
      let (landing, u, p, h1) =
        >>=-returned (caught (may_still_land w l n options attempts false none)) _ s t h in
      let (settled, pays) = resolve_landed-PaysRecord e landing u t h1 in
      (
        u,
        q,
        caught-ok (may_still_land w l n options attempts false none) s u
            (p ∙ ap (λ (x : Result Bool). (ok x, u)) settled),
        pays,
      )

  resolve_in_flight-PaysEvent :
      (e : StoredEvent) (attempts : List StoredAttempt) (in_flight : Bool) (s t : State World)
      → resolve_in_flight w l n options e attempts in_flight s ≡ (ok Outcome.paid, t)
      → (in_flight ≡ true) × PaysEvent e attempts s t
  unfolding resolve_in_flight
  resolve_in_flight-PaysEvent e attempts false s t h = absurd (ground arith)
  resolve_in_flight-PaysEvent e attempts true s t h = (
    refl,
    resolve_attempts-PaysEvent e attempts (find_elsewhere w l n options attempts) s t refl h,
  )

  resolve_event-PaysEvent :
      (found : Option StoredEvent) (store : Store) (s t : State World)
      → resolve_event w l n options found store s ≡ (ok Outcome.paid, t)
      → (e : StoredEvent) × (found ≡ some e)
        × (same_event_status e.status EventStatus.in_flight ≡ true)
        × PaysEvent e (attempts_of e.event_id store.attempt_rows) s t
  unfolding resolve_event
  resolve_event-PaysEvent none store s t h = absurd (ground arith)
  resolve_event-PaysEvent (some e) store s t h =
      let (flight, paid) =
        resolve_in_flight-PaysEvent e (attempts_of e.event_id store.attempt_rows)
          (same_event_status e.status EventStatus.in_flight) s t h in
      (e, refl, flight, paid)

  -- Where an event is resolved as paid, it was stored in flight, and the call went step by step
  -- through: no attempt stored for it is of another namespace and none may still land; the primary
  -- connection has the event's record; the search found its creating transaction, at the top
  -- level; that reconciled on the primary with a stored request, the first one to, on a second
  -- connection too where there is one, and again with the event's beneficiaries; and this last
  -- reconciliation's rows are what was recorded at the end.
  pub resolve-PaysEvent :
      (id : String) (s t : State World)
      → resolve w l n options id s ≡ (ok Outcome.paid, t)
      → (e : StoredEvent) × (event id s.store ≡ some e)
        × (same_event_status e.status EventStatus.in_flight ≡ true)
        × PaysEvent e (attempts_of e.event_id s.store.attempt_rows) s t
  unfolding resolve
  resolve-PaysEvent id s t h =
      let (store, u, p, h1) = >>=-returned stored _ s t h in
      let (e, q, flight, pays) = resolve_event-PaysEvent (event id store) store u t h1 in
      let same_store : store ≡ s.store = ground arith in
      let same_state : u ≡ s = ap (λ (x : Result Store × State World). x.1) (sym p) in
      (
        e,
        ap (event id) (sym same_store) ∙ q,
        flight,
        subst (λ (x : State World). PaysEvent e (attempts_of e.event_id s.store.attempt_rows) x t)
            same_state
            (subst (λ (x : Store). PaysEvent e (attempts_of e.event_id x.attempt_rows) u t)
              same_store pays),
      )
