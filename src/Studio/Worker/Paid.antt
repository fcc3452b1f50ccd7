-- ===== src/Studio/Worker/Paid.antt =====
-- An event is recorded as paid only on evidence.
use synxed_solana_protocol.Base.{
  ◌≡◌, refl, ap, ◌∙◌, inl, inr, ◌⊎◌, Bool, true, false, Option, none, some, List, arith,
}
use synxed_solana_protocol.Base.Text.{String}
use synxed_solana_protocol.Types.{Result, ok, err}
use synxed_solana_protocol.Solana.{Solana}
use synxed_solana_protocol.Ledger.Evidence.{SettlementReconciliation}
use synxed_solana_protocol.Ledger.History.{SettlementTransaction}
use synxed_solana_protocol.Client.Library.{Library}
use synxed_solana_protocol.Studio.Store.{StoredEvent, StoredAttempt}
use synxed_solana_protocol.Studio.Store.Write.{record_paid}
use synxed_solana_protocol.Studio.Worker.Action.{
  State, writes->>-returned, caught-ok, >>=-returned, caught,
}
use synxed_solana_protocol.Studio.Worker.Network.{Network, Provider, WorkerOptions, Outcome}
use synxed_solana_protocol.Studio.Worker.Evidence.{
  Request, landed_attempt, reconcile, reconcile_each, first_matched,
}
use synxed_solana_protocol.Studio.Worker.Resolve.{
  find_created, fails_to_match, second_disagrees, resolve_rows, resolve_agreed, resolve_matched,
  resolve_results, resolve_unmatched, resolve_mismatch, second_confirms, resolve_created,
  resolve_found, resolve_record, candidates,
}

module _ (w : Solana) (l : Library w.PublicKey) (n : Network w.PublicKey)
    (options : WorkerOptions w.PublicKey) where
  open w use {PublicKey}
  open n use {World}

  -- A reconciliation that succeeds, from one state to another.
  abbrev pub Matches :
      Provider
      → String
      → Request
      → Option (List (String × String))
      → SettlementReconciliation
      → State World
      → State World
      → Type 0
  Matches provider signature request ids reconciliation before after =
      reconcile w l n options provider signature request ids before
      ≡ (ok (ok reconciliation), after)

  -- Without a second connection nothing is asked; with one its reconciliation succeeds.
  abbrev pub Agrees : Bool → String → Request → State World → State World → Type 0
  Agrees has_second signature request before after =
      ((has_second ≡ false) × (before ≡ after))
      ⊎ ((r : SettlementReconciliation) × Matches Provider.second signature request none r before
            after)

  -- The store in which a reconciliation is recorded.
  abbrev pub paid_in :
      StoredEvent
      → List StoredAttempt
      → String
      → SettlementReconciliation
      → State World
      → State World
  paid_in e attempts signature r s = record {
    store =
        record_paid e.event_id (landed_attempt signature attempts) r.settlement r.direct_entries
          r.pool_payouts s.store;
    world = s.world;
  }

  -- The steps from a state to one in which the payment is recorded: the second connection agrees,
  -- the primary's reconciliation succeeds with the event's beneficiaries, and it is written.
  abbrev pub IsRecorded :
      StoredEvent
      → List StoredAttempt
      → String
      → Request
      → SettlementReconciliation
      → State World
      → State World
      → Type 0
  IsRecorded e attempts signature request r before after =
      (agreed : State World) × (matched : State World) × Agrees options.has_second signature request
        before agreed
      × Matches Provider.primary signature request (some e.beneficiary_ids) r agreed matched
      × (after ≡ paid_in e attempts signature r matched)

  fails_to_match-false :
      (result : Result SettlementReconciliation) (s t : State World)
      → fails_to_match w l n options result s ≡ (ok false, t)
      → (r : SettlementReconciliation) × (result ≡ ok r) × (s ≡ t)
  unfolding fails_to_match
  fails_to_match-false (ok r) s t h = (r, refl, ap (λ (x : Result Bool × State World). x.1) h)
  fails_to_match-false (err x) s t h = absurd (ground arith)

  second_disagrees-false :
      (has_second : Bool) (signature : String) (request : Request) (s t : State World)
      → second_disagrees w l n options has_second signature request s ≡ (ok false, t)
      → Agrees has_second signature request s t
  unfolding second_disagrees
  second_disagrees-false false signature request s t h =
      inl (refl, ap (λ (x : Result Bool × State World). x.1) h)
  second_disagrees-false true signature request s t h =
      let (result, u, p, h1) =
        >>=-returned (reconcile w l n options Provider.second signature request none) _ s t h in
      let (r, q, same) = fails_to_match-false result u t h1 in
      inr (
        r,
        p
            ∙ ap (λ (x : Result SettlementReconciliation). (ok x, u)) q
            ∙ ap (λ (x : State World). (ok (ok r), x)) same,
      )

  resolve_rows-IsRecorded :
      (e : StoredEvent) (attempts : List StoredAttempt) (signature : String)
      (rows : Result SettlementReconciliation) (s t : State World)
      → resolve_rows w l n options e attempts signature rows s ≡ (ok Outcome.paid, t)
      → (r : SettlementReconciliation) × (rows ≡ ok r) × (t ≡ paid_in e attempts signature r s)
  unfolding resolve_rows
  resolve_rows-IsRecorded e attempts signature (err x) s t h =
      absurd (ground (arith, (writes->>-returned _ _ s t h).0))
  resolve_rows-IsRecorded e attempts signature (ok r) s t h =
      (r, refl, (writes->>-returned _ _ s t h).1)

  resolve_agreed-IsRecorded :
      (e : StoredEvent) (attempts : List StoredAttempt) (signature : String) (request : Request)
      (disagrees : Bool) (s t : State World)
      → resolve_agreed w l n options e attempts signature request disagrees s ≡ (ok Outcome.paid, t)
      → (disagrees ≡ false)
        × ((r : SettlementReconciliation) × (u : State World) × Matches Provider.primary signature
              request
              (some e.beneficiary_ids)
              r
              s
              u
            × (t ≡ paid_in e attempts signature r u))
  unfolding resolve_agreed
  resolve_agreed-IsRecorded e attempts signature request true s t h =
      absurd (ground (arith, (writes->>-returned _ _ s t h).0))
  resolve_agreed-IsRecorded e attempts signature request false s t h =
      let (rows, u, p, h1) =
        >>=-returned
          (reconcile w l n options Provider.primary signature request (some e.beneficiary_ids)) _ s
          t h in
      let (r, q, recorded) = resolve_rows-IsRecorded e attempts signature rows u t h1 in
      (refl, (r, u, p ∙ ap (λ (x : Result SettlementReconciliation). (ok x, u)) q, recorded))

  resolve_matched-IsRecorded :
      (e : StoredEvent) (attempts : List StoredAttempt) (signature : String) (request : Request)
      (s t : State World)
      → resolve_matched w l n options e attempts signature request s ≡ (ok Outcome.paid, t)
      → (r : SettlementReconciliation) × IsRecorded e attempts signature request r s t
  unfolding resolve_matched
  resolve_matched-IsRecorded e attempts signature request s t h =
      let (disagrees, v, p, h1) =
        >>=-returned (second_disagrees w l n options options.has_second signature request) _ s t
          h in
      let (q, (r, u, evidence, recorded)) =
        resolve_agreed-IsRecorded e attempts signature request disagrees v t h1 in
      let agreed =
        second_disagrees-false options.has_second signature request s v
          (p ∙ ap (λ (b : Bool). (ok b, v)) q) in
      (r, (v, u, agreed, evidence, recorded))

  resolve_mismatch-not_paid :
      (e : StoredEvent) (signature : String) (results : List (Result SettlementReconciliation))
      (confirms : Bool) (s t : State World)
      → ¬ (resolve_mismatch w l n options e signature results confirms s ≡ (ok Outcome.paid, t))
  unfolding resolve_mismatch
  resolve_mismatch-not_paid e signature results true s t h =
      ground (arith, (writes->>-returned _ _ s t h).0)
  resolve_mismatch-not_paid e signature results false s t h =
      ground (arith, (writes->>-returned _ _ s t h).0)

  resolve_unmatched-not_paid :
      (e : StoredEvent) (signature : String) (requests : List Request)
      (results : List (Result SettlementReconciliation)) (mismatch : Bool) (s t : State World)
      → ¬ (
          resolve_unmatched w l n options e signature requests results mismatch s
          ≡ (ok Outcome.paid, t))
  unfolding resolve_unmatched
  resolve_unmatched-not_paid e signature requests results false s t h =
      ground (arith, (writes->>-returned _ _ s t h).0)
  resolve_unmatched-not_paid e signature requests results true s t h =
      let (confirms, u, p, h1) =
        >>=-returned (second_confirms w l n options options.has_second signature requests) _ s t
          h in
      resolve_mismatch-not_paid e signature results confirms u t h1

  -- What the event is paid by: the request of the first reconciliation that succeeds on the primary
  -- connection, among those of the stored requests.
  abbrev pub Pays : StoredEvent → List StoredAttempt → String → State World → State World → Type 0
  Pays e attempts signature before after =
      (results : List (Result SettlementReconciliation)) × (tried : State World)
      × (request : Request) × (r : SettlementReconciliation) × (reconcile_each w l n options
            Provider.primary signature (candidates w l n options e attempts) before
          ≡ (ok results, tried))
      × (first_matched (candidates w l n options e attempts) results ≡ some request)
      × IsRecorded e attempts signature request r tried after

  resolve_results-IsRecorded :
      (e : StoredEvent) (attempts : List StoredAttempt) (signature : String)
      (results : List (Result SettlementReconciliation)) (matched : Option Request)
      (s t : State World)
      → resolve_results w l n options e attempts signature results matched s ≡ (ok Outcome.paid, t)
      → (request : Request) × (r : SettlementReconciliation) × (matched ≡ some request)
        × IsRecorded e attempts signature request r s t
  unfolding resolve_results
  resolve_results-IsRecorded e attempts signature results none s t h =
      absurd (resolve_unmatched-not_paid e signature _ results _ s t h)
  resolve_results-IsRecorded e attempts signature results (some request) s t h =
      let (r, recorded) = resolve_matched-IsRecorded e attempts signature request s t h in
      (request, r, refl, recorded)

  resolve_created-IsRecorded :
      (e : StoredEvent) (attempts : List StoredAttempt) (signature : String) (top_level : Bool)
      (s t : State World)
      → resolve_created w l n options e attempts signature top_level s ≡ (ok Outcome.paid, t)
      → (top_level ≡ true) × Pays e attempts signature s t
  unfolding resolve_created
  resolve_created-IsRecorded e attempts signature false s t h =
      absurd (ground (arith, (writes->>-returned _ _ s t h).0))
  resolve_created-IsRecorded e attempts signature true s t h =
      let (results, u, p, h1) =
        >>=-returned
          (reconcile_each w l n options Provider.primary signature
            (candidates w l n options e attempts))
          _ s t h in
      let (request, r, first, recorded) =
        resolve_results-IsRecorded e attempts signature results _ u t h1 in
      (refl, (results, u, request, r, p, first, recorded))

  -- The event's creating transaction, a top-level one that the search found, pays it.
  abbrev pub PaysCreated : StoredEvent → List StoredAttempt → State World → State World → Type 0
  PaysCreated e attempts before after =
      (created : SettlementTransaction) × (searched : State World) × (find_created w l n options
          e.event_id before
        ≡ (ok created, searched))
      × (created.top_level ≡ true)
      × Pays e attempts created.signature searched after

  resolve_found-IsRecorded :
      (e : StoredEvent) (attempts : List StoredAttempt) (found : Result SettlementTransaction)
      (s t : State World)
      → resolve_found w l n options e attempts found s ≡ (ok Outcome.paid, t)
      → (created : SettlementTransaction) × (found ≡ ok created)
        × (created.top_level ≡ true)
        × Pays e attempts created.signature s t
  unfolding resolve_found
  resolve_found-IsRecorded e attempts (err x) s t h =
      absurd (ground (arith, (writes->>-returned _ _ s t h).0))
  resolve_found-IsRecorded e attempts (ok created) s t h =
      let (top, pays) =
        resolve_created-IsRecorded e attempts created.signature created.top_level s t h in
      (created, refl, top, pays)

  pub resolve_record-IsRecorded :
      (e : StoredEvent) (attempts : List StoredAttempt) (s t : State World)
      → resolve_record w l n options e attempts s ≡ (ok Outcome.paid, t)
      → PaysCreated e attempts s t
  unfolding resolve_record
  resolve_record-IsRecorded e attempts s t h =
      let (found, u, p, h1) =
        >>=-returned (caught (find_created w l n options e.event_id)) _ s t h in
      let (created, q, top, pays) = resolve_found-IsRecorded e attempts found u t h1 in
      (
        created,
        u,
        caught-ok (find_created w l n options e.event_id) s u
            (p ∙ ap (λ (x : Result SettlementTransaction). (ok x, u)) q),
        top,
        pays,
      )
