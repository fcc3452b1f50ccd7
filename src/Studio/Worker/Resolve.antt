-- ===== src/Studio/Worker/Resolve.antt =====
-- examples/studio-backend/src/worker.ts: deciding an event in flight from the chain.
use synxed_solana_protocol.Base.{
  ℕ, Bool, true, false, not, ◌||◌, Option, none, some, List, [], ◌∷◌, leb, if◌then◌else◌,
}
use synxed_solana_protocol.Base.Int.{pos}
use synxed_solana_protocol.Base.Text.{String, ◌===◌}
use synxed_solana_protocol.Base.Decimal.{show_ℤ}
use synxed_solana_protocol.Types.{Result, ok, err, or_throw, Exception, runtime}
use synxed_solana_protocol.Bytes.{Bytes}
use synxed_solana_protocol.Solana.{Solana}
use synxed_solana_protocol.Instruction.Encode.{event_id_seed}
use synxed_solana_protocol.Ledger.Evidence.{SettlementReconciliation}
use synxed_solana_protocol.Ledger.History.{SettlementTransaction}
use synxed_solana_protocol.Ledger.Reconcile.{given}
use synxed_solana_protocol.Ledger.Search.{find_settlement_transaction}
use synxed_solana_protocol.Client.Library.{Library}
use synxed_solana_protocol.Client.Accounts.{SettlementRecordAccount}
use synxed_solana_protocol.Studio.Store.{
  EventStatus, AttemptStatus, same_event_status, StoredEvent, StoredAttempt, Store, event,
  attempts_of,
}
use synxed_solana_protocol.Studio.Store.Write.{set_attempt_status, record_paid}
use synxed_solana_protocol.Studio.Worker.Action.{
  Action, returns, throws, lift, ◌>>=◌, ◌>>◌, caught, stored, writes, asks, asks_for, marks_event,
  marks_attempt,
}
use synxed_solana_protocol.Studio.Worker.Network.{
  Network, Provider, WorkerOptions, Outcome, SignatureStatus, Confirmation, finalized, confirmed,
  less,
}
use synxed_solana_protocol.Studio.Worker.Evidence.{
  Request, requests_of, distinct_requests, first_matched, all_mismatch, landed_attempt,
  current_params, fetch_record, reconcile, reconcile_each,
}
use Prim.Native.String.{◌++◌}

abbrev pub is_signed : AttemptStatus → Bool
is_signed AttemptStatus.signed = true
is_signed _ = false

abbrev pub max_attempts_of : Option ℕ → ℕ
max_attempts_of limit = given limit 5

-- The loop over `store.attempts` that marks what is signed as expired.
unfoldable pub expire_signed : List StoredAttempt → Store → Store
expire_signed [] store = store
expire_signed (a ∷ attempts) store =
    let expired =
      expire_signed attempts
        (set_attempt_status a.event_id a.attempt AttemptStatus.expired none store) in
    let rest = expire_signed attempts store in if is_signed a.status then expired else rest

-- `join("; ")`
abbrev pub join : List String → String
join [] = ""
join (text ∷ []) = text
join (text ∷ texts) = text ++ "; " ++ join texts

abbrev pub reasons : (Exception → String) → List (Result SettlementReconciliation) → List String
reasons error_text [] = []
reasons error_text (ok _ ∷ results) = reasons error_text results
reasons error_text (err e ∷ results) = error_text e ∷ reasons error_text results

abbrev pub joined : (Exception → String) → List (Result SettlementReconciliation) → String
joined error_text results = join (reasons error_text results)

module _ (w : Solana) (l : Library w.PublicKey) (n : Network w.PublicKey)
    (options : WorkerOptions w.PublicKey) where
  open w use {PublicKey, to_base58}
  open n use {World, history, signature_status, block_height, resend, error_text, request_key}

  -- A signed attempt that the cluster has seen: may it still land?
  unfoldable pub seen : StoredAttempt → Confirmation → Option String → Action World Bool
  seen a less error = returns true
  seen a confirmed none = returns false
  seen a confirmed (some error) = returns true
  seen a finalized none = returns false
  seen a finalized (some error) =
      marks_attempt a.event_id a.attempt AttemptStatus.failed (some error) >> returns false

  -- `height ??= await connection.getBlockHeight(…)`
  unfoldable pub known_height : Option ℕ → Action World ℕ
  known_height (some height) = returns height
  known_height none = asks_for block_height

  abbrev pub is_valid_at : ℕ → Option ℕ → Bool
  is_valid_at height none = false
  is_valid_at height (some last) = leb height last

  -- One that it has not: resent while its blockhash is valid.
  unfoldable pub unseen : Option String → Bool → Action World Bool
  unseen (some raw) true = asks (resend raw) >> returns true
  unseen _ _ = returns false

  -- What `#mayStillLand` does with a signed attempt; the height that is known comes back.
  unfoldable pub signed_may_land :
      StoredAttempt → Option ℕ → Option SignatureStatus → Action World (Bool × Option ℕ)
  signed_may_land a height (some known) =
      seen a known.confirmation known.error >>= λ may. returns (may, height)
  signed_may_land a height none = known_height height >>= λ now.
      unseen a.raw_transaction (is_valid_at now a.last_valid_block_height) >>= λ may.
      returns (may, some now)

  -- And with any attempt of a status and a signature.
  unfoldable pub attempt_may_land :
      StoredAttempt → Option ℕ → AttemptStatus → Option String → Action World (Bool × Option ℕ)
  attempt_may_land a height AttemptStatus.prepared signature =
      marks_attempt a.event_id a.attempt AttemptStatus.failed (some "never signed")
      >> returns (false, height)
  attempt_may_land a height AttemptStatus.signed none = returns (false, height)
  attempt_may_land a height AttemptStatus.signed (some signature) =
      asks_for (signature_status signature) >>= signed_may_land a height
  attempt_may_land a height AttemptStatus.failed signature = returns (false, height)
  attempt_may_land a height AttemptStatus.expired signature = returns (false, height)
  attempt_may_land a height AttemptStatus.landed signature = returns (false, height)

  unfoldable pub may_still_land : List StoredAttempt → Bool → Option ℕ → Action World Bool
  may_still_land [] waiting height = returns waiting
  may_still_land (a ∷ attempts) waiting height =
      attempt_may_land a height a.status a.signature >>= λ answer.
      may_still_land attempts (waiting || answer.0) answer.1

  abbrev pub is_elsewhere : StoredAttempt → Bool
  is_elsewhere a =
      not (a.params.program_id === to_base58 options.program_id)
      || not (a.params.namespace === to_base58 options.namespace)

  unfoldable pub find_elsewhere : List StoredAttempt → Option StoredAttempt
  find_elsewhere [] = none
  find_elsewhere (a ∷ attempts) = if is_elsewhere a then some a else find_elsewhere attempts

  -- An event that stays in flight, with a note.
  abbrev pub stays : {A : Type 0} → String → String → A → Action World A
  stays id note a = marks_event id EventStatus.in_flight note >> returns a

  unfoldable pub absent_as :
      String → Result (Option (SettlementRecordAccount PublicKey)) → Action World Bool
  absent_as id (err e) = stays id ("record read failed: " ++ error_text e) false
  absent_as id (ok (some _)) = stays id "the providers disagree on the record" false
  absent_as id (ok none) = returns true

  -- Whether a second provider, where there is one, has no record either; if not, the event is
  -- marked in flight.
  unfoldable pub absent_on_second : Bool → String → Bytes → Action World Bool
  absent_on_second true id seed =
      caught (fetch_record w l n options Provider.second seed) >>= absent_as id
  absent_on_second false id seed = returns true

  -- Nothing can land any more: the event is pending again, unless its attempts are used up.
  unfoldable pub retry : StoredEvent → Bool → Action World Outcome
  retry e true =
      marks_event e.event_id EventStatus.needs_attention
        (show_ℤ (pos e.attempts) ++ " attempts did not land")
      >> returns Outcome.needs_attention
  retry e false =
      marks_event e.event_id EventStatus.pending "no attempt landed" >> returns Outcome.retry

  unfoldable pub resolve_absent : StoredEvent → Bool → Action World Outcome
  resolve_absent e false = returns Outcome.unresolved
  resolve_absent e true =
      writes (λ store. expire_signed (attempts_of e.event_id store.attempt_rows) store)
      >> retry e (leb (max_attempts_of options.max_attempts) e.attempts)

  -- `findSettlementTransaction` over the primary's answers; its search ends for every history.
  unfoldable pub find_created : String → Action World SettlementTransaction
  find_created id = do
    connection ← asks history
    found ← lift (
        or_throw
          (find_settlement_transaction w connection options.program_id options.namespace id none)
          runtime)
    lift found

  unfoldable pub fails_to_match : Result SettlementReconciliation → Action World Bool
  fails_to_match (ok _) = returns false
  fails_to_match (err _) = returns true

  -- `second !== undefined && !(await this.#reconcile(second, …)).ok`
  unfoldable pub second_disagrees : Bool → String → Request → Action World Bool
  second_disagrees true signature request =
      reconcile w l n options Provider.second signature request none >>= fails_to_match
  second_disagrees false signature request = returns false

  unfoldable pub resolve_rows :
      StoredEvent
      → List StoredAttempt
      → String
      → Result SettlementReconciliation
      → Action World Outcome
  resolve_rows e attempts signature (err x) = stays e.event_id (error_text x) Outcome.unresolved
  resolve_rows e attempts signature (ok reconciliation) =
      writes (
        record_paid e.event_id (landed_attempt signature attempts) reconciliation.settlement
          reconciliation.direct_entries reconciliation.pool_payouts)
      >> returns Outcome.paid

  unfoldable pub resolve_agreed :
      StoredEvent → List StoredAttempt → String → Request → Bool → Action World Outcome
  resolve_agreed e attempts signature request true =
      stays e.event_id "the providers disagree on the creating transaction" Outcome.unresolved
  resolve_agreed e attempts signature request false =
      reconcile w l n options Provider.primary signature request (some e.beneficiary_ids)
      >>= resolve_rows e attempts signature

  -- A stored request matched on the primary.
  unfoldable pub resolve_matched :
      StoredEvent → List StoredAttempt → String → Request → Action World Outcome
  resolve_matched e attempts signature request =
      second_disagrees options.has_second signature request
      >>= resolve_agreed e attempts signature request

  -- Does a second provider, where there is one, say too that the transaction contradicts every
  -- request?
  unfoldable pub second_confirms : Bool → String → List Request → Action World Bool
  second_confirms true signature requests =
      reconcile_each w l n options Provider.second signature requests >>= λ results.
      returns (all_mismatch results)
  second_confirms false signature requests = returns true

  unfoldable pub resolve_mismatch :
      StoredEvent → String → List (Result SettlementReconciliation) → Bool → Action World Outcome
  resolve_mismatch e signature results true =
      marks_event e.event_id EventStatus.incident (signature ++ " matches no stored request")
      >> returns Outcome.incident
  resolve_mismatch e signature results false =
      stays e.event_id (joined error_text results) Outcome.unresolved

  -- No stored request matched on the primary; do all results there contradict theirs?
  unfoldable pub resolve_unmatched :
      StoredEvent
      → String
      → List Request
      → List (Result SettlementReconciliation)
      → Bool
      → Action World Outcome
  resolve_unmatched e signature requests results true =
      second_confirms options.has_second signature requests >>= resolve_mismatch e signature results
  resolve_unmatched e signature requests results false =
      stays e.event_id (joined error_text results) Outcome.unresolved

  -- The requests that the transaction is compared with.
  abbrev pub candidates : StoredEvent → List StoredAttempt → List Request
  candidates e [] =
      distinct_requests (λ (r : Request). request_key r.0 r.1) []
        ((e.request, current_params w l n options) ∷ [])
  candidates e (a ∷ attempts) =
      distinct_requests (λ (r : Request). request_key r.0 r.1) [] (requests_of (a ∷ attempts))

  unfoldable pub resolve_results :
      StoredEvent
      → List StoredAttempt
      → String
      → List (Result SettlementReconciliation)
      → Option Request
      → Action World Outcome
  resolve_results e attempts signature results (some request) =
      resolve_matched e attempts signature request
  resolve_results e attempts signature results none =
      resolve_unmatched e signature (candidates e attempts) results (all_mismatch results)

  unfoldable pub resolve_created :
      StoredEvent → List StoredAttempt → String → Bool → Action World Outcome
  resolve_created e attempts signature true =
      reconcile_each w l n options Provider.primary signature (candidates e attempts) >>= λ results.
      resolve_results e attempts signature results (first_matched (candidates e attempts) results)
  resolve_created e attempts signature false =
      stays e.event_id (signature ++ " settled through another program; compare it by hand")
        Outcome.unresolved

  unfoldable pub resolve_found :
      StoredEvent → List StoredAttempt → Result SettlementTransaction → Action World Outcome
  resolve_found e attempts (err x) =
      stays e.event_id ("creating transaction not found: " ++ error_text x) Outcome.unresolved
  resolve_found e attempts (ok created) =
      resolve_created e attempts created.signature created.top_level

  unfoldable pub resolve_record : StoredEvent → List StoredAttempt → Action World Outcome
  resolve_record e attempts = caught (find_created e.event_id) >>= resolve_found e attempts

  -- What the primary's record says.
  unfoldable pub resolve_read :
      StoredEvent
      → Bytes
      → Result (Option (SettlementRecordAccount PublicKey))
      → Action World Outcome
  resolve_read e seed (err x) =
      stays e.event_id ("record read failed: " ++ error_text x) Outcome.unresolved
  resolve_read e seed (ok none) =
      absent_on_second options.has_second e.event_id seed >>= resolve_absent e
  resolve_read e seed (ok (some _)) =
      stored >>= λ store. resolve_record e (attempts_of e.event_id store.attempt_rows)

  -- The settlement record decides, once no attempt may land.
  unfoldable pub resolve_landed : StoredEvent → Result Bool → Action World Outcome
  resolve_landed e (err x) =
      stays e.event_id ("cannot read the attempts: " ++ error_text x) Outcome.unresolved
  resolve_landed e (ok true) = returns Outcome.waiting
  resolve_landed e (ok false) = lift (event_id_seed w e.event_id) >>= λ seed.
      caught (fetch_record w l n options Provider.primary seed) >>= resolve_read e seed

  unfoldable pub resolve_attempts :
      StoredEvent → List StoredAttempt → Option StoredAttempt → Action World Outcome
  resolve_attempts e attempts (some elsewhere) =
      marks_event e.event_id EventStatus.needs_attention
        ("attempt " ++ show_ℤ (pos elsewhere.attempt) ++ " was made in another namespace")
      >> returns Outcome.needs_attention
  resolve_attempts e attempts none =
      caught (may_still_land attempts false none) >>= resolve_landed e

  -- Is the event in flight?
  unfoldable pub resolve_in_flight : StoredEvent → List StoredAttempt → Bool → Action World Outcome
  resolve_in_flight e attempts true = resolve_attempts e attempts (find_elsewhere attempts)
  resolve_in_flight e attempts false = throws runtime

  unfoldable pub resolve_event : Option StoredEvent → Store → Action World Outcome
  resolve_event none store = throws runtime
  resolve_event (some e) store =
      resolve_in_flight e (attempts_of e.event_id store.attempt_rows)
        (same_event_status e.status EventStatus.in_flight)

  unfoldable pub resolve : String → Action World Outcome
  resolve id = stored >>= λ store. resolve_event (event id store) store

  unfoldable pub recheck_as : String → Option EventStatus → Action World Outcome
  recheck_as id none = throws runtime
  recheck_as id (some EventStatus.paid) = returns Outcome.paid
  recheck_as id (some EventStatus.in_flight) = resolve id
  recheck_as id (some _) = stays id "manual recheck" tt >> resolve id

  abbrev pub status_of : Option StoredEvent → Option EventStatus
  status_of none = none
  status_of (some e) = some e.status

  unfoldable pub recheck : String → Action World Outcome
  recheck id = stored >>= λ store. recheck_as id (status_of (event id store))
