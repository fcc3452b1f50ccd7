-- ===== src/Studio/Worker/Settle.antt =====
-- examples/studio-backend/src/worker.ts: one attempt for a pending event, and a run over all events.
use synxed_solana_protocol.Base.{
  ℕ, zero, suc, Bool, true, false, Option, none, some, List, [], ◌∷◌, leb,
}
use synxed_solana_protocol.Base.Int.{pos}
use synxed_solana_protocol.Base.Text.{String}
use synxed_solana_protocol.Base.Decimal.{show_ℤ}
use synxed_solana_protocol.Types.{Result, ok, err, Exception}
use synxed_solana_protocol.Solana.{Solana}
use synxed_solana_protocol.Instruction.Encode.{event_id_seed}
use synxed_solana_protocol.Bytes.{Bytes}
use synxed_solana_protocol.Client.Accounts.{SettlementRecordAccount}
use synxed_solana_protocol.Client.Library.{Library}
use synxed_solana_protocol.Client.Prepare.{Prepared}
use synxed_solana_protocol.Studio.Store.{
  EventStatus, AttemptStatus, StoredEvent, Store, event, events_with_status,
}
use synxed_solana_protocol.Studio.Store.Write.{begin_attempt, record_signed}
use synxed_solana_protocol.Studio.Worker.Action.{
  Action, State, returns, lift, ◌>>=◌, ◌>>◌, caught, stored, writes, asks, asks_for, marks_event,
  marks_attempt,
}
use synxed_solana_protocol.Studio.Worker.Network.{
  Network, Provider, WorkerOptions, Outcome, Sent, accepted, refused, unknown,
}
use synxed_solana_protocol.Studio.Worker.Evidence.{current_params, build, fetch_record}
use synxed_solana_protocol.Studio.Worker.Resolve.{
  max_attempts_of, absent_on_second, stays, status_of, resolve,
}
use Prim.Native.String.{◌++◌}

module _ (w : Solana) (l : Library w.PublicKey) (n : Network w.PublicKey)
    (options : WorkerOptions w.PublicKey) where
  open w use {PublicKey}
  open n use {World, latest_blockhash, send, before_send, rounds, sign, error_text}

  unfoldable pub awaited : Action World Outcome → Outcome → Action World Outcome
  awaited again Outcome.waiting = again
  awaited again outcome = returns outcome

  -- `#awaitOutcome`: resolved once, and again while it waits and the clock allows.
  unfoldable pub resolve_again : String → ℕ → Action World Outcome
  resolve_again id zero = resolve w l n options id
  resolve_again id (suc more) = resolve w l n options id >>= awaited (resolve_again id more)

  unfoldable pub await_outcome : String → Action World Outcome
  await_outcome id = asks rounds >>= resolve_again id

  unfoldable pub refuse : StoredEvent → String → Bool → Action World Outcome
  refuse e reason true = marks_event e.event_id EventStatus.pending reason >> returns Outcome.failed
  refuse e reason false = returns Outcome.unresolved

  unfoldable pub refused_read :
      StoredEvent
      → String
      → Bytes
      → Result (Option (SettlementRecordAccount PublicKey))
      → Action World Outcome
  refused_read e reason seed (err x) =
      stays w l n options e.event_id ("record read failed: " ++ error_text x) Outcome.unresolved
  refused_read e reason seed (ok (some _)) = await_outcome e.event_id
  refused_read e reason seed (ok none) =
      absent_on_second w l n options options.has_second e.event_id seed >>= refuse e reason

  -- What came of sending: where the node's simulation refused it, the record decides.
  unfoldable pub settle_sent : StoredEvent → ℕ → Sent → Action World Outcome
  settle_sent e attempt accepted = await_outcome e.event_id
  settle_sent e attempt (unknown _) = await_outcome e.event_id
  settle_sent e attempt (refused reason) =
      marks_attempt e.event_id attempt AttemptStatus.failed (some reason)
      >> (lift (event_id_seed w e.event_id) >>= λ seed.
          caught (fetch_record w l n options Provider.primary seed) >>= refused_read e reason seed)

  -- The attempt cannot be made.
  unfoldable pub gives_up : StoredEvent → ℕ → String → Exception → Action World Outcome
  gives_up e attempt what x =
      marks_attempt e.event_id attempt AttemptStatus.failed (some (error_text x))
      >> (marks_event e.event_id EventStatus.needs_attention (what ++ error_text x)
          >> returns Outcome.needs_attention)

  -- Once signed, the signature is stored before the transaction is sent.
  unfoldable pub settle_signed :
      StoredEvent → ℕ → ℕ → Result (String × String) → Action World Outcome
  settle_signed e attempt height (err x) = gives_up e attempt "cannot sign the settlement: " x
  settle_signed e attempt height (ok (signature, raw)) =
      writes (record_signed e.event_id attempt signature raw height)
      >> (asks_for (before_send e.event_id signature)
          >> (asks (send raw) >>= settle_sent e attempt))

  unfoldable pub settle_built :
      StoredEvent → String × ℕ → ℕ → Result (Prepared PublicKey) → Action World Outcome
  settle_built e latest attempt (err x) = gives_up e attempt "cannot build the settlement: " x
  settle_built e latest attempt (ok prepared) =
      settle_signed e attempt latest.1 (sign prepared.instructions latest.0)

  abbrev pub begun_as : World → Store → Result (Store × ℕ) → Result ℕ × State World
  begun_as world store (err x) = (err x, record { store = store; world = world })
  begun_as world store (ok (next, attempt)) = (ok attempt, record { store = next; world = world })

  -- `store.beginAttempt` with the worker's parameters.
  unfoldable pub begins : StoredEvent → Action World ℕ
  begins e s =
      begun_as s.world s.store
        (begin_attempt e.event_id e.request (current_params w l n options) s.store)

  unfoldable pub settle_at : StoredEvent → Result (String × ℕ) → Action World Outcome
  settle_at e (err x) =
      marks_event e.event_id EventStatus.pending ("could not read a blockhash: " ++ error_text x)
      >> returns Outcome.retry
  settle_at e (ok latest) =
      begins e >>= λ attempt. settle_built e latest attempt (build w l n options e.request)

  -- Are the event's attempts used up?
  unfoldable pub settle_if : StoredEvent → Bool → Action World Outcome
  settle_if e true =
      marks_event e.event_id EventStatus.needs_attention
        (show_ℤ (pos e.attempts) ++ " attempts failed")
      >> returns Outcome.needs_attention
  settle_if e false = caught (asks_for latest_blockhash) >>= settle_at e

  unfoldable pub settle : StoredEvent → Action World Outcome
  settle e = settle_if e (leb (max_attempts_of options.max_attempts) e.attempts)

  -- After a throw the stored decision is kept, and an event in flight gets the note.
  unfoldable pub contain_as : String → String → Option EventStatus → Action World Outcome
  contain_as id note none = returns Outcome.unresolved
  contain_as id note (some EventStatus.in_flight) = stays w l n options id note Outcome.unresolved
  contain_as id note (some EventStatus.pending) = returns Outcome.retry
  contain_as id note (some EventStatus.paid) = returns Outcome.paid
  contain_as id note (some EventStatus.incident) = returns Outcome.incident
  contain_as id note (some EventStatus.needs_attention) = returns Outcome.needs_attention

  unfoldable pub contain : String → String → Action World Outcome
  contain id note =
      stored >>= λ store. contain_as id note (status_of w l n options (event id store))

  unfoldable pub kept_or_contained : String → String → Result Outcome → Action World Outcome
  kept_or_contained id what (ok outcome) = returns outcome
  kept_or_contained id what (err x) = contain id (what ++ error_text x)

  -- One event of a batch, whose throw is contained.
  unfoldable pub guarded : String → String → Action World Outcome → Action World Outcome
  guarded id what step = caught step >>= kept_or_contained id what

  unfoldable pub resolve_all : List StoredEvent → Action World (List (String × Outcome))
  resolve_all [] = returns []
  resolve_all (e ∷ events) = do
    outcome ← guarded e.event_id "resolve failed: " (resolve w l n options e.event_id)
    outcomes ← resolve_all events
    returns ((e.event_id, outcome) ∷ outcomes)

  unfoldable pub settle_all : List StoredEvent → Action World (List (String × Outcome))
  settle_all [] = returns []
  settle_all (e ∷ events) = do
    outcome ← guarded e.event_id "settle failed: " (settle e)
    outcomes ← settle_all events
    returns ((e.event_id, outcome) ∷ outcomes)

  -- What was resolved, and what was settled of at most `limit` pending events.
  unfoldable pub run : ℕ → Action World (List (String × Outcome) × List (String × Outcome))
  run limit = do
    before ← stored
    resolved ← resolve_all (events_with_status EventStatus.in_flight none before)
    after ← stored
    settled ← settle_all (events_with_status EventStatus.pending (some limit) after)
    returns (resolved, settled)
