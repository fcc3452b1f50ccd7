-- ===== src/Studio/Worker/SettleClear.antt =====
-- Settling keeps an event clear: no second attempt can begin while an earlier one may land.
use synxed_solana_protocol.Base.{
  ℕ, zero, suc, ◌≡◌, ◌+◌, refl, sym, inl, inr, Bool, true, false, ◌&&◌, ==_iff, Option, none, some,
  List, [], ◌∷◌, ◌++◌, arith, Bool-cases,
}
use synxed_solana_protocol.Base.Text.{String, ◌===◌}
use synxed_solana_protocol.Types.{Result, ok, err, Exception, SettlementRequestN}
use synxed_solana_protocol.Bytes.{Bytes}
use synxed_solana_protocol.Solana.{Solana}
use synxed_solana_protocol.Client.Library.{Library}
use synxed_solana_protocol.Client.Accounts.{SettlementRecordAccount}
use synxed_solana_protocol.Client.Prepare.{Prepared}
use synxed_solana_protocol.Studio.Store.{
  EventStatus, AttemptStatus, AttemptParams, is_prepared, StoredEvent, StoredAttempt, Store,
  is_attempt, any_attempt, update_event, update_attempts, with_attempt,
}
use synxed_solana_protocol.Studio.Store.Write.{
  begin_attempt, record_signed, with_tables, set_event_status, set_attempt_status, prepared_attempt,
  with_signature,
}
use synxed_solana_protocol.Studio.Store.Rows.{===_refl}
use synxed_solana_protocol.Studio.Store.Steps.{begin_attempt_inv}
use synxed_solana_protocol.Studio.Worker.Action.{Action, State}
use synxed_solana_protocol.Studio.Worker.Network.{
  Network, Provider, WorkerOptions, Outcome, Sent, accepted, refused, unknown,
}
use synxed_solana_protocol.Studio.Worker.Evidence.{current_params}
use synxed_solana_protocol.Studio.Worker.Settle.{
  awaited, resolve_again, await_outcome, refuse, refused_read, settle_sent, gives_up, settle_signed,
  settle_built, begun_as, begins, settle_at, settle_if, settle,
}
use synxed_solana_protocol.Studio.Worker.Triple.{
  After, Triple, >>=-Triple, caught-kept, asks_for-Triple, asks-Triple, lift-Triple, returns-Triple,
  writes-Triple, weaken, Triple-after,
}
use synxed_solana_protocol.Studio.Worker.Closing.{IsCoveredBy, IsCoveredBy-close}
use synxed_solana_protocol.Studio.Worker.Clear.{
  can_land, none_pending, IsClear, IsClosed, IsNotPending, set_event_status-IsNotPending,
}
use synxed_solana_protocol.Studio.Worker.ResolveClear.{
  fetch_record-kept, absent_on_second-kept, stays-IsClear,
}
use synxed_solana_protocol.Studio.Worker.RecordClear.{resolve-Triple}
use mathlib.Core.Path.{subst}

-- The one attempt of the event that can land has this number.
abbrev the_attempt : String → ℕ → SettlementRequestN → AttemptParams → List StoredAttempt
the_attempt id attempt request params = prepared_attempt id attempt request params ∷ []

-- The event is not pending, and no attempt but the one can land.
abbrev IsOne : String → List StoredAttempt → Store → Type 0
IsOne id one s = IsNotPending id s × IsCoveredBy can_land id one s.attempt_rows

-- Not pending, and no attempt can land.
abbrev IsQuiet : String → Store → Type 0
IsQuiet id s = IsNotPending id s × IsClosed id s

none_pending-with_attempt :
    (id : String) (attempt : ℕ) (events : List StoredEvent)
    → none_pending id (update_event id (with_attempt attempt) events) ≡ true
unfolding none_pending update_event
none_pending-with_attempt id attempt [] = refl
none_pending-with_attempt id attempt (e ∷ events) =
    let rest = none_pending-with_attempt id attempt events in
    elim (Bool-cases (e.event_id === id)) [
      | inl p ↦ rw p (ground arith)
      | inr p ↦ rw p (ground arith)
    ]

IsCoveredBy-append :
    (id : String) (x : StoredAttempt) (rows : List StoredAttempt)
    → can_land x.status ≡ true
    → IsCoveredBy can_land id [] rows
    → IsCoveredBy can_land id (x ∷ []) (rows ++ (x ∷ []))
unfolding any_attempt
IsCoveredBy-append id x [] q h =
    (ground (arith, ===_refl x.event_id, (==_iff x.attempt x.attempt).1 refl), tt)
IsCoveredBy-append id x (a ∷ rows) q (h, hs) = (ground arith, IsCoveredBy-append id x rows q hs)

begin_attempt-IsOne :
    (id : String) (request : SettlementRequestN) (params : AttemptParams) (s t : Store) (n : ℕ)
    → IsClosed id s
    → begin_attempt id request params s ≡ ok (t, n)
    → IsOne id (the_attempt id n request params) t
begin_attempt-IsOne id request params s t n closed h =
    let (e, q, p, same, count) = begin_attempt_inv id request params s t n h in
    let one : IsOne id (the_attempt id (e.attempts + 1) request params) (
        with_tables (update_event id (with_attempt (e.attempts + 1)) s.events)
          (s.attempt_rows ++ (prepared_attempt id (e.attempts + 1) request params ∷ [])) s) =
      (
        none_pending-with_attempt id (e.attempts + 1) s.events,
        IsCoveredBy-append id (prepared_attempt id (e.attempts + 1) request params) s.attempt_rows
            refl closed,
      ) in
    subst (λ (x : Store). IsOne id (the_attempt id n request params) x) (sym same)
      (subst
        (λ (k : ℕ). IsOne id (the_attempt id k request params) (
          with_tables (update_event id (with_attempt (e.attempts + 1)) s.events)
            (s.attempt_rows ++ (prepared_attempt id (e.attempts + 1) request params ∷ [])) s))
        (sym count) one)

with_signature-IsCoveredBy :
    (id : String) (n : ℕ) (request : SettlementRequestN) (params : AttemptParams)
    (signature raw : String) (height : ℕ) (rows : List StoredAttempt)
    → IsCoveredBy can_land id (the_attempt id n request params) rows
    → IsCoveredBy can_land id (the_attempt id n request params) (
        update_attempts
          (λ a. is_attempt id n a && is_prepared a.status)
          (with_signature signature raw height)
          rows)
unfolding update_attempts any_attempt
with_signature-IsCoveredBy id n request params signature raw height [] k = tt
with_signature-IsCoveredBy id n request params signature raw height (a ∷ rows) (k, ks) =
    let rest = with_signature-IsCoveredBy id n request params signature raw height rows ks in
    elim (Bool-cases (is_attempt id n a && is_prepared a.status)) [
      | inl q ↦ rw q (ground arith, rest)
      | inr q ↦ rw q (k, rest)
    ]

record_signed-IsOne :
    (id : String) (n : ℕ) (request : SettlementRequestN) (params : AttemptParams)
    (signature raw : String) (height : ℕ) (s : Store)
    → IsOne id (the_attempt id n request params) s
    → IsOne id (the_attempt id n request params) (record_signed id n signature raw height s)
unfolding record_signed
record_signed-IsOne id n request params signature raw height s (h, k) =
    (h, with_signature-IsCoveredBy id n request params signature raw height s.attempt_rows k)

-- Once the one attempt has failed, none can land.
IsOne-failed :
    (id : String) (n : ℕ) (request : SettlementRequestN) (params : AttemptParams)
    (error : Option String) (s : Store)
    → IsOne id (the_attempt id n request params) s
    → IsQuiet id (set_attempt_status id n AttemptStatus.failed error s)
unfolding set_attempt_status
IsOne-failed id n request params error s (h, k) = (
  h,
  IsCoveredBy-close can_land id (prepared_attempt id n request params) [] s.attempt_rows
      AttemptStatus.failed error refl k,
)

IsQuiet-marked :
    (id : String) (status : EventStatus) (why : Option String) (s : Store)
    → IsClosed id s
    → IsClear id (set_event_status id status why s)
unfolding set_event_status
IsQuiet-marked id status why s h = inr h

IsQuiet-in_flight :
    (id : String) (why : Option String) (s : Store)
    → IsQuiet id s
    → IsQuiet id (set_event_status id EventStatus.in_flight why s)
unfolding set_event_status
IsQuiet-in_flight id why s (h, k) =
    (set_event_status-IsNotPending id EventStatus.in_flight why s refl, k)

module _ (w : Solana) (l : Library w.PublicKey) (n : Network w.PublicKey)
    (options : WorkerOptions w.PublicKey) where
  open w use {PublicKey}
  open n use {World}

  awaited-IsClear :
      (id : String) (again : Action World Outcome) (outcome : Outcome)
      → Triple (IsClear id) again (λ _. IsClear id) (IsClear id)
      → Triple (IsClear id) (awaited w l n options again outcome) (λ _. IsClear id) (IsClear id)
  unfolding awaited
  awaited-IsClear id again Outcome.waiting h = h
  awaited-IsClear id again Outcome.paid h = returns-Triple (λ s p. p)
  awaited-IsClear id again Outcome.retry h = returns-Triple (λ s p. p)
  awaited-IsClear id again Outcome.failed h = returns-Triple (λ s p. p)
  awaited-IsClear id again Outcome.incident h = returns-Triple (λ s p. p)
  awaited-IsClear id again Outcome.unresolved h = returns-Triple (λ s p. p)
  awaited-IsClear id again Outcome.needs_attention h = returns-Triple (λ s p. p)

  resolve_again-IsClear :
      (id : String) (more : ℕ)
      → Triple (IsClear id) (resolve_again w l n options id more) (λ _. IsClear id) (IsClear id)
  unfolding resolve_again
  resolve_again-IsClear id zero = resolve-Triple w l n options id
  resolve_again-IsClear id (suc more) =
      >>=-Triple (resolve-Triple w l n options id)
        (λ outcome. awaited-IsClear id _ outcome (resolve_again-IsClear id more))

  await_outcome-IsClear :
      (id : String)
      → Triple (IsClear id) (await_outcome w l n options id) (λ _. IsClear id) (IsClear id)
  unfolding await_outcome
  await_outcome-IsClear id = >>=-Triple (asks-Triple _) (resolve_again-IsClear id)

  module _ (e : StoredEvent) where
    abbrev Clears : Action World Outcome → (Store → Type 0) → Type 0
    Clears m P = Triple P m (λ _. IsClear e.event_id) (IsClear e.event_id)

    refuse-IsClear :
        (reason : String) (absent : Bool)
        → Clears (refuse w l n options e reason absent) (IsQuiet e.event_id)
    unfolding refuse
    refuse-IsClear reason true =
        writes-Triple _ (λ s h. IsQuiet-marked e.event_id _ _ s h.1) (returns-Triple (λ s h. h))
    refuse-IsClear reason false = returns-Triple (λ s h. inl h.0)

    refused_read-IsClear :
        (reason : String) (seed : Bytes)
        (read : Result (Option (SettlementRecordAccount PublicKey)))
        → Clears (refused_read w l n options e reason seed read) (IsQuiet e.event_id)
    unfolding refused_read
    refused_read-IsClear reason seed (err x) = stays-IsClear w l n options e.event_id _ _
    refused_read-IsClear reason seed (ok (some _)) =
        weaken (λ s h. inl h.0) (await_outcome-IsClear e.event_id)
    refused_read-IsClear reason seed (ok none) =
        >>=-Triple
          (absent_on_second-kept w l n options e.event_id (IsQuiet e.event_id) _ options.has_second
            seed (IsQuiet-in_flight e.event_id))
          (refuse-IsClear reason)

    -- The attempt that was begun is the one that can land.
    abbrev One : ℕ → Store → Type 0
    One attempt =
        IsOne e.event_id (the_attempt e.event_id attempt e.request (current_params w l n options))

    settle_sent-IsClear :
        (attempt : ℕ) (sent : Sent)
        → Clears (settle_sent w l n options e attempt sent) (One attempt)
    unfolding settle_sent
    settle_sent-IsClear attempt accepted =
        weaken (λ s h. inl h.0) (await_outcome-IsClear e.event_id)
    settle_sent-IsClear attempt (unknown x) =
        weaken (λ s h. inl h.0) (await_outcome-IsClear e.event_id)
    settle_sent-IsClear attempt (refused reason) =
        writes-Triple _ (IsOne-failed e.event_id attempt e.request _ (some reason)) (
          >>=-Triple (lift-Triple (λ s h. inl h.0)) (λ seed.
            >>=-Triple
              (caught-kept (
                fetch_record-kept w l n options e.event_id (IsQuiet e.event_id) Provider.primary
                  seed))
              (refused_read-IsClear reason seed)))

    gives_up-IsClear :
        (attempt : ℕ) (what : String) (x : Exception)
        → Clears (gives_up w l n options e attempt what x) (One attempt)
    unfolding gives_up
    gives_up-IsClear attempt what x =
        writes-Triple {Q = IsQuiet e.event_id} _ (IsOne-failed e.event_id attempt e.request _ _)
          (writes-Triple _ (λ s h. IsQuiet-marked e.event_id _ _ s h.1) (returns-Triple (λ s h. h)))

    settle_signed-IsClear :
        (attempt height : ℕ) (signed : Result (String × String))
        → Clears (settle_signed w l n options e attempt height signed) (One attempt)
    unfolding settle_signed
    settle_signed-IsClear attempt height (err x) = gives_up-IsClear attempt _ x
    settle_signed-IsClear attempt height (ok (signature, raw)) =
        writes-Triple _ (record_signed-IsOne e.event_id attempt e.request _ signature raw height) (
          >>=-Triple (asks_for-Triple _ (λ s h. inl h.0))
            (λ _. >>=-Triple (asks-Triple _) (settle_sent-IsClear attempt)))

    settle_built-IsClear :
        (latest : String × ℕ) (attempt : ℕ) (built : Result (Prepared PublicKey))
        → Clears (settle_built w l n options e latest attempt built) (One attempt)
    unfolding settle_built
    settle_built-IsClear latest attempt (err x) = gives_up-IsClear attempt _ x
    settle_built-IsClear latest attempt (ok prepared) = settle_signed-IsClear attempt latest.1 _

    begun_as-After :
        (world : World) (s : Store) (begun : Result (Store × ℕ))
        → begin_attempt e.event_id e.request (current_params w l n options) s ≡ begun
        → IsClosed e.event_id s
        → After One
            (IsClear e.event_id)
            (begun_as w l n options world s begun).0
            (begun_as w l n options world s begun).1.store
    begun_as-After world s (err x) q h = inr h
    begun_as-After world s (ok (t, attempt)) q h =
        begin_attempt-IsOne e.event_id e.request _ s t attempt h q

    begins-IsOne : Triple (IsClosed e.event_id) (begins w l n options e) One (IsClear e.event_id)
    unfolding begins
    begins-IsOne = record { holds = λ s h. begun_as-After s.world s.store _ refl h }

    settle_at-IsClear :
        (latest : Result (String × ℕ))
        → Clears (settle_at w l n options e latest) (IsClosed e.event_id)
    unfolding settle_at
    settle_at-IsClear (err x) =
        writes-Triple _ (IsQuiet-marked e.event_id _ _) (returns-Triple (λ s h. h))
    settle_at-IsClear (ok latest) =
        >>=-Triple begins-IsOne (λ attempt. settle_built-IsClear latest attempt _)

    settle_if-IsClear :
        (used_up : Bool) → Clears (settle_if w l n options e used_up) (IsClosed e.event_id)
    unfolding settle_if
    settle_if-IsClear true =
        writes-Triple _ (IsQuiet-marked e.event_id _ _) (returns-Triple (λ s h. h))
    settle_if-IsClear false =
        >>=-Triple (caught-kept (asks_for-Triple _ (λ s h. h))) settle_at-IsClear

    settle-Triple : Clears (settle w l n options e) (IsClosed e.event_id)
    unfolding settle
    settle-Triple = settle_if-IsClear _

  -- Settling an event of which no attempt is prepared or signed leaves it not pending, or with no
  -- attempt that is, whether it returns or throws and whatever the connections answer.
  pub settle-IsClear :
      (e : StoredEvent) (s : State World)
      → IsClosed e.event_id s.store
      → IsClear e.event_id (settle w l n options e s).1.store
  settle-IsClear e s h = Triple-after (settle-Triple e) s h
