-- ===== src/Studio/Worker/ResolveClear.antt =====
-- Resolving keeps an event clear: it is made pending again only when no attempt of it may land.
use synxed_solana_protocol.Base.{
  ℕ, ◌≡◌, refl, ap, inl, Bool, true, false, ◌||◌, Option, none, some, List, [], ◌∷◌,
}
use synxed_solana_protocol.Base.Text.{String}
use synxed_solana_protocol.Types.{Result, ok, err}
use synxed_solana_protocol.Bytes.{Bytes}
use synxed_solana_protocol.Solana.{Solana}
use synxed_solana_protocol.Client.Library.{Library}
use synxed_solana_protocol.Client.Accounts.{SettlementRecordAccount}
use synxed_solana_protocol.Studio.Store.{
  EventStatus, AttemptStatus, same_event_status, is_prepared, StoredAttempt, Store, is_attempt,
}
use synxed_solana_protocol.Studio.Store.Write.{set_event_status, set_attempt_status}
use synxed_solana_protocol.Studio.Worker.Network.{
  Network, Provider, WorkerOptions, SignatureStatus, Confirmation, finalized, confirmed, less,
}
use synxed_solana_protocol.Studio.Worker.Evidence.{Request, fetch_record, reconcile, reconcile_each}
use synxed_solana_protocol.Studio.Worker.Resolve.{
  seen, known_height, unseen, signed_may_land, attempt_may_land, may_still_land, absent_as,
  absent_on_second, stays,
}
use synxed_solana_protocol.Studio.Worker.Triple.{
  Triple, >>=-Triple, asks_for-Triple, asks-Triple, caught-kept, lift-Triple, returns-Triple,
  writes-Triple, weaken,
}
use synxed_solana_protocol.Studio.Worker.Closing.{
  IsCoveredBy, IsCoveredBy-less, IsCoveredBy-close, IsCoveredBy-other,
}
use synxed_solana_protocol.Studio.Worker.Clear.{
  IsClear, set_event_status-IsNotPending, set_attempt_status-IsClear,
}

-- Clear, and the prepared attempts that are left are these.
abbrev pub Remains : String → List StoredAttempt → Store → Type 0
Remains id attempts s = IsClear id s × IsCoveredBy is_prepared id attempts s.attempt_rows

Remains-close :
    (id : String) (a : StoredAttempt) (attempts : List StoredAttempt) (error : Option String)
    (s : Store)
    → Remains id (a ∷ attempts) s
    → Remains id attempts (set_attempt_status a.event_id a.attempt AttemptStatus.failed error s)
unfolding set_attempt_status
Remains-close id a attempts error s (h, k) = (
  set_attempt_status-IsClear id a.event_id a.attempt AttemptStatus.failed error s refl h,
  IsCoveredBy-close is_prepared id a attempts s.attempt_rows AttemptStatus.failed error refl k,
)

Remains-less :
    (id : String) (a : StoredAttempt) (attempts : List StoredAttempt)
    → is_prepared a.status ≡ false
    → (s : Store) → Remains id (a ∷ attempts) s
    → Remains id attempts s
Remains-less id a attempts q s (h, k) =
    (h, IsCoveredBy-less is_prepared id a attempts s.attempt_rows q k)

Remains-other :
    (id : String) (a : StoredAttempt) (attempts : List StoredAttempt) (error : Option String)
    (s : Store)
    → Remains id attempts s
    → Remains id attempts (set_attempt_status a.event_id a.attempt AttemptStatus.failed error s)
unfolding set_attempt_status
Remains-other id a attempts error s (h, k) = (
  set_attempt_status-IsClear id a.event_id a.attempt AttemptStatus.failed error s refl h,
  IsCoveredBy-other is_prepared id (is_attempt a.event_id a.attempt) attempts s.attempt_rows
      AttemptStatus.failed error refl k,
)

-- An event that is marked as anything but pending is clear, and no attempt changes.
Remains-marked :
    (id : String) (status : EventStatus) (why : Option String) (attempts : List StoredAttempt)
    → same_event_status status EventStatus.pending ≡ false
    → (s : Store) → Remains id attempts s
    → Remains id attempts (set_event_status id status why s)
unfolding set_event_status
Remains-marked id status why attempts q s (h, k) =
    (inl (set_event_status-IsNotPending id status why s q), k)

module _ (w : Solana) (l : Library w.PublicKey) (n : Network w.PublicKey)
    (options : WorkerOptions w.PublicKey) (id : String) where
  open w use {PublicKey}
  open n use {World}

  seen-Remains :
      (a : StoredAttempt) (confirmation : Confirmation) (error : Option String)
      (attempts : List StoredAttempt)
      → Triple
          (Remains id attempts)
          (seen w l n options a confirmation error)
          (λ _. Remains id attempts)
          (IsClear id)
  unfolding seen
  seen-Remains a less error attempts = returns-Triple (λ s h. h)
  seen-Remains a confirmed none attempts = returns-Triple (λ s h. h)
  seen-Remains a confirmed (some error) attempts = returns-Triple (λ s h. h)
  seen-Remains a finalized none attempts = returns-Triple (λ s h. h)
  seen-Remains a finalized (some error) attempts =
      writes-Triple _ (Remains-other id a attempts (some error)) (returns-Triple (λ s h. h))

  unseen-Remains :
      (raw : Option String) (valid : Bool) (attempts : List StoredAttempt)
      → Triple
          (Remains id attempts)
          (unseen w l n options raw valid)
          (λ _. Remains id attempts)
          (IsClear id)
  unfolding unseen
  unseen-Remains (some raw) true attempts =
      >>=-Triple (asks-Triple _) (λ _. returns-Triple (λ s h. h))
  unseen-Remains (some raw) false attempts = returns-Triple (λ s h. h)
  unseen-Remains none valid attempts = returns-Triple (λ s h. h)

  known_height-Remains :
      (height : Option ℕ) (attempts : List StoredAttempt)
      → Triple
          (Remains id attempts)
          (known_height w l n options height)
          (λ _. Remains id attempts)
          (IsClear id)
  unfolding known_height
  known_height-Remains (some height) attempts = returns-Triple (λ s h. h)
  known_height-Remains none attempts = asks_for-Triple _ (λ s h. h.0)

  signed_may_land-Remains :
      (a : StoredAttempt) (height : Option ℕ) (status : Option SignatureStatus)
      (attempts : List StoredAttempt)
      → Triple
          (Remains id attempts)
          (signed_may_land w l n options a height status)
          (λ _. Remains id attempts)
          (IsClear id)
  unfolding signed_may_land
  signed_may_land-Remains a height (some known) attempts =
      >>=-Triple (seen-Remains a known.confirmation known.error attempts)
        (λ _. returns-Triple (λ s h. h))
  signed_may_land-Remains a height none attempts =
      >>=-Triple (known_height-Remains height attempts) (λ now.
        >>=-Triple (unseen-Remains a.raw_transaction _ attempts) (λ _. returns-Triple (λ s h. h)))

  attempt_may_land-Remains :
      (a : StoredAttempt) (height : Option ℕ) (status : AttemptStatus) (signature : Option String)
      (attempts : List StoredAttempt)
      → a.status ≡ status
      → Triple
          (Remains id (a ∷ attempts))
          (attempt_may_land w l n options a height status signature)
          (λ _. Remains id attempts)
          (IsClear id)
  unfolding attempt_may_land
  attempt_may_land-Remains a height AttemptStatus.prepared signature attempts q =
      writes-Triple _ (Remains-close id a attempts (some "never signed"))
        (returns-Triple (λ s h. h))
  attempt_may_land-Remains a height AttemptStatus.signed none attempts q =
      returns-Triple (Remains-less id a attempts (ap is_prepared q))
  attempt_may_land-Remains a height AttemptStatus.signed (some signature) attempts q =
      weaken (Remains-less id a attempts (ap is_prepared q)) (
        >>=-Triple (asks_for-Triple _ (λ s h. h.0))
          (λ status. signed_may_land-Remains a height status attempts))
  attempt_may_land-Remains a height AttemptStatus.failed signature attempts q =
      returns-Triple (Remains-less id a attempts (ap is_prepared q))
  attempt_may_land-Remains a height AttemptStatus.expired signature attempts q =
      returns-Triple (Remains-less id a attempts (ap is_prepared q))
  attempt_may_land-Remains a height AttemptStatus.landed signature attempts q =
      returns-Triple (Remains-less id a attempts (ap is_prepared q))

  pub may_still_land-Remains :
      (attempts : List StoredAttempt) (waiting : Bool) (height : Option ℕ)
      → Triple
          (Remains id attempts)
          (may_still_land w l n options attempts waiting height)
          (λ _. Remains id [])
          (IsClear id)
  unfolding may_still_land
  may_still_land-Remains [] waiting height = returns-Triple (λ s h. h)
  may_still_land-Remains (a ∷ attempts) waiting height =
      >>=-Triple (attempt_may_land-Remains a height a.status a.signature attempts refl)
        (λ answer. may_still_land-Remains attempts (waiting || answer.0) answer.1)

  -- Reading a record changes nothing stored.
  pub fetch_record-kept :
      (P : Store → Type 0) (provider : Provider) (seed : Bytes)
      → Triple P (fetch_record w l n options provider seed) (λ _. P) P
  unfolding fetch_record
  fetch_record-kept P provider seed =
      >>=-Triple (lift-Triple (λ s h. h)) (λ (address, _).
        >>=-Triple (asks_for-Triple _ (λ s h. h)) (λ answer. lift-Triple (λ s h. h)))

  -- What marking the event in flight keeps, asking a second provider keeps.
  absent_as-kept :
      (P : Store → Type 0) (R : Store → Type 0)
      (found : Result (Option (SettlementRecordAccount PublicKey)))
      → ((why : Option String) (s : Store)
          → P s
          → P (set_event_status id EventStatus.in_flight why s))
      → Triple P (absent_as w l n options id found) (λ _. P) R
  unfolding absent_as
  absent_as-kept P R (err x) marked = writes-Triple _ (marked _) (returns-Triple (λ s h. h))
  absent_as-kept P R (ok (some _)) marked = writes-Triple _ (marked _) (returns-Triple (λ s h. h))
  absent_as-kept P R (ok none) marked = returns-Triple (λ s h. h)

  pub absent_on_second-kept :
      (P : Store → Type 0) (R : Store → Type 0) (has_second : Bool) (seed : Bytes)
      → ((why : Option String) (s : Store)
          → P s
          → P (set_event_status id EventStatus.in_flight why s))
      → Triple P (absent_on_second w l n options has_second id seed) (λ _. P) R
  unfolding absent_on_second
  absent_on_second-kept P R true seed marked =
      >>=-Triple (caught-kept (fetch_record-kept P Provider.second seed))
        (λ found. absent_as-kept P R found marked)
  absent_on_second-kept P R false seed marked = returns-Triple (λ s h. h)

  pub absent_on_second-Remains :
      (has_second : Bool) (seed : Bytes)
      → Triple
          (Remains id [])
          (absent_on_second w l n options has_second id seed)
          (λ _. Remains id [])
          (IsClear id)
  absent_on_second-Remains has_second seed =
      absent_on_second-kept _ _ has_second seed
        (λ why. Remains-marked id EventStatus.in_flight why [] refl)

  -- What is marked as anything but pending is clear.
  pub stays-IsClear :
      {A : Type 0} (why : String) (a : A) {P : Store → Type 0}
      → Triple P (stays w l n options id why a) (λ _. IsClear id) (IsClear id)
  stays-IsClear why a =
      writes-Triple _
        (λ s h. inl (set_event_status-IsNotPending id EventStatus.in_flight (some why) s refl))
        (returns-Triple (λ s h. h))

  pub reconcile-kept :
      (P : Store → Type 0) (R : Store → Type 0) (provider : Provider) (signature : String)
      (request : Request) (ids : Option (List (String × String)))
      → Triple P (reconcile w l n options provider signature request ids) (λ _. P) R
  unfolding reconcile
  reconcile-kept P R provider signature (request, params) ids = caught-kept (
      >>=-Triple (lift-Triple (λ s h. h)) (λ program.
        >>=-Triple (lift-Triple (λ s h. h)) (λ namespace.
          >>=-Triple (lift-Triple (λ s h. h))
            (λ units. >>=-Triple (asks-Triple _) (λ answers. lift-Triple (λ s h. h))))))

  pub reconcile_each-kept :
      (P : Store → Type 0) (R : Store → Type 0) (provider : Provider) (signature : String)
      (requests : List Request)
      → Triple P (reconcile_each w l n options provider signature requests) (λ _. P) R
  unfolding reconcile_each
  reconcile_each-kept P R provider signature [] = returns-Triple (λ s h. h)
  reconcile_each-kept P R provider signature (r ∷ requests) =
      >>=-Triple (reconcile-kept P R provider signature r none) (λ result.
        >>=-Triple (reconcile_each-kept P R provider signature requests)
          (λ results. returns-Triple (λ s h. h)))
