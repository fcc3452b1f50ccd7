-- ===== src/Studio/Worker/Batch.antt =====
-- A run over a batch of events returns, whatever becomes of any one of them.
use synxed_solana_protocol.Base.{ℕ, ◌≡◌, refl, ap, ◌∙◌, Option, none, some, List, [], ◌∷◌, map}
use synxed_solana_protocol.Base.Text.{String}
use synxed_solana_protocol.Types.{Result, ok, err}
use synxed_solana_protocol.Solana.{Solana}
use synxed_solana_protocol.Client.Library.{Library}
use synxed_solana_protocol.Studio.Store.{EventStatus, StoredEvent, event, events_with_status}
use synxed_solana_protocol.Studio.Worker.Action.{Action, State, caught, stored, ◌>>=◌}
use synxed_solana_protocol.Studio.Worker.Network.{Network, WorkerOptions, Outcome}
use synxed_solana_protocol.Studio.Worker.Resolve.{resolve, status_of}
use synxed_solana_protocol.Studio.Worker.Settle.{
  settle, contain_as, contain, kept_or_contained, guarded, resolve_all, settle_all, run,
}

abbrev pub ids_of : List StoredEvent → List String
ids_of = map (λ (e : StoredEvent). e.event_id)

abbrev pub keys_of : List (String × Outcome) → List String
keys_of = map (λ (x : String × Outcome). x.0)

module _ {World : Type 0} where
  -- An action that returns, from every state, a value of which this holds.
  abbrev Returns : {A : Type 0} → Action World A → (A → Type 0) → Type 0
  Returns {A = A} m Q = (s : State World) → (a : A) × (u : State World) × (m s ≡ (ok a, u)) × Q a

  >>=-ok :
      {A : Type 0} {B : Type 0} (m : Action World A) (f : A → Action World B) (s u : State World)
      (a : A)
      → m s ≡ (ok a, u)
      → (m >>= f) s ≡ f a u
  unfolding ◌>>=◌
  >>=-ok {A = A} {B = B} m f s u a q =
      ap
        (λ (x : Result A × State World). elim x.0 as (λ _. Result B × State World) [
          | ok b ↦ f b x.1
          | err e ↦ (err e, x.1)
        ])
        q

  bind-Returns :
      {A : Type 0} {B : Type 0} (m : Action World A) (f : A → Action World B) (Q : B → Type 0)
      (s : State World) (a : A) (u : State World)
      → m s ≡ (ok a, u)
      → ((b : B) × (v : State World) × (f a u ≡ (ok b, v)) × Q b)
      → (b : B) × (v : State World) × ((m >>= f) s ≡ (ok b, v)) × Q b
  bind-Returns m f Q s a u q (b, v, p, h) = (b, v, >>=-ok m f s u a q ∙ p, h)

module _ (w : Solana) (l : Library w.PublicKey) (n : Network w.PublicKey)
    (options : WorkerOptions w.PublicKey) where
  open w use {PublicKey}
  open n use {World}

  contain_as-Returns :
      (id why : String) (status : Option EventStatus)
      → Returns (contain_as w l n options id why status) (λ _. Unit {0})
  unfolding contain_as ◌>>=◌
  contain_as-Returns id why none s = (Outcome.unresolved, s, refl, tt)
  contain_as-Returns id why (some EventStatus.in_flight) s = (Outcome.unresolved, _, refl, tt)
  contain_as-Returns id why (some EventStatus.pending) s = (Outcome.retry, s, refl, tt)
  contain_as-Returns id why (some EventStatus.paid) s = (Outcome.paid, s, refl, tt)
  contain_as-Returns id why (some EventStatus.incident) s = (Outcome.incident, s, refl, tt)
  contain_as-Returns id why (some EventStatus.needs_attention) s =
      (Outcome.needs_attention, s, refl, tt)

  contain-Returns : (id why : String) → Returns (contain w l n options id why) (λ _. Unit {0})
  unfolding contain
  contain-Returns id why s =
      bind-Returns stored _ (λ _. Unit {0}) s s.store s refl
        (contain_as-Returns id why (status_of w l n options (event id s.store)) s)

  kept_or_contained-Returns :
      (id what : String) (result : Result Outcome)
      → Returns (kept_or_contained w l n options id what result) (λ _. Unit {0})
  unfolding kept_or_contained
  kept_or_contained-Returns id what (ok outcome) s = (outcome, s, refl, tt)
  kept_or_contained-Returns id what (err x) s = contain-Returns id _ s

  guarded-Returns :
      (id what : String) (step : Action World Outcome)
      → Returns (guarded w l n options id what step) (λ _. Unit {0})
  unfolding guarded
  guarded-Returns id what step s =
      bind-Returns (caught step) _ (λ _. Unit {0}) s (step s).0 (step s).1 refl
        (kept_or_contained-Returns id what (step s).0 (step s).1)

  resolve_all-Returns :
      (events : List StoredEvent)
      → Returns (resolve_all w l n options events) (λ outcomes. keys_of outcomes ≡ ids_of events)
  unfolding resolve_all
  resolve_all-Returns [] s = ([], s, refl, refl)
  resolve_all-Returns (e ∷ events) s =
      let (outcome, u, p, _) =
        guarded-Returns e.event_id "resolve failed: " (resolve w l n options e.event_id) s in
      let (outcomes, v, q, h) = resolve_all-Returns events u in
      bind-Returns _ _ _ s outcome u p (
        bind-Returns _ _ _ u outcomes v q
          ((e.event_id, outcome) ∷ outcomes, v, refl, ap (◌∷◌ e.event_id) h))

  settle_all-Returns :
      (events : List StoredEvent)
      → Returns (settle_all w l n options events) (λ outcomes. keys_of outcomes ≡ ids_of events)
  unfolding settle_all
  settle_all-Returns [] s = ([], s, refl, refl)
  settle_all-Returns (e ∷ events) s =
      let (outcome, u, p, _) =
        guarded-Returns e.event_id "settle failed: " (settle w l n options e) s in
      let (outcomes, v, q, h) = settle_all-Returns events u in
      bind-Returns _ _ _ s outcome u p (
        bind-Returns _ _ _ u outcomes v q
          ((e.event_id, outcome) ∷ outcomes, v, refl, ap (◌∷◌ e.event_id) h))

  -- A run always returns, even where resolving or settling some event throws: it has one outcome for
  -- each event that was in flight when it began, in the store's order, and, from the state that
  -- resolving them left, one for each of the first `limit` pending events.
  pub run-Returns :
      (limit : ℕ) (s : State World)
      → (resolved : List (String × Outcome)) × (settled : List (String × Outcome))
        × (between : State World) × (t : State World) × (run w l n options limit s
            ≡ (ok (resolved, settled), t))
        × (resolve_all w l n options (events_with_status EventStatus.in_flight none s.store) s
            ≡ (ok resolved, between))
        × (keys_of resolved ≡ ids_of (events_with_status EventStatus.in_flight none s.store))
        × (keys_of settled
            ≡ ids_of (events_with_status EventStatus.pending (some limit) between.store))
  unfolding run
  run-Returns limit s =
      let (resolved, u, p, h) =
        resolve_all-Returns (events_with_status EventStatus.in_flight none s.store) s in
      let (settled, t, q, k) =
        settle_all-Returns (events_with_status EventStatus.pending (some limit) u.store) u in
      (
        resolved,
        settled,
        u,
        t,
        >>=-ok stored _ s s s.store refl
            ∙ >>=-ok (resolve_all w l n options _) _ s u resolved p
            ∙ >>=-ok stored _ u u u.store refl
            ∙ >>=-ok (settle_all w l n options _) _ u t settled q,
        p,
        h,
        k,
      )
