-- ===== src/Studio/Worker/Action.antt =====
-- examples/studio-backend/src/worker.ts: what a method does. It reads and writes the store, asks the
-- world, and returns or throws; what was written stays written when it throws.
use synxed_solana_protocol.Base.{ℕ, ◌≡◌, sym, ap, ◌∙◌, arith, inl, inr, Option, some}
use synxed_solana_protocol.Base.Text.{String}
use synxed_solana_protocol.Types.{Result, ok, err, Exception, Result-cases}
use synxed_solana_protocol.Studio.Store.{Store, EventStatus, AttemptStatus}
use synxed_solana_protocol.Studio.Store.Write.{set_event_status, set_attempt_status}

-- The store, and what the rest of the world has come to.
pub record State (World : Type 0) : Type 0 where
  pub store : Store
  pub world : World

abbrev pub Action : Type 0 → Type 0 → Type 0
Action World A = State World → Result A × State World

module _ {World : Type 0} where
  abbrev pub returns : {A : Type 0} → A → Action World A
  returns a s = (ok a, s)

  abbrev pub throws : {A : Type 0} → Exception → Action World A
  throws e s = (err e, s)

  abbrev pub lift : {A : Type 0} → Result A → Action World A
  lift r s = (r, s)

  infixl 5 ◌>>=◌ ◌>>◌
  unfoldable pub ◌>>=◌ : {A B : Type 0} → Action World A → (A → Action World B) → Action World B
  ◌>>=◌ m f s = elim (m s).0 [ ok a ↦ f a (m s).1 | err e ↦ (err e, (m s).1) ]

  abbrev pub ◌>>◌ : {A B : Type 0} → Action World A → Action World B → Action World B
  m >> k = m >>= λ _. k

  -- `try … catch`: what is caught is a value.
  abbrev pub caught : {A : Type 0} → Action World A → Action World (Result A)
  caught m s = (ok (m s).0, (m s).1)

  abbrev pub stored : Action World Store
  stored s = (ok s.store, s)

  abbrev pub writes : (Store → Store) → Action World (Unit {0})
  writes f s = (ok tt, record { store = f s.store; world = s.world })

  -- A request that the world answers, and one whose answer may be an error that is thrown.
  abbrev pub asks : {A : Type 0} → (World → A × World) → Action World A
  asks f s = (ok (f s.world).0, record { store = s.store; world = (f s.world).1 })

  abbrev pub asks_for : {A : Type 0} → (World → Result A × World) → Action World A
  asks_for f s = ((f s.world).0, record { store = s.store; world = (f s.world).1 })

  abbrev pub marks_event : String → EventStatus → String → Action World (Unit {0})
  marks_event id status note = writes (set_event_status id status (some note))

  abbrev pub marks_attempt : String → ℕ → AttemptStatus → Option String → Action World (Unit {0})
  marks_attempt id attempt status error = writes (set_attempt_status id attempt status error)

  -- Where two steps return, each did.
  pub >>=-returned :
      {A : Type 0} {B : Type 0} (m : Action World A) (f : A → Action World B) (s t : State World)
      {b : B}
      → (m >>= f) s ≡ (ok b, t)
      → (a : A) × (u : State World) × (m s ≡ (ok a, u)) × (f a u ≡ (ok b, t))
  unfolding ◌>>=◌
  >>=-returned {A = A} {B = B} m f s t h = elim (Result-cases (m s).0) [
    | inl (a, q) ↦ (
      a,
      (m s).1,
      ap (λ (r : Result A). (r, (m s).1)) q,
      sym (
            ap
              (λ (r : Result A). elim r as (λ _. Result B × State World) [
                | ok a ↦ f a (m s).1
                | err e ↦ (err e, (m s).1)
              ])
              q)
          ∙ h,
    )
    | inr (e, q) ↦ absurd (
        ground (
          arith,
          sym (
                ap
                  (λ (r : Result A).
                    (elim r as (λ _. Result B × State World) [
                      | ok a ↦ f a (m s).1
                      | err e ↦ (err e, (m s).1)
                    ]).0)
                  q)
              ∙ ap (λ (x : Result B × State World). x.0) h,
        ))
  ]

  -- A write before a value that is returned.
  pub writes->>-returned :
      {B : Type 0} (f : Store → Store) (b : B) (s t : State World) {c : B}
      → (writes f >> returns b) s ≡ (ok c, t)
      → (b ≡ c) × (t ≡ record { store = f s.store; world = s.world })
  unfolding ◌>>=◌
  writes->>-returned f b s t h = (ground arith, ap (λ x. x.1) (sym h))

  pub caught-ok :
      {B : Type 0} (m : Action World B) (s t : State World) {b : B}
      → caught m s ≡ (ok (ok b), t)
      → m s ≡ (ok b, t)
  caught-ok {B = B} m s t {b = b} h =
      let outcome : (m s).0 ≡ ok b = ground arith in
      ap (λ (r : Result B). (r, (m s).1)) outcome
      ∙ ap (λ (u : State World). (ok b, u)) (ap (λ (x : Result (Result B) × State World). x.1) h)
