-- ===== src/Studio/Worker/Triple.antt =====
-- What holds of the store before and after an action.
use synxed_solana_protocol.Base.{◌≡◌, refl}
use synxed_solana_protocol.Types.{Result, ok, err, Exception}
use synxed_solana_protocol.Studio.Store.{Store}
use synxed_solana_protocol.Studio.Worker.Action.{
  Action, State, returns, throws, lift, ◌>>=◌, ◌>>◌, caught, stored, writes, asks, asks_for,
}

-- What holds where an action returns, and where it throws.
abbrev pub After :
    {A : Type 0} → (A → Store → Type 0) → (Store → Type 0) → Result A → Store → Type 0
After Q R (ok a) = Q a
After Q R (err _) = R

same :
    {A : Type 0} (P : Store → Type 0) (R : Store → Type 0) (r : Result A) (s : Store)
    → ((s : Store) → P s → R s)
    → P s
    → After (λ (_ : A). P) R r s
same P R (ok a) s h p = p
same P R (err e) s h p = h s p

-- What holds after either way.
after :
    {A : Type 0} (Q : Store → Type 0) (r : Result A) (s : Store) → After (λ (_ : A). Q) Q r s → Q s
after Q (ok a) s h = h
after Q (err e) s h = h

module _ {World : Type 0} where
  -- Where the first holds before the action, the second or the third does after it.
  pub record Triple {A : Type 0} (P : Store → Type 0) (m : Action World A) (Q : A → Store → Type 0)
      (R : Store → Type 0) : Type 0 where
    pub holds : (s : State World) → P s.store → After Q R (m s).0 (m s).1.store

  next :
      {A : Type 0} {B : Type 0} (Q : A → Store → Type 0) (S : B → Store → Type 0)
      (R : Store → Type 0) (f : A → Action World B) (r : Result A) (s : State World)
      → ((a : A) → Triple (Q a) (f a) S R)
      → After Q R r s.store
      → (let done : Result B × State World = elim r [ ok a ↦ f a s | err e ↦ (err e, s) ] in
          After S R done.0 done.1.store)
  next Q S R f (ok a) s then h = (then a).holds s h
  next Q S R f (err e) s then h = h

  pub >>=-Triple :
      {A : Type 0} {B : Type 0} {P : Store → Type 0} {Q : A → Store → Type 0}
      {S : B → Store → Type 0} {R : Store → Type 0} {m : Action World A} {f : A → Action World B}
      → Triple P m Q R
      → ((a : A) → Triple (Q a) (f a) S R)
      → Triple P (m >>= f) S R
  unfolding ◌>>=◌
  >>=-Triple {Q = Q} {S = S} {R = R} {m = m} {f = f} first then = record {
    holds = λ s h. next Q S R f (m s).0 (m s).1 then (first.holds s h);
  }

  pub caught-Triple :
      {A : Type 0} {P : Store → Type 0} {Q : A → Store → Type 0} {R : Store → Type 0}
      {S : Store → Type 0} {m : Action World A}
      → Triple P m Q R
      → Triple P (caught m) (After Q R) S
  caught-Triple first = record { holds = first.holds }

  -- What only asks the world keeps what holds.
  pub asks_for-Triple :
      {A : Type 0} {P : Store → Type 0} {R : Store → Type 0} (f : World → Result A × World)
      → ((s : Store) → P s → R s)
      → Triple P (asks_for f) (λ _. P) R
  asks_for-Triple {P = P} {R = R} f h = record { holds = λ s p. same P R (f s.world).0 s.store h p }

  pub asks-Triple :
      {A : Type 0} {P : Store → Type 0} {R : Store → Type 0} (f : World → A × World)
      → Triple P (asks f) (λ _. P) R
  asks-Triple f = record { holds = λ s h. h }

  pub lift-Triple :
      {A : Type 0} {P : Store → Type 0} {R : Store → Type 0} {r : Result A}
      → ((s : Store) → P s → R s)
      → Triple P (lift r) (λ _. P) R
  lift-Triple {P = P} {R = R} {r = r} h = record { holds = λ s p. same P R r s.store h p }

  pub returns-Triple :
      {A : Type 0} {P : Store → Type 0} {Q : A → Store → Type 0} {R : Store → Type 0} {a : A}
      → ((s : Store) → P s → Q a s)
      → Triple P (returns a) Q R
  returns-Triple h = record { holds = λ s p. h s.store p }

  pub throws-Triple :
      {A : Type 0} {P : Store → Type 0} {Q : A → Store → Type 0} {R : Store → Type 0}
      {e : Exception}
      → ((s : Store) → P s → R s)
      → Triple P (throws e) Q R
  throws-Triple h = record { holds = λ s p. h s.store p }

  -- A write, then the rest.
  pub writes-Triple :
      {A : Type 0} {P : Store → Type 0} {Q : Store → Type 0} {S : A → Store → Type 0}
      {R : Store → Type 0} (f : Store → Store) {m : Action World A}
      → ((s : Store) → P s → Q (f s))
      → Triple Q m S R
      → Triple P (writes f >> m) S R
  writes-Triple f h then = >>=-Triple (record { holds = λ s p. h s.store p }) (λ _. then)

  pub weaken :
      {A : Type 0} {P : Store → Type 0} {P' : Store → Type 0} {Q : A → Store → Type 0}
      {R : Store → Type 0} {m : Action World A}
      → ((s : Store) → P s → P' s)
      → Triple P' m Q R
      → Triple P m Q R
  weaken h t = record { holds = λ s p. t.holds s (h s.store p) }

  -- Where what is caught does not matter.
  pub caught-kept :
      {A : Type 0} {P : Store → Type 0} {R : Store → Type 0} {m : Action World A}
      → Triple P m (λ _. P) P
      → Triple P (caught m) (λ _. P) R
  caught-kept {P = P} {m = m} first = record {
    holds = λ s p. after P (m s).0 (m s).1.store (first.holds s p);
  }

  -- What is read from the store is the store.
  pub stored-Triple :
      {A : Type 0} {P : Store → Type 0} {Q : A → Store → Type 0} {R : Store → Type 0}
      {f : Store → Action World A}
      → ((store : Store) → P store → Triple (λ s. P s × (s ≡ store)) (f store) Q R)
      → Triple P (stored >>= f) Q R
  unfolding ◌>>=◌
  stored-Triple h = record { holds = λ s p. (h s.store p).holds s (p, refl) }

  pub Triple-after :
      {A : Type 0} {P : Store → Type 0} {Q : Store → Type 0} {m : Action World A}
      → Triple P m (λ _. Q) Q
      → (s : State World) → P s.store
      → Q (m s).1.store
  Triple-after {Q = Q} {m = m} t s p = after Q (m s).0 (m s).1.store (t.holds s p)
