-- ===== src/Studio/Worker/Closing.antt =====
-- Closing the attempts of an event one by one, until none of a kind is left.
use synxed_solana_protocol.Base.{
  ◌≡◌, refl, sym, inl, inr, Bool, true, false, not, ◌&&◌, ◌||◌, ==_iff, Option, List, [], ◌∷◌, All,
  arith, Bool-cases,
}
use synxed_solana_protocol.Base.Text.{String, ◌===◌}
use synxed_solana_protocol.Studio.Store.{
  AttemptStatus, StoredAttempt, is_attempt, update_attempts, any_attempt, attempts_of,
}
use synxed_solana_protocol.Studio.Store.Write.{with_attempt_status}
use synxed_solana_protocol.Studio.Store.Rows.{===_refl}
use mathlib.Core.Path.{subst}

-- A kind of attempts, by their status.
abbrev pub Kind : Type 0
Kind = AttemptStatus → Bool

-- A row that is the event's and of the kind is one of these attempts, which are of the kind.
abbrev pub is_covered : Kind → String → List StoredAttempt → StoredAttempt → Bool
is_covered kind id attempts a =
    not (a.event_id === id && kind a.status)
    || any_attempt (λ x. kind x.status && is_attempt x.event_id x.attempt a) attempts

abbrev pub IsCoveredBy : Kind → String → List StoredAttempt → List StoredAttempt → Type 0
IsCoveredBy kind id attempts = All (λ (a : StoredAttempt). is_covered kind id attempts a ≡ true)

module _ (kind : Kind) (id : String) where
  pub IsCoveredBy-more :
      (x : StoredAttempt) (attempts rows : List StoredAttempt)
      → IsCoveredBy kind id attempts rows
      → IsCoveredBy kind id (x ∷ attempts) rows
  unfolding any_attempt
  IsCoveredBy-more x attempts [] h = tt
  IsCoveredBy-more x attempts (a ∷ rows) (h, hs) =
      (ground arith, IsCoveredBy-more x attempts rows hs)

  pub IsCoveredBy-attempts_of :
      (rows : List StoredAttempt) → IsCoveredBy kind id (attempts_of id rows) rows
  unfolding any_attempt attempts_of
  IsCoveredBy-attempts_of [] = tt
  IsCoveredBy-attempts_of (a ∷ rows) = elim (Bool-cases (a.event_id === id)) [
    | inl q ↦
        let same : attempts_of id (a ∷ rows) ≡ a ∷ attempts_of id rows = rw q refl in
        subst (λ (xs : List StoredAttempt). IsCoveredBy kind id xs (a ∷ rows)) (sym same)
          (
            ground (arith, ===_refl a.event_id, (==_iff a.attempt a.attempt).1 refl),
            IsCoveredBy-more a (attempts_of id rows) rows (IsCoveredBy-attempts_of rows),
          )
    | inr q ↦
        let same : attempts_of id (a ∷ rows) ≡ attempts_of id rows = rw q refl in
        subst (λ (xs : List StoredAttempt). IsCoveredBy kind id xs (a ∷ rows)) (sym same)
          (ground arith, IsCoveredBy-attempts_of rows)
  ]

  -- An attempt that is not of the kind covers nothing.
  pub IsCoveredBy-less :
      (x : StoredAttempt) (attempts rows : List StoredAttempt)
      → kind x.status ≡ false
      → IsCoveredBy kind id (x ∷ attempts) rows
      → IsCoveredBy kind id attempts rows
  unfolding any_attempt
  IsCoveredBy-less x attempts [] q h = tt
  IsCoveredBy-less x attempts (a ∷ rows) q (h, hs) =
      (ground arith, IsCoveredBy-less x attempts rows q hs)

  -- Closing an attempt leaves its rows to no attempt.
  pub IsCoveredBy-close :
      (x : StoredAttempt) (attempts rows : List StoredAttempt) (status : AttemptStatus)
      (error : Option String)
      → kind status ≡ false
      → IsCoveredBy kind id (x ∷ attempts) rows
      → IsCoveredBy kind id attempts (
          update_attempts (is_attempt x.event_id x.attempt) (with_attempt_status status error) rows)
  unfolding any_attempt update_attempts
  IsCoveredBy-close x attempts [] status error q h = tt
  IsCoveredBy-close x attempts (a ∷ rows) status error q (h, hs) =
      let rest = IsCoveredBy-close x attempts rows status error q hs in
      elim (Bool-cases (is_attempt x.event_id x.attempt a)) [
        | inl p ↦ rw p (ground arith, rest)
        | inr p ↦ rw p (ground arith, rest)
      ]

  -- Closing any attempt keeps what is covered.
  pub IsCoveredBy-other :
      (closed : StoredAttempt → Bool) (attempts rows : List StoredAttempt) (status : AttemptStatus)
      (error : Option String)
      → kind status ≡ false
      → IsCoveredBy kind id attempts rows
      → IsCoveredBy kind id attempts
          (update_attempts closed (with_attempt_status status error) rows)
  unfolding update_attempts
  IsCoveredBy-other closed attempts [] status error q h = tt
  IsCoveredBy-other closed attempts (a ∷ rows) status error q (h, hs) =
      let rest = IsCoveredBy-other closed attempts rows status error q hs in
      elim (Bool-cases (closed a)) [ inl p ↦ rw p (ground arith, rest) | inr p ↦ rw p (h, rest) ]
