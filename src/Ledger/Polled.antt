-- ===== src/Ledger/Polled.antt =====
-- A reconciliation of a signature: what the connection answered, and what was made of it.
use synxed_solana_protocol.Base.{
  ℕ, zero, suc, ◌≡◌, ap, ◌∙◌, not, ◌||◌, Option, none, some, List, [], ◌∷◌, ◌++◌, arith,
}
use synxed_solana_protocol.Base.Int.{pos, leb_ℤ}
use synxed_solana_protocol.Base.Text.{String, ◌===◌, ===_iff}
use synxed_solana_protocol.Types.{
  Result, ok, err, Exception, >>=-eq-ok, throw_if-eq-ok, throw_if, or_throw, ledger,
  LedgerErrorCode,
}
use synxed_solana_protocol.Solana.{Solana}
use synxed_solana_protocol.Ledger.Evidence.{
  LedgerCluster, ParsedTransaction, SettlementReconciliation, ProgramSettlementObservation,
}
use synxed_solana_protocol.Ledger.Observe.{observe_program_settlement}
use synxed_solana_protocol.Ledger.Reconcile.{reconcile_observed_settlement_n, given}
use synxed_solana_protocol.Ledger.Poll.{
  Watch, genesis_hash, assert_ledger_cluster, poll, finalized_transaction,
  ReconcileSettlementOptions, reconcile_settlement_n,
}

-- Answers without the transaction.
abbrev pub waits {ℓ} : {A : Type ℓ} → ℕ → List (Result (Option A))
waits zero = []
waits (suc n) = ok none ∷ waits n

poll-first :
    {Key : Type 0} (first : Result (Option (ParsedTransaction Key)))
    (later : List (Result (Option (ParsedTransaction Key)))) (transaction : ParsedTransaction Key)
    → poll first later ≡ ok (some transaction)
    → (waited : ℕ) × (rest : List (Result (Option (ParsedTransaction Key)))) × (first ∷ later
        ≡ waits waited ++ (ok (some transaction) ∷ rest))
unfolding poll
poll-first (err x) later transaction h = absurd (ground arith)
poll-first (ok (some t)) later transaction h = (0, later, ap (λ (x : _). x ∷ later) h)
poll-first (ok none) [] transaction h = absurd (ground arith)
poll-first (ok none) (next ∷ later) transaction h =
    let (waited, rest, q) = poll-first next later transaction h in
    (suc waited, rest, ap (◌∷◌ (ok none)) q)

assert_ledger_cluster-hash :
    (answer : Result String) (cluster : LedgerCluster)
    → assert_ledger_cluster answer cluster ≡ ok tt
    → answer ≡ ok (genesis_hash cluster)
unfolding assert_ledger_cluster
assert_ledger_cluster-hash (err x) cluster h = absurd (ground arith)
assert_ledger_cluster-hash (ok hash) cluster h = ap ok (
    (===_iff hash (genesis_hash cluster)).0
      (ground (arith, throw_if-eq-ok (not (hash === genesis_hash cluster)) _ h)))

or_throw-some {ℓ} :
    {A : Type ℓ} (o : Option A) (e : Exception) {a : A} → or_throw o e ≡ ok a → o ≡ some a
or_throw-some none e h = absurd (ground arith)
or_throw-some (some b) e h = ground arith

module _ (w : Solana) where
  open w use {PublicKey}

  -- A settlement that is reconciled from its signature: the connection is of the cluster that is
  -- asked for, devnet where none is; its answers before the deadline hold the transaction after
  -- some that do not yet; and the transaction's observation reconciles with the request.
  pub reconcile_settlement_n-observed :
      (options : ReconcileSettlementOptions PublicKey) (watch : Watch PublicKey)
      (reconciliation : SettlementReconciliation)
      → reconcile_settlement_n w options watch ≡ ok reconciliation
      → (transaction : ParsedTransaction PublicKey) × (observation : ProgramSettlementObservation)
        × (waited : ℕ) × (rest : List (Result (Option (ParsedTransaction PublicKey))))
        × (watch.genesis ≡ ok (genesis_hash (given options.cluster LedgerCluster.devnet)))
        × (watch.first ∷ watch.later ≡ waits waited ++ (ok (some transaction) ∷ rest))
        × (observe_program_settlement w transaction options.signature options.program_id
            ≡ ok observation)
        × (reconcile_observed_settlement_n w (record {
          observation = observation;
          request = options.request;
          namespace = options.namespace;
          units_per_atomic_unit = options.units_per_atomic_unit;
          cluster = some (given options.cluster LedgerCluster.devnet);
          beneficiary_ids = options.beneficiary_ids;
          pooled_labels = options.pooled_labels;
          allow_legacy_memo = options.allow_legacy_memo;
        })
            ≡ ok reconciliation)
  unfolding reconcile_settlement_n finalized_transaction
  reconcile_settlement_n-observed options watch reconciliation h =
      let cluster = given options.cluster LedgerCluster.devnet in
      let (transaction, fetched, h1) =
        >>=-eq-ok (finalized_transaction options.timing cluster watch) _ h in
      let (observation, observed, h2) =
        >>=-eq-ok (observe_program_settlement w transaction options.signature options.program_id) _
          h1 in
      let (_, _, f1) =
        >>=-eq-ok
          (throw_if
            (leb_ℤ (given options.timing.finality_timeout (pos 60000)) (pos 0)
              || leb_ℤ (given options.timing.poll_interval (pos 1000)) (pos 0))
            (ledger LedgerErrorCode.tx_not_found))
          _ fetched in
      let (_, hash, f2) = >>=-eq-ok (assert_ledger_cluster watch.genesis cluster) _ f1 in
      let (polled, answers, f3) = >>=-eq-ok (poll watch.first watch.later) _ f2 in
      let there : polled ≡ some transaction =
        or_throw-some polled (ledger LedgerErrorCode.tx_not_found) f3 in
      let (waited, rest, q) =
        poll-first watch.first watch.later transaction (answers ∙ ap ok there) in
      (
        transaction,
        observation,
        waited,
        rest,
        assert_ledger_cluster-hash watch.genesis cluster hash,
        q,
        observed,
        h2,
      )
