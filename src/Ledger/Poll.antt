-- ===== src/Ledger/Poll.antt =====
-- sdk/typescript/src/ledger.ts: the cluster, and the transaction of a settlement, read until it is finalized.
use synxed_solana_protocol.Base.{Bool, not, ◌||◌, Option, none, some, List, [], ◌∷◌}
use synxed_solana_protocol.Base.Int.{ℤ, pos, leb_ℤ}
use synxed_solana_protocol.Base.Text.{String, ◌===◌}
use synxed_solana_protocol.Types.{
  JsNumber, Result, ok, err, ◌>>=◌, ◌>>◌, throw_if, or_throw, ledger, LedgerErrorCode,
  SettlementRequestN,
}
use synxed_solana_protocol.Solana.{Solana}
use synxed_solana_protocol.Ledger.Evidence.{
  LedgerCluster, ParsedTransaction, SettlementReconciliation,
}
use synxed_solana_protocol.Ledger.Observe.{
  observe_program_settlement, observe_program_token_settlement,
}
use synxed_solana_protocol.Ledger.Reconcile.{reconcile_observed_settlement_n, given}
use synxed_solana_protocol.Ledger.TokenReconcile.{reconcile_observed_token_settlement_n}

abbrev pub genesis_hash : LedgerCluster → String
genesis_hash LedgerCluster.devnet = "EtWTRABZaYq6iMfeYKouRu166VU2xqa1wcaWoxPkrZBG"
genesis_hash LedgerCluster.mainnet_beta = "5eykt4UsFv8P8NJdTREpY1vzqKqZKvdpKuc147dw2N9d"

-- What the connection answers in one call: the genesis hash, and the transaction, first and as often
-- again as the clock allows before the deadline.
pub record Watch (Key : Type 0) : Type 0 where
  pub genesis : Result String
  pub first : Result (Option (ParsedTransaction Key))
  pub later : List (Result (Option (ParsedTransaction Key)))

pub record Timing : Type 0 where
  pub finality_timeout : Option ℤ
  pub poll_interval : Option ℤ

unfoldable pub assert_ledger_cluster : Result String → LedgerCluster → Result (Unit {0})
assert_ledger_cluster answer cluster = do
  hash ← answer
  throw_if (not (hash === genesis_hash cluster)) (ledger LedgerErrorCode.cluster_mismatch)

-- The loop ends with the first answer that is a transaction or throws.
unfoldable pub poll :
    {Key : Type 0}
    → Result (Option (ParsedTransaction Key))
    → List (Result (Option (ParsedTransaction Key)))
    → Result (Option (ParsedTransaction Key))
poll (err e) later = err e
poll (ok (some transaction)) later = ok (some transaction)
poll (ok none) [] = ok none
poll (ok none) (next ∷ later) = poll next later

unfoldable pub finalized_transaction :
    {Key : Type 0} → Timing → LedgerCluster → Watch Key → Result (ParsedTransaction Key)
finalized_transaction timing cluster watch = do
  throw_if
      (leb_ℤ (given timing.finality_timeout (pos 60000)) (pos 0)
        || leb_ℤ (given timing.poll_interval (pos 1000)) (pos 0))
      (ledger LedgerErrorCode.tx_not_found)
  assert_ledger_cluster watch.genesis cluster
  transaction ← poll watch.first watch.later
  or_throw transaction (ledger LedgerErrorCode.tx_not_found)

-- The options of a call but the connection; those left out are none.
pub record ReconcileSettlementOptions (Key : Type 0) : Type 0 where
  pub signature : String
  pub program_id : Key
  pub timing : Timing
  pub request : SettlementRequestN
  pub namespace : Key
  pub units_per_atomic_unit : ℤ
  pub cluster : Option LedgerCluster
  pub beneficiary_ids : Option (List (String × String))
  pub pooled_labels : Option (List String)
  pub allow_legacy_memo : Option Bool

pub record ReconcileTokenSettlementOptions (Key : Type 0) : Type 0 where
  pub signature : String
  pub program_id : Key
  pub timing : Timing
  pub request : SettlementRequestN
  pub namespace : Key
  pub token_base_units_per_atomic_unit : ℤ
  pub mint : Key
  pub decimals : JsNumber
  pub cluster : Option LedgerCluster
  pub beneficiary_ids : Option (List (String × String))
  pub pooled_labels : Option (List String)

module _ (w : Solana) where
  open w use {PublicKey}

  unfoldable pub reconcile_settlement_n :
      ReconcileSettlementOptions PublicKey → Watch PublicKey → Result SettlementReconciliation
  reconcile_settlement_n options watch = do
    let cluster = given options.cluster LedgerCluster.devnet
    transaction ← finalized_transaction options.timing cluster watch
    observation ← observe_program_settlement w transaction options.signature options.program_id
    reconcile_observed_settlement_n w (record {
      observation = observation;
      request = options.request;
      namespace = options.namespace;
      units_per_atomic_unit = options.units_per_atomic_unit;
      cluster = some cluster;
      beneficiary_ids = options.beneficiary_ids;
      pooled_labels = options.pooled_labels;
      allow_legacy_memo = options.allow_legacy_memo;
    })

  unfoldable pub reconcile_token_settlement_n :
      ReconcileTokenSettlementOptions PublicKey → Watch PublicKey → Result SettlementReconciliation
  reconcile_token_settlement_n options watch = do
    let cluster = given options.cluster LedgerCluster.devnet
    transaction ← finalized_transaction options.timing cluster watch
    observation ←
        observe_program_token_settlement w transaction options.signature options.program_id
    reconcile_observed_token_settlement_n w (record {
      observation = observation;
      request = options.request;
      namespace = options.namespace;
      token_base_units_per_atomic_unit = options.token_base_units_per_atomic_unit;
      mint = options.mint;
      decimals = options.decimals;
      cluster = some cluster;
      beneficiary_ids = options.beneficiary_ids;
      pooled_labels = options.pooled_labels;
    })
