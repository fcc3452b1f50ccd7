-- ===== src/Studio/Worker/Evidence.antt =====
-- examples/studio-backend/src/worker.ts: building an event's settlement, and reconciling one that was
-- made with the requests that are stored.
use synxed_solana_protocol.Base.{
  ℕ, Bool, true, false, ◌&&◌, Option, none, some, List, [], ◌∷◌, if◌then◌else◌,
}
use synxed_solana_protocol.Base.Text.{String, ◌===◌, has}
use synxed_solana_protocol.Base.Decimal.{show_ℤ}
use synxed_solana_protocol.Types.{
  Result, ok, err, or_throw, Exception, ledger, runtime, LedgerErrorCode, SettlementRequestN,
}
use synxed_solana_protocol.Bytes.{Bytes}
use synxed_solana_protocol.Solana.{Solana}
use synxed_solana_protocol.Instruction.Encode.{find_settlement_record_pda}
use synxed_solana_protocol.Instruction.Build.{or_default}
use synxed_solana_protocol.Ledger.Evidence.{LedgerCluster, SettlementReconciliation}
use synxed_solana_protocol.Ledger.Pool.{big_int_text}
use synxed_solana_protocol.Ledger.Reconcile.{given}
use synxed_solana_protocol.Ledger.Poll.{reconcile_settlement_n}
use synxed_solana_protocol.Client.Library.{Library}
use synxed_solana_protocol.Client.Accounts.{SettlementRecordAccount, read_settlement_record}
use synxed_solana_protocol.Client.Prepare.{Prepared, build_settlement_n_transaction}
use synxed_solana_protocol.Types.{ProtocolErrorCode}
use synxed_solana_protocol.Studio.Store.{AttemptParams, StoredAttempt}
use synxed_solana_protocol.Studio.Worker.Action.{
  Action, returns, lift, ◌>>=◌, caught, asks, asks_for,
}
use synxed_solana_protocol.Studio.Worker.Network.{Network, Provider, WorkerOptions}

-- `MISMATCH_CODES`
abbrev pub is_mismatch_code : LedgerErrorCode → Bool
is_mismatch_code LedgerErrorCode.namespace_mismatch = true
is_mismatch_code LedgerErrorCode.event_mismatch = true
is_mismatch_code LedgerErrorCode.amount_mismatch = true
is_mismatch_code LedgerErrorCode.asset_mismatch = true
is_mismatch_code LedgerErrorCode.shares_mismatch = true
is_mismatch_code LedgerErrorCode.recipient_mismatch = true
is_mismatch_code LedgerErrorCode.transfer_mismatch = true
is_mismatch_code LedgerErrorCode.memo_mismatch = true
is_mismatch_code LedgerErrorCode.memo_missing = true
is_mismatch_code _ = false

abbrev pub is_mismatch : Exception → Bool
is_mismatch (ledger code) = is_mismatch_code code
is_mismatch _ = false

-- A request with the parameters it was attempted with.
abbrev pub Request : Type 0
Request = SettlementRequestN × AttemptParams

abbrev pub requests_of : List StoredAttempt → List Request
requests_of [] = []
requests_of (a ∷ attempts) = (a.request, a.params) ∷ requests_of attempts

-- The filter of `distinctRequests`, with the keys seen.
unfoldable pub distinct_requests : (Request → String) → List String → List Request → List Request
distinct_requests key seen [] = []
distinct_requests key seen (r ∷ requests) =
    let again = distinct_requests key seen requests in
    let rest = distinct_requests key (key r ∷ seen) requests in
    if has seen (key r) then again else r ∷ rest

-- `findIndex` of what reconciled, and the request at that index.
unfoldable pub first_matched :
    List Request → List (Result SettlementReconciliation) → Option Request
first_matched (r ∷ requests) (ok _ ∷ results) = some r
first_matched (r ∷ requests) (err _ ∷ results) = first_matched requests results
first_matched _ _ = none

-- Every result is an error that contradicts its request.
unfoldable pub all_mismatch : List (Result SettlementReconciliation) → Bool
all_mismatch [] = true
all_mismatch (ok _ ∷ results) = false
all_mismatch (err e ∷ results) = is_mismatch e && all_mismatch results

-- The number of the last attempt with the signature.
unfoldable pub landed_attempt : String → List StoredAttempt → Option ℕ
landed_attempt signature [] = none
landed_attempt signature (a ∷ attempts) = elim (landed_attempt signature attempts) [
  | some n ↦ some n
  | none ↦ elim a.signature [
    | some s ↦ if s === signature then some a.attempt else none
    | none ↦ none
  ]
]

module _ (w : Solana) (l : Library w.PublicKey) (n : Network w.PublicKey)
    (options : WorkerOptions w.PublicKey) where
  open w use {PublicKey, to_base58, from_base58}
  open n use {World, account, watch}

  abbrev pub authority_key : PublicKey
  authority_key = or_default options.authority options.payer

  -- `#params`
  abbrev pub current_params : AttemptParams
  current_params = record {
    program_id = to_base58 options.program_id;
    namespace = to_base58 options.namespace;
    lamports_per_atomic_unit = show_ℤ options.lamports_per_atomic_unit;
    payer = to_base58 options.payer;
    authority = to_base58 authority_key;
  }

  -- `#build`
  unfoldable pub build : SettlementRequestN → Result (Prepared PublicKey)
  build request = build_settlement_n_transaction w l (record {
    payer = options.payer;
    request = request;
    lamports_per_atomic_unit = some options.lamports_per_atomic_unit;
    program_id = some options.program_id;
    namespace = some options.namespace;
    authority = some authority_key;
    create_namespace_id = none;
  })

  -- `fetchSettlementRecord` of the client, in the worker's namespace.
  unfoldable pub fetch_record :
      Provider → Bytes → Action World (Option (SettlementRecordAccount PublicKey))
  fetch_record provider seed = do
    (address, _) ← lift (find_settlement_record_pda w options.program_id options.namespace seed)
    answer ← asks_for (account provider address)
    lift (
        read_settlement_record w options.program_id address seed ProtocolErrorCode.settlement_record
          answer)

  -- `#reconcile`: the reconciliation, or what its call threw.
  unfoldable pub reconcile :
      Provider
      → String
      → Request
      → Option (List (String × String))
      → Action World (Result SettlementReconciliation)
  reconcile provider signature (request, params) ids = caught (do
    program ← lift (or_throw (from_base58 params.program_id) runtime)
    namespace ← lift (or_throw (from_base58 params.namespace) runtime)
    units ← lift (big_int_text params.lamports_per_atomic_unit)
    answers ← asks (watch provider signature)
    lift (
        reconcile_settlement_n w
          (record {
            signature = signature;
            program_id = program;
            timing = options.timing;
            request = request;
            namespace = namespace;
            units_per_atomic_unit = units;
            cluster = some (given options.cluster LedgerCluster.devnet);
            beneficiary_ids = ids;
            pooled_labels = none;
            allow_legacy_memo = none;
          })
          answers))

  -- `Promise.all`, one after the other.
  unfoldable pub reconcile_each :
      Provider → String → List Request → Action World (List (Result SettlementReconciliation))
  reconcile_each provider signature [] = returns []
  reconcile_each provider signature (r ∷ requests) = do
    result ← reconcile provider signature r none
    results ← reconcile_each provider signature requests
    returns (result ∷ results)
