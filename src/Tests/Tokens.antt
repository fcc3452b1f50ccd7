-- ===== src/Tests/Tokens.antt =====
-- A token settlement reconciled.
use synxed_solana_protocol.Base.{ℕ, ◌≡◌, refl, none, some, List, [], ◌∷◌}
use synxed_solana_protocol.Base.Int.{ℤ, pos}
use synxed_solana_protocol.Base.Text.{String, trim}
use synxed_solana_protocol.Base.Decimal.{show_ℤ}
use synxed_solana_protocol.Types.{int, ok, SettlementRequestN, SettlementAsset}
use synxed_solana_protocol.Bytes.{zeros}
use synxed_solana_protocol.Split.{
  assert_bps, sum_bps, assert_bps_shares, big_int, split_loop, split_amount_atomic_shares,
  check_labels, payouts_n, compute_settlement_n,
}
use synxed_solana_protocol.Solana.Sample.{sample, unary, pad, sample_token_memo}
use synxed_solana_protocol.Instruction.Encode.{event_id_seed}
use synxed_solana_protocol.Ledger.Evidence.{
  ObservedTokenTransfer, ProgramTokenSettlementObservation, SettlementReconciliation,
  SettlementMode, LedgerCluster,
}
use synxed_solana_protocol.Ledger.Observe.{to_hex}
use synxed_solana_protocol.Ledger.Match.{
  same_numbers, same_strings, insert_sorted, sorted, assert_token_memo,
}
use synxed_solana_protocol.Ledger.Reconcile.{
  check_ids, direct_entries_of, pool_payouts_of, assert_namespace,
}
use synxed_solana_protocol.Ledger.TokenReconcile.{
  ReconcileTokenOptions, expected_token_transfers, token_lines_of, recipient_wallets,
  token_accounts, check_observed_token, reconcile_observed_token_settlement_n,
}
use synxed_solana_protocol.Ledger.TokenReconciled.{
  IsTokenReconciled, reconcile_observed_token_settlement_n-IsTokenReconciled,
}
use synxed_solana_protocol.Tests.Splits.{sample_request}

abbrev pub token_request : SettlementRequestN
token_request = record {
  event_id = "e1";
  occurred_at = sample_request.occurred_at;
  kind = sample_request.kind;
  amount_atomic = pos 1001;
  asset = SettlementAsset.usdc;
  shares = sample_request.shares;
  memo = "";
}

-- The sample's associated account of the mint 1 and an owner is 100 and the owner.
abbrev token_transfer : ℕ → ℕ → ObservedTokenTransfer
token_transfer account amount = record {
  source = unary 120 "";
  destination = unary account "";
  mint = "1";
  amount_on_chain = amount;
  decimals = pos 6;
}

abbrev token_observation : ProgramTokenSettlementObservation
token_observation = record {
  signature = "sig";
  slot = 7;
  block_time = pos 1;
  program_id = unary 7 "";
  payer = unary 20 "";
  authority = unary 21 "";
  namespace = unary 22 "";
  source_token_account = unary 120 "";
  recipient_token_accounts = unary 110 "" ∷ unary 111 "" ∷ [];
  mint = "1";
  settlement_record = unary 112 "";
  event_seed_hex = to_hex (pad 150);
  amount_on_chain = 1001;
  decimals = 6;
  bps = 6001 ∷ 3999 ∷ [];
  transfers = token_transfer 111 401 ∷ token_transfer 110 600 ∷ [];
  memo = sample_token_memo;
}

abbrev token_options : ReconcileTokenOptions ℕ
token_options = record {
  observation = token_observation;
  request = token_request;
  namespace = 22;
  token_base_units_per_atomic_unit = pos 1;
  mint = 1;
  decimals = int (pos 6);
  cluster = none;
  beneficiary_ids = none;
  pooled_labels = none;
}

abbrev token_reconciliation : SettlementReconciliation
token_reconciliation =
    let payouts =
      token_lines_of token_options (unary 110 "" ∷ unary 111 "" ∷ []) (pos 600 ∷ pos 401 ∷ []) in
    record {
      settlement = record {
        event_id = "e1";
        signature = "sig";
        slot = 7;
        cluster = LedgerCluster.devnet;
        program_id = unary 7 "";
        namespace = unary 22 "";
        authority = unary 21 "";
        payer = unary 20 "";
        settlement_record = unary 112 "";
        mode = SettlementMode.program_token;
        asset = SettlementAsset.usdc;
        mint = some "1";
        decimals = some (int (pos 6));
        amount_atomic = "1001";
        units_per_atomic_unit = "1";
        payouts = payouts;
        occurred_at = sample_request.occurred_at;
        settled_at = "1970-01-01T00:00:00.000Z";
      };
      direct_entries = direct_entries_of sample "sig" payouts;
      pool_payouts = pool_payouts_of payouts;
    }

token_reconciled :
    reconcile_observed_token_settlement_n sample token_options ≡ ok token_reconciliation
unfolding reconcile_observed_token_settlement_n check_observed_token compute_settlement_n
    check_labels payouts_n split_amount_atomic_shares assert_bps_shares sum_bps assert_bps
    split_loop big_int assert_namespace event_id_seed same_numbers same_strings assert_token_memo
    sorted insert_sorted expected_token_transfers check_ids recipient_wallets token_accounts trim
    show_ℤ zeros to_hex
token_reconciled = refl

reconcile_observed_token_settlement_n-IsTokenReconciled_example :
    (accounts : List String) × (amounts : List ℤ) × IsTokenReconciled sample token_options accounts
      amounts token_reconciliation
reconcile_observed_token_settlement_n-IsTokenReconciled_example =
    reconcile_observed_token_settlement_n-IsTokenReconciled sample token_options
      token_reconciliation token_reconciled
