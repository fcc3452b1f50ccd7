-- ===== src/Tests/Ledgers.antt =====
-- A settlement observed and reconciled, and a pool allocated.
use synxed_solana_protocol.Base.{
  ℕ, zero, suc, true, ◌≡◌, refl, false, none, some, List, [], ◌∷◌, map,
}
use synxed_solana_protocol.Base.Int.{ℤ, pos}
use synxed_solana_protocol.Base.Text.{String, trim}
use synxed_solana_protocol.Base.Decimal.{show_ℤ, read_digits}
use synxed_solana_protocol.Types.{int, ok, SplitResultN, Result}
use synxed_solana_protocol.Json.{Json, Fields}
use synxed_solana_protocol.Bytes.{Bytes, zeros, overwrite, set_at, le_bytes}
use synxed_solana_protocol.Split.{
  assert_bps, sum_bps, assert_bps_shares, big_int, split_loop, split_amount_atomic_shares,
  check_labels, payouts_n, compute_settlement_n,
}
use synxed_solana_protocol.Solana.Sample.{sample, unary, pad, sample_memo}
use synxed_solana_protocol.Instruction.Encode.{event_id_seed, write_settle_n, set_bps}
use synxed_solana_protocol.Ledger.Evidence.{
  Instruction, Meta, ParsedTransaction, ObservedTransfer, ProgramSettlementObservation, PayoutLine,
  SettlementReconciliation, SettlementMode, LedgerCluster,
}
use synxed_solana_protocol.Ledger.Decode.{decode_data, instruction_tag}
use synxed_solana_protocol.Ledger.Find.{
  from_program, all_raw, settlements_of, check_beside, the_settlement, find_settlement_instruction,
  extract_memo,
}
use synxed_solana_protocol.Ledger.Observe.{
  read_system_transfer, parse_system_transfer, collect, to_hex, find_group, inner_of,
  check_transaction, observe_program_settlement,
}
use synxed_solana_protocol.Ledger.Observed.{sent, IsObservedAs, observe_program_settlement-build}
use synxed_solana_protocol.Ledger.Match.{
  same_numbers, same_strings, insert_sorted, sorted, assert_memo,
}
use synxed_solana_protocol.Ledger.Reconcile.{
  ReconcileOptions, check_ids, expected_transfers, observed_transfers, direct_entries_of,
  pool_payouts_of, lines_of, assert_namespace, check_observed, reconcile_observed_settlement_n,
}
use synxed_solana_protocol.Ledger.Reconciled.{
  IsReconciled, reconcile_observed_settlement_n-IsReconciled,
}
use synxed_solana_protocol.Ledger.Pool.{
  PoolAllocation, accrued_entry, total_allocations, allocate_pool_payout, IsAllocated,
  allocate_pool_payout-IsAllocated,
}
use synxed_solana_protocol.Ledger.History.{History, SettlementTransaction}
use synxed_solana_protocol.Ledger.Search.{find_creating_transaction}
use synxed_solana_protocol.Ledger.Found.{find_creating_transaction-Returns}
use synxed_solana_protocol.Tests.Splits.{sample_request}
use synxed_solana_protocol.Tests.Instructions.{sample_accounts, sample_params, sample_built, built}

abbrev transfer_json : String → ℕ → Json
transfer_json destination lamports = Json.object (
    Fields.field "type" (Json.text "transfer") (
      Fields.field "info"
        (Json.object (
          Fields.field "source" (Json.text (unary 20 "")) (
            Fields.field "destination" (Json.text destination)
              (Fields.field "lamports" (Json.number (int (pos lamports))) Fields.end))))
        Fields.end))

abbrev transfer_to : ℕ → ℕ → Instruction ℕ
transfer_to destination lamports =
    Instruction.parsed 1 "system" (transfer_json (unary destination "") lamports)

abbrev sample_inner : List (Instruction ℕ)
sample_inner = transfer_to 112 900 ∷ transfer_to 10 600 ∷ transfer_to 11 401 ∷ []

abbrev sample_meta : Meta ℕ
sample_meta = record {
  failed = false;
  inner_instructions = some (record { index = 0; instructions = sample_inner } ∷ []);
}

abbrev pub sample_transaction : ParsedTransaction ℕ
sample_transaction = record {
  meta = some sample_meta;
  signatures = "sig" ∷ [];
  instructions =
      Instruction.raw (sent sample sample_built)
      ∷ Instruction.parsed 3 "spl-memo" (Json.text "memo")
      ∷ [];
  slot = 7;
  block_time = some (pos 1);
}

abbrev transfer : ℕ → ℕ → ObservedTransfer
transfer destination lamports = record {
  source = unary 20 "";
  destination = unary destination "";
  amount_on_chain = lamports;
}

abbrev sample_transfers : List ObservedTransfer
sample_transfers = transfer 112 900 ∷ transfer 10 600 ∷ transfer 11 401 ∷ []

transaction_checked : check_transaction sample_transaction "sig" ≡ ok (sample_meta, pos 1)
unfolding check_transaction
transaction_checked = refl

instruction_found :
    find_settlement_instruction sample sample_transaction 7
    ≡ ok (record { index = 0; instruction = sent sample sample_built })
unfolding find_settlement_instruction from_program all_raw settlements_of check_beside
    the_settlement instruction_tag decode_data write_settle_n zeros overwrite set_at set_bps
    le_bytes
instruction_found = refl

memo_read : extract_memo sample sample_transaction ≡ ok sample_memo
unfolding extract_memo from_program
memo_read = refl

inner_found : inner_of sample_meta 0 ≡ some sample_inner
unfolding find_group
inner_found = refl

transfers_read : collect parse_system_transfer sample_inner ≡ ok sample_transfers
unfolding collect parse_system_transfer read_system_transfer
transfers_read = refl

observe_program_settlement-build_example :
    (observed : ProgramSettlementObservation) × (observe_program_settlement sample
        sample_transaction "sig" 7
      ≡ ok observed)
    × IsObservedAs sample sample_accounts sample_params observed
observe_program_settlement-build_example =
    observe_program_settlement-build sample sample_accounts sample_params sample_built
      sample_transaction "sig" sample_meta (pos 1) 0 sample_memo sample_inner sample_transfers built
      transaction_checked instruction_found memo_read inner_found transfers_read

abbrev sample_observation : ProgramSettlementObservation
sample_observation = record {
  signature = "sig";
  slot = 7;
  block_time = pos 1;
  program_id = unary 7 "";
  payer = unary 20 "";
  authority = unary 21 "";
  namespace = unary 22 "";
  settlement_record = unary 112 "";
  event_seed_hex = to_hex (pad 150);
  amount_on_chain = 1001;
  bps = 6001 ∷ 3999 ∷ [];
  recipients = unary 10 "" ∷ unary 11 "" ∷ [];
  transfers = sample_transfers;
  memo = sample_memo;
}

abbrev sample_options : ReconcileOptions ℕ
sample_options = record {
  observation = sample_observation;
  request = sample_request;
  namespace = 22;
  units_per_atomic_unit = pos 1;
  cluster = none;
  beneficiary_ids = some ((" artist", "artist-7") ∷ []);
  pooled_labels = none;
  allow_legacy_memo = none;
}

abbrev sample_amounts : List ℤ
sample_amounts = pos 600 ∷ pos 401 ∷ []

abbrev pub sample_reconciliation : SettlementReconciliation
sample_reconciliation = record {
  settlement = record {
    event_id = "e1";
    signature = "sig";
    slot = 7;
    cluster = LedgerCluster.devnet;
    program_id = unary 7 "";
    namespace = unary 22 "";
    authority = unary 21 "";
    payer = unary 20 "";
    settlement_record = unary 112 "";
    mode = SettlementMode.program;
    asset = sample_request.asset;
    mint = none;
    decimals = none;
    amount_atomic = "1001";
    units_per_atomic_unit = "1";
    payouts = lines_of sample_options sample_amounts;
    occurred_at = sample_request.occurred_at;
    settled_at = "1970-01-01T00:00:00.000Z";
  };
  direct_entries = direct_entries_of sample "sig" (lines_of sample_options sample_amounts);
  pool_payouts = pool_payouts_of (lines_of sample_options sample_amounts);
}

reconciled : reconcile_observed_settlement_n sample sample_options ≡ ok sample_reconciliation
unfolding reconcile_observed_settlement_n check_observed compute_settlement_n check_labels payouts_n
    split_amount_atomic_shares assert_bps_shares sum_bps assert_bps split_loop big_int
    assert_namespace event_id_seed same_numbers same_strings assert_memo sorted insert_sorted
    expected_transfers observed_transfers check_ids to_hex trim zeros show_ℤ
reconciled = refl

reconcile_observed_settlement_n-IsReconciled_example :
    (result : SplitResultN) × (seed : Bytes) × (amounts : List ℤ) × IsReconciled sample
      sample_options result seed amounts sample_reconciliation
reconcile_observed_settlement_n-IsReconciled_example =
    reconcile_observed_settlement_n-IsReconciled sample sample_options sample_reconciliation
      reconciled

abbrev repeat {ℓ} : {A : Type ℓ} → ℕ → A → List A
repeat zero a = []
repeat (suc n) a = a ∷ repeat n a

abbrev pool_line : PayoutLine
pool_line = record {
  role = "rewards_pool";
  recipient = unary 11 "";
  bps = int (pos 3999);
  amount_on_chain = "401";
  beneficiary_id = none;
  destination_account = unary 11 "";
}

abbrev sample_allocations : List PoolAllocation
sample_allocations =
    record { beneficiary_id = "u1"; wallet = none; amount_on_chain = pos 400 }
    ∷ record { beneficiary_id = "u2"; wallet = none; amount_on_chain = pos 1 }
    ∷ []

allocated :
    allocate_pool_payout sample pool_line "sig" sample_allocations
    ≡ ok (map (accrued_entry sample pool_line "sig") sample_allocations)
unfolding allocate_pool_payout total_allocations trim read_digits
allocated = refl

allocate_pool_payout-IsAllocated_example :
    IsAllocated sample pool_line "sig" sample_allocations
      (map (accrued_entry sample pool_line "sig") sample_allocations)
allocate_pool_payout-IsAllocated_example =
    allocate_pool_payout-IsAllocated sample pool_line "sig" sample_allocations
      (map (accrued_entry sample pool_line "sig") sample_allocations) allocated

-- A connection whose pages are full for ever, of transactions that failed.
abbrev endless : History ℕ
endless = record {
  page = λ before limit. some (repeat limit (record { signature = "sig"; failed = true }));
  batch = λ signatures. none;
  single = λ signature. none;
}

find_creating_transaction-Returns_example :
    (r : Result SettlementTransaction) × (find_creating_transaction sample endless 7
        (some (int (pos 2)))
        (λ i bytes. true)
      ≡ some r)
find_creating_transaction-Returns_example =
    find_creating_transaction-Returns sample endless 7 (some (int (pos 2))) (λ i bytes. true)
