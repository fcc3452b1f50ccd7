-- ===== src/Tests/Workers.antt =====
-- Events resolved and settled by the worker.
use synxed_solana_protocol.Base.{
  ℕ, ◌≡◌, refl, inl, false, true, Option, none, some, List, [], ◌++◌, ◌∷◌,
}
use synxed_solana_protocol.Base.Int.{pos}
use synxed_solana_protocol.Base.Text.{String, trim}
use synxed_solana_protocol.Base.Decimal.{show_ℤ, read_digits}
use synxed_solana_protocol.Types.{Result, ok}
use synxed_solana_protocol.Bytes.{zeros, of_le, le_bytes, overwrite, set_at}
use synxed_solana_protocol.Split.{
  assert_bps, sum_bps, assert_bps_shares, check_labels, payouts_n, compute_settlement_n,
  split_amount_atomic_shares, split_loop, big_int,
}
use synxed_solana_protocol.Solana.Sample.{sample}
use synxed_solana_protocol.Instruction.Encode.{
  event_id_seed, find_settlement_record_pda, assert_seed, write_settle_n, set_bps,
}
use synxed_solana_protocol.Ledger.Evidence.{ParsedTransaction, ProgramSettlementObservation, devnet}
use synxed_solana_protocol.Ledger.Poll.{
  Watch, ReconcileSettlementOptions, genesis_hash, assert_ledger_cluster, poll,
  finalized_transaction, reconcile_settlement_n,
}
use synxed_solana_protocol.Ledger.Polled.{waits, reconcile_settlement_n-observed}
use synxed_solana_protocol.Ledger.History.{History}
use synxed_solana_protocol.Studio.Store.{
  EventStatus, AttemptStatus, same_event_status, StoredEvent, StoredAttempt, Store,
  events_with_status, event, find_event, attempts_of, with_attempt,
}
use synxed_solana_protocol.Studio.Store.Write.{
  pending_event, prepared_attempt, with_tables, record_paid, with_attempt_status,
}
use synxed_solana_protocol.Studio.Worker.Action.{State, ◌>>=◌}
use synxed_solana_protocol.Studio.Worker.Network.{Network, WorkerOptions, Outcome, accepted}
use synxed_solana_protocol.Studio.Worker.Evidence.{
  current_params, fetch_record, reconcile, reconcile_each, distinct_requests, first_matched,
  landed_attempt,
}
use synxed_solana_protocol.Studio.Worker.Resolve.{
  resolve, resolve_event, resolve_in_flight, resolve_attempts, resolve_landed, resolve_read,
  resolve_record, resolve_found, resolve_created, resolve_results, resolve_matched, resolve_agreed,
  resolve_rows, second_disagrees, fails_to_match, find_created, may_still_land, attempt_may_land,
  find_elsewhere,
}
use synxed_solana_protocol.Client.Accounts.{read_settlement_record}
use synxed_solana_protocol.Ledger.Search.{
  find_settlement_transaction, find_creating_transaction, read_pages, read_batches, matches_of,
  settlement_in,
}
use synxed_solana_protocol.Ledger.History.{succeeded, fetch_finalized, set_batch, fetch_singles}
use synxed_solana_protocol.Ledger.Decode.{
  has_event_seed, decode_data, instruction_tag, decode_settle_n_data, decode_settle_n_bytes,
  read_bps,
}
use synxed_solana_protocol.Ledger.Observe.{
  observe_program_settlement, check_transaction, find_group, collect, parse_system_transfer,
  read_system_transfer, to_hex,
}
use synxed_solana_protocol.Ledger.Find.{
  find_settlement_instruction, from_program, all_raw, settlements_of, check_beside, the_settlement,
  extract_memo,
}
use synxed_solana_protocol.Ledger.Match.{
  same_numbers, same_strings, assert_memo, sorted, insert_sorted,
}
use synxed_solana_protocol.Ledger.Reconcile.{
  reconcile_observed_settlement_n, check_observed, assert_namespace, expected_transfers,
  observed_transfers, check_ids,
}
use synxed_solana_protocol.Studio.Worker.Settle.{settle, resolve_all, run}
use synxed_solana_protocol.Studio.Worker.Clear.{IsClear, none_pending}
use synxed_solana_protocol.Studio.Worker.PaidEvent.{PaysEvent, resolve-PaysEvent}
use synxed_solana_protocol.Studio.Worker.Batch.{ids_of, keys_of, run-Returns}
use synxed_solana_protocol.Studio.Worker.RecordClear.{resolve-IsClear}
use synxed_solana_protocol.Studio.Worker.SettleClear.{settle-IsClear}
use synxed_solana_protocol.Tests.Splits.{sample_request}
use synxed_solana_protocol.Tests.Ledgers.{sample_transaction, sample_reconciliation}
use synxed_solana_protocol.Tests.Clients.{sample_library, record_account}
use synxed_solana_protocol.Tests.Stores.{empty_store}

-- The record's history: one page of one signature, and its transaction.
abbrev one_signature : History ℕ
one_signature = record {
  page = λ before limit. elim before [
    | none ↦ some (record { signature = "sig"; failed = false } ∷ [])
    | some _ ↦ none
  ];
  batch = λ signatures. some (some sample_transaction ∷ []);
  single = λ signature. none;
}

abbrev sample_network : Network ℕ
sample_network = record {
  World = Unit;
  latest_blockhash = λ s. (ok ("hash", 9), s);
  account = λ provider key s. (ok (some record_account), s);
  history = λ s. ((λ key. one_signature), s);
  watch = λ provider signature s. (
    record { genesis = ok (genesis_hash devnet); first = ok (some sample_transaction); later = [] },
    s,
  );
  signature_status = λ signature s. (ok none, s);
  block_height = λ s. (ok 10, s);
  send = λ raw s. (accepted, s);
  resend = λ raw s. (tt, s);
  before_send = λ id signature s. (ok tt, s);
  rounds = λ s. (1, s);
  sign = λ instructions blockhash. ok ("sig", "raw");
  error_text = λ x. "error";
  request_key = λ request params. request.event_id;
}

abbrev worker_options : WorkerOptions ℕ
worker_options = record {
  has_second = true;
  payer = 20;
  authority = some 21;
  program_id = 7;
  namespace = 22;
  lamports_per_atomic_unit = pos 1;
  cluster = none;
  max_attempts = none;
  timing = record { finality_timeout = none; poll_interval = none };
}

abbrev stored_event : StoredEvent
stored_event = pending_event sample_request ((" artist", "artist-7") ∷ []) "2025"

abbrev expired_attempt : StoredAttempt
expired_attempt = with_attempt_status AttemptStatus.expired none (
    prepared_attempt "e1" 1 sample_request
      (current_params sample sample_library sample_network worker_options))

abbrev tried : Store
tried = with_tables (with_attempt 1 stored_event ∷ []) (expired_attempt ∷ []) empty_store

abbrev waiting : Store
waiting = with_tables (stored_event ∷ []) (expired_attempt ∷ []) empty_store

abbrev at : Store → State Unit
at store = record { store = store; world = tt }

tried_not_pending : IsClear "e1" tried
unfolding none_pending
tried_not_pending = inl refl

resolve-IsClear_example :
    IsClear "e1"
      (resolve sample sample_library sample_network worker_options "e1" (at tried)).1.store
resolve-IsClear_example =
    resolve-IsClear sample sample_library sample_network worker_options "e1" (at tried)
      tried_not_pending

settle-IsClear_example :
    IsClear "e1"
      (settle sample sample_library sample_network worker_options stored_event (at waiting)).1.store
settle-IsClear_example =
    settle-IsClear sample sample_library sample_network worker_options stored_event (at waiting)
      (refl, tt)

-- The event's payment, recorded with the attempt that did not land by itself.
abbrev paid_store : Store
paid_store =
    record_paid "e1" none sample_reconciliation.settlement sample_reconciliation.direct_entries
      sample_reconciliation.pool_payouts tried

resolved :
    resolve sample sample_library sample_network worker_options "e1" (at tried)
    ≡ (ok Outcome.paid, at paid_store)
unfolding resolve resolve_event resolve_in_flight resolve_attempts resolve_landed resolve_read
    resolve_record resolve_found resolve_created resolve_results resolve_matched resolve_agreed
    resolve_rows second_disagrees fails_to_match find_created may_still_land attempt_may_land
    find_elsewhere fetch_record reconcile reconcile_each distinct_requests first_matched
    landed_attempt find_event attempts_of ◌>>=◌ event_id_seed find_settlement_record_pda assert_seed
    zeros read_settlement_record find_settlement_transaction find_creating_transaction read_pages
    read_batches matches_of fetch_finalized set_batch fetch_singles settlement_in decode_data
    instruction_tag reconcile_settlement_n finalized_transaction assert_ledger_cluster poll
    observe_program_settlement check_transaction find_settlement_instruction from_program all_raw
    settlements_of check_beside the_settlement extract_memo find_group collect parse_system_transfer
    read_system_transfer decode_settle_n_data decode_settle_n_bytes read_bps write_settle_n
    overwrite set_at set_bps le_bytes reconcile_observed_settlement_n check_observed
    compute_settlement_n check_labels payouts_n split_amount_atomic_shares assert_bps_shares sum_bps
    assert_bps split_loop big_int assert_namespace same_numbers same_strings assert_memo sorted
    insert_sorted expected_transfers observed_transfers check_ids to_hex trim show_ℤ succeeded
    has_event_seed read_digits of_le
resolved = refl

resolve-PaysEvent_example :
    (e : StoredEvent) × (event "e1" tried ≡ some e)
    × (same_event_status e.status EventStatus.in_flight ≡ true)
    × PaysEvent sample sample_library sample_network worker_options e
        (attempts_of e.event_id tried.attempt_rows)
        (at tried)
        (at paid_store)
resolve-PaysEvent_example =
    resolve-PaysEvent sample sample_library sample_network worker_options "e1" (at tried)
      (at paid_store) resolved

run-Returns_example :
    (resolved : List (String × Outcome)) × (settled : List (String × Outcome)) × (between : State
      Unit)
    × (t : State Unit) × (run sample sample_library sample_network worker_options 10 (at tried)
        ≡ (ok (resolved, settled), t))
    × (resolve_all sample sample_library sample_network worker_options
          (events_with_status EventStatus.in_flight none tried)
          (at tried)
        ≡ (ok resolved, between))
    × (keys_of resolved ≡ ids_of (events_with_status EventStatus.in_flight none tried))
    × (keys_of settled ≡ ids_of (events_with_status EventStatus.pending (some 10) between.store))
run-Returns_example = run-Returns sample sample_library sample_network worker_options 10 (at tried)

abbrev sample_watch : Watch ℕ
sample_watch = record {
  genesis = ok (genesis_hash devnet);
  first = ok none;
  later = ok (some sample_transaction) ∷ [];
}

abbrev signature_options : ReconcileSettlementOptions ℕ
signature_options = record {
  signature = "sig";
  program_id = 7;
  timing = record { finality_timeout = none; poll_interval = none };
  request = sample_request;
  namespace = 22;
  units_per_atomic_unit = pos 1;
  cluster = none;
  beneficiary_ids = some ((" artist", "artist-7") ∷ []);
  pooled_labels = none;
  allow_legacy_memo = none;
}

reconciled_signature :
    reconcile_settlement_n sample signature_options sample_watch ≡ ok sample_reconciliation
unfolding event_id_seed assert_seed zeros decode_data has_event_seed instruction_tag
    reconcile_settlement_n finalized_transaction assert_ledger_cluster poll
    observe_program_settlement check_transaction find_settlement_instruction from_program all_raw
    settlements_of check_beside the_settlement extract_memo find_group collect parse_system_transfer
    read_system_transfer decode_settle_n_data decode_settle_n_bytes read_bps write_settle_n
    overwrite set_at set_bps le_bytes of_le read_digits reconcile_observed_settlement_n
    check_observed compute_settlement_n check_labels payouts_n split_amount_atomic_shares
    assert_bps_shares sum_bps assert_bps split_loop big_int assert_namespace same_numbers
    same_strings assert_memo sorted insert_sorted expected_transfers observed_transfers check_ids
    to_hex trim show_ℤ find_settlement_record_pda
reconciled_signature = refl

reconcile_settlement_n-observed_example :
    (transaction : ParsedTransaction ℕ) × (observation : ProgramSettlementObservation)
    × (waited : ℕ) × (rest : List (Result (Option (ParsedTransaction ℕ)))) × (sample_watch.genesis
        ≡ ok (genesis_hash devnet))
    × (sample_watch.first ∷ sample_watch.later ≡ waits waited ++ (ok (some transaction) ∷ rest))
    × (observe_program_settlement sample transaction "sig" 7 ≡ ok observation)
    × (reconcile_observed_settlement_n sample (record {
      observation = observation;
      request = sample_request;
      namespace = 22;
      units_per_atomic_unit = pos 1;
      cluster = some devnet;
      beneficiary_ids = some ((" artist", "artist-7") ∷ []);
      pooled_labels = none;
      allow_legacy_memo = none;
    })
        ≡ ok sample_reconciliation)
reconcile_settlement_n-observed_example =
    reconcile_settlement_n-observed sample signature_options sample_watch sample_reconciliation
      reconciled_signature
