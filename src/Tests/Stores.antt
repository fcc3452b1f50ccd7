-- ===== src/Tests/Stores.antt =====
-- The store of one event, through an attempt and its payment.
use synxed_solana_protocol.Base.{Bool, true, ◌+◌, ◌≡◌, refl, some, List, [], ◌∷◌, ◌++◌}
use synxed_solana_protocol.Base.Int.{ℤ}
use synxed_solana_protocol.Base.Text.{String}
use synxed_solana_protocol.Types.{ok, err, runtime}
use synxed_solana_protocol.Studio.Store.{
  StoredEvent, AttemptParams, Store, Enqueued, event, find_event, update_event, any_attempt,
  with_attempt,
}
use synxed_solana_protocol.Studio.Store.Write.{
  Encoding, enqueue, begin_attempt, record_paid, pending_event, prepared_attempt, with_tables,
  insert_all, insert_or_ignore, has_row,
}
use synxed_solana_protocol.Ledger.Reconcile.{direct_entries_of, payout_lines}
use synxed_solana_protocol.Base.Decimal.{show_ℤ, read_digits}
use synxed_solana_protocol.Studio.Store.Kept.{IsValid, Step}
use synxed_solana_protocol.Studio.Store.Steps.{
  Step-IsValid, begin_attempt-IsValid, begin_attempt-begin_attempt, enqueue-enqueue,
  record_paid-record_paid,
}
use synxed_solana_protocol.Studio.Store.Balances.{
  add_total, add_entries, insert_total, sort_totals, balances, total_for, paid_to, as_texts,
  names_of, balances_total,
}
use synxed_solana_protocol.Base.Distinct.{IsDistinct}
use synxed_solana_protocol.Tests.Splits.{sample_request}
use synxed_solana_protocol.Tests.Ledgers.{sample_reconciliation}

abbrev sample_encoding : Encoding
sample_encoding = record { request_text = λ request. request.event_id; ids_text = λ ids. "{}" }

abbrev sample_attempt_params : AttemptParams
sample_attempt_params = record {
  program_id = "7";
  namespace = "22";
  lamports_per_atomic_unit = "1";
  payer = "20";
  authority = "21";
}

abbrev pub empty_store : Store
empty_store = record { events = []; attempt_rows = []; settlements = []; entries = []; pools = [] }

abbrev sample_event : StoredEvent
sample_event = pending_event sample_request [] "2025"

abbrev one_event : Store
one_event = with_tables (sample_event ∷ []) [] empty_store

abbrev one_attempt : Store
one_attempt =
    with_tables (with_attempt 1 sample_event ∷ [])
      (prepared_attempt "e1" 1 sample_request sample_attempt_params ∷ []) empty_store

enqueued :
    enqueue sample_encoding "2025" sample_request [] empty_store ≡ ok (one_event, Enqueued.added)
unfolding enqueue find_event
enqueued = refl

found : event "e1" one_event ≡ some sample_event
unfolding find_event
found = refl

begun_first :
    begin_attempt "e1" sample_request sample_attempt_params one_event ≡ ok (one_attempt, 1)
unfolding begin_attempt find_event update_event any_attempt
begun_first = refl

Step-IsValid_example : IsValid one_attempt
Step-IsValid_example =
    Step-IsValid one_event one_attempt
      (Step.begins "e1" sample_request sample_attempt_params begun_first) tt

begin_attempt-IsValid_example :
    (t : Store) × (begin_attempt "e1" sample_request sample_attempt_params one_event
      ≡ ok (t, 0 + 1))
    × (event "e1" t ≡ some (with_attempt (0 + 1) sample_event))
    × (t.attempt_rows
        ≡ [] ++ (prepared_attempt "e1" (0 + 1) sample_request sample_attempt_params ∷ []))
begin_attempt-IsValid_example =
    begin_attempt-IsValid "e1" sample_request sample_attempt_params one_event sample_event tt found
      refl

begin_attempt-begin_attempt_example :
    begin_attempt "e1" sample_request sample_attempt_params one_attempt ≡ err runtime
begin_attempt-begin_attempt_example =
    begin_attempt-begin_attempt "e1" sample_request sample_request sample_attempt_params
      sample_attempt_params one_event one_attempt 1 begun_first

enqueue-enqueue_example :
    enqueue sample_encoding "2026" sample_request [] one_event ≡ ok (one_event, Enqueued.unchanged)
enqueue-enqueue_example =
    enqueue-enqueue sample_encoding "2025" "2026" sample_request [] empty_store one_event
      Enqueued.added enqueued

abbrev paid_once : Store
paid_once =
    record_paid "e1" (some 1) sample_reconciliation.settlement sample_reconciliation.direct_entries
      sample_reconciliation.pool_payouts one_attempt

record_paid-record_paid_example :
    record_paid "e1"
      (some 1)
      sample_reconciliation.settlement
      sample_reconciliation.direct_entries
      sample_reconciliation.pool_payouts
      paid_once
    ≡ paid_once
record_paid-record_paid_example =
    record_paid-record_paid "e1" (some 1) sample_reconciliation.settlement
      sample_reconciliation.direct_entries sample_reconciliation.pool_payouts one_attempt

abbrev any_order : String → String → Bool
any_order a b = true

balances_shown : balances any_order paid_once ≡ ok (("artist-7", "600") ∷ [])
unfolding balances add_entries add_total sort_totals insert_total record_paid insert_all
    direct_entries_of payout_lines insert_or_ignore has_row show_ℤ read_digits
balances_shown = refl

balances_total_example :
    (totals : List (String × ℤ)) × (("artist-7", "600") ∷ [] ≡ as_texts totals)
    × IsDistinct (names_of totals)
    × ((k : String) → total_for k totals ≡ paid_to k paid_once.entries)
balances_total_example =
    balances_total any_order paid_once (("artist-7", "600") ∷ []) balances_shown
