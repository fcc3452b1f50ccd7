-- ===== src/Ledger/Reconcile.antt =====
-- sdk/typescript/src/ledger.ts: reconciling a request with the evidence of its settlement.
use synxed_solana_protocol.Base.{
  Bool, true, false, not, Option, none, some, List, [], ◌∷◌, map, if◌then◌else◌,
}
use synxed_solana_protocol.Base.Int.{ℤ, pos, ◌*ℤ◌, leb_ℤ, eqb_ℤ}
use synxed_solana_protocol.Base.Text.{String, ◌===◌, trim, has}
use synxed_solana_protocol.Base.Decimal.{show_ℤ}
use synxed_solana_protocol.Types.{
  Result, ok, ◌>>=◌, ◌>>◌, throw_if, or_throw, ledger, runtime, LedgerErrorCode, SettlementAsset,
  SettlementRequestN, ShareInput,
}
use synxed_solana_protocol.Split.{compute_settlement_n, split_amount_atomic_shares, bps_of}
use synxed_solana_protocol.Solana.{Solana}
use synxed_solana_protocol.Instruction.Encode.{event_id_seed}
use synxed_solana_protocol.Ledger.Evidence.{
  ObservedTransfer, ProgramSettlementObservation, LedgerCluster, LedgerEntryState, PayoutLine,
  LedgerEntry, SettlementMode, SettlementReconciliation,
}
use synxed_solana_protocol.Ledger.Observe.{to_hex}
use synxed_solana_protocol.Ledger.Match.{
  transfer_key, same_numbers, same_strings, sorted, assert_memo, canonical_role, part,
}
use Prim.Native.String.{◌++◌}

-- Options left out are none. A record of texts by label is a list of its entries.
pub record ReconcileOptions (Key : Type 0) : Type 0 where
  pub observation : ProgramSettlementObservation
  pub request : SettlementRequestN
  pub namespace : Key
  pub units_per_atomic_unit : ℤ
  pub cluster : Option LedgerCluster
  pub beneficiary_ids : Option (List (String × String))
  pub pooled_labels : Option (List String)
  pub allow_legacy_memo : Option Bool

abbrev pub id_of : List (String × String) → String → Option String
id_of [] label = none
id_of ((name, id) ∷ ids) label = if name === label then some id else id_of ids label

unfoldable pub check_ids : List (String × String) → Result (Unit {0})
check_ids [] = ok tt
check_ids ((_, id) ∷ ids) = do
  throw_if (trim id === "") (ledger LedgerErrorCode.recipient_mismatch)
  check_ids ids

abbrev pub recipients_of : List ShareInput → List String
recipients_of = map (λ (s : ShareInput). s.recipient)

-- The keys of the transfers that pay the shares, without those of nothing.
unfoldable pub expected_transfers : String → List ShareInput → List ℤ → List String
expected_transfers payer (share ∷ shares) (amount ∷ amounts) =
    let rest = expected_transfers payer shares amounts in
    if eqb_ℤ amount (pos 0) then rest else transfer_key payer share.recipient amount ∷ rest
expected_transfers payer _ _ = []

-- The keys of the observed transfers, without those to the record.
unfoldable pub observed_transfers : String → List ObservedTransfer → List String
observed_transfers settlement_record [] = []
observed_transfers settlement_record (t ∷ ts) =
    let rest = observed_transfers settlement_record ts in
    if t.destination === settlement_record
    then rest
    else transfer_key t.source t.destination (pos t.amount_on_chain) ∷ rest

-- The default of an option.
abbrev pub given {ℓ} : {A : Type ℓ} → Option A → A → A
given none value = value
given (some a) _ = a

abbrev pub beneficiary : List (String × String) → List String → ShareInput → Option String
beneficiary ids pooled share =
    if has pooled share.label
    then none
    else some (given (id_of ids share.label) ("wallet:" ++ share.recipient))

unfoldable pub payout_lines :
    List (String × String) → List String → List ShareInput → List ℤ → List PayoutLine
payout_lines ids pooled (share ∷ shares) (amount ∷ amounts) =
    record {
      role = canonical_role share.label;
      recipient = share.recipient;
      bps = share.bps;
      amount_on_chain = show_ℤ amount;
      beneficiary_id = beneficiary ids pooled share;
      destination_account = share.recipient;
    }
    ∷ payout_lines ids pooled shares amounts
payout_lines ids pooled _ _ = []

abbrev pub is_pooled : PayoutLine → Bool
is_pooled line = elim line.beneficiary_id [ none ↦ true | some _ ↦ false ]

unfoldable pub pool_payouts_of : List PayoutLine → List PayoutLine
pool_payouts_of [] = []
pool_payouts_of (line ∷ lines) =
    let rest = pool_payouts_of lines in if is_pooled line then line ∷ rest else rest

abbrev pub is_lamports : SettlementAsset → Bool
is_lamports SettlementAsset.sol_lamports_standin = true
is_lamports _ = false

abbrev pub lines_of : {Key : Type 0} → ReconcileOptions Key → List ℤ → List PayoutLine
lines_of options amounts =
    payout_lines (given options.beneficiary_ids [])
      (given options.pooled_labels ("rewards_pool" ∷ [])) options.request.shares amounts

module _ (w : Solana) where
  open w use {PublicKey, to_base58, sha256, utf8, iso_string}

  unfoldable pub ledger_entry_id : String → String → String → String
  ledger_entry_id signature role beneficiary_id =
      to_hex (sha256 (utf8 (part signature (part role beneficiary_id))))

  abbrev pub direct_entry : String → PayoutLine → String → LedgerEntry
  direct_entry signature line id = record {
    entry_id = ledger_entry_id signature line.role id;
    beneficiary_id = id;
    wallet = some line.recipient;
    role = line.role;
    pool = none;
    amount_on_chain = line.amount_on_chain;
    source_signature = signature;
    state = LedgerEntryState.paid;
    paid_signature = some signature;
  }

  unfoldable pub direct_entries_of : String → List PayoutLine → List LedgerEntry
  direct_entries_of signature [] = []
  direct_entries_of signature (line ∷ lines) =
      let rest = direct_entries_of signature lines in
      elim line.beneficiary_id [ none ↦ rest | some id ↦ direct_entry signature line id ∷ rest ]

  unfoldable pub assert_namespace : String → PublicKey → Result (Unit {0})
  assert_namespace observed expected =
      throw_if (not (observed === to_base58 expected)) (ledger LedgerErrorCode.namespace_mismatch)

  -- `new Date(blockTime * 1000).toISOString()`
  abbrev pub settled_at : ℤ → Result String
  settled_at block_time = or_throw (iso_string (block_time *ℤ pos 1000)) runtime

  -- The comparisons, in their order; the amounts are those of the payouts.
  unfoldable pub check_observed : ReconcileOptions PublicKey → Result (List ℤ)
  check_observed options = do
    let observation = options.observation
    let request = options.request
    _ ← compute_settlement_n request
    throw_if (leb_ℤ options.units_per_atomic_unit (pos 0)) (ledger LedgerErrorCode.scale_range)
    assert_namespace observation.namespace options.namespace
    seed ← event_id_seed w request.event_id
    throw_if (not (observation.event_seed_hex === to_hex seed))
        (ledger LedgerErrorCode.event_mismatch)
    let total = request.amount_atomic *ℤ options.units_per_atomic_unit
    throw_if (not (eqb_ℤ (pos observation.amount_on_chain) total))
        (ledger LedgerErrorCode.amount_mismatch)
    throw_if (not (is_lamports request.asset)) (ledger LedgerErrorCode.asset_mismatch)
    throw_if (not (same_numbers observation.bps (bps_of request.shares)))
        (ledger LedgerErrorCode.shares_mismatch)
    throw_if (not (same_strings observation.recipients (recipients_of request.shares)))
        (ledger LedgerErrorCode.recipient_mismatch)
    assert_memo observation.memo request total (given options.allow_legacy_memo false)
    amounts ← split_amount_atomic_shares total (bps_of request.shares)
    throw_if
        (not (
          same_strings (sorted (expected_transfers observation.payer request.shares amounts))
            (sorted (observed_transfers observation.settlement_record observation.transfers))))
        (ledger LedgerErrorCode.transfer_mismatch)
    check_ids (given options.beneficiary_ids [])
    ok amounts

  unfoldable pub reconcile_observed_settlement_n :
      ReconcileOptions PublicKey → Result SettlementReconciliation
  reconcile_observed_settlement_n options = do
    let observation = options.observation
    let request = options.request
    amounts ← check_observed options
    let payouts = lines_of options amounts
    at ← settled_at observation.block_time
    ok (record {
      settlement = record {
        event_id = request.event_id;
        signature = observation.signature;
        slot = observation.slot;
        cluster = given options.cluster LedgerCluster.devnet;
        program_id = observation.program_id;
        namespace = observation.namespace;
        authority = observation.authority;
        payer = observation.payer;
        settlement_record = observation.settlement_record;
        mode = SettlementMode.program;
        asset = request.asset;
        mint = none;
        decimals = none;
        amount_atomic = show_ℤ request.amount_atomic;
        units_per_atomic_unit = show_ℤ options.units_per_atomic_unit;
        payouts = payouts;
        occurred_at = request.occurred_at;
        settled_at = at;
      };
      direct_entries = direct_entries_of observation.signature payouts;
      pool_payouts = pool_payouts_of payouts;
    })
