-- ===== src/Ledger/TokenReconcile.antt =====
-- sdk/typescript/src/ledger.ts: reconciling a request with the evidence of its token settlement.
use synxed_solana_protocol.Base.{
  Bool, true, false, not, ◌||◌, Option, some, List, [], ◌∷◌, map, if◌then◌else◌,
}
use synxed_solana_protocol.Base.Int.{ℤ, pos, ◌*ℤ◌, leb_ℤ, eqb_ℤ}
use synxed_solana_protocol.Base.Text.{String, ◌===◌}
use synxed_solana_protocol.Base.Decimal.{show_ℤ}
use synxed_solana_protocol.Types.{
  JsNumber, Result, ok, ◌>>=◌, ◌>>◌, throw_if, or_throw, Exception, ledger, runtime,
  LedgerErrorCode, SettlementAsset, SettlementRequestN, ShareInput,
}
use synxed_solana_protocol.Split.{compute_settlement_n, split_amount_atomic_shares, bps_of}
use synxed_solana_protocol.Solana.{Solana}
use synxed_solana_protocol.Instruction.Encode.{event_id_seed}
use synxed_solana_protocol.Ledger.Evidence.{
  ObservedTokenTransfer, ProgramTokenSettlementObservation, LedgerCluster, PayoutLine,
  SettlementMode, SettlementReconciliation,
}
use synxed_solana_protocol.Ledger.Observe.{to_hex}
use synxed_solana_protocol.Ledger.Match.{
  token_transfer_key, same_number, same_numbers, same_strings, sorted, assert_token_memo,
  canonical_role,
}
use synxed_solana_protocol.Ledger.Reconcile.{
  given, check_ids, beneficiary, direct_entries_of, pool_payouts_of, assert_namespace, settled_at,
}

-- Options left out are none.
pub record ReconcileTokenOptions (Key : Type 0) : Type 0 where
  pub observation : ProgramTokenSettlementObservation
  pub request : SettlementRequestN
  pub namespace : Key
  pub token_base_units_per_atomic_unit : ℤ
  pub mint : Key
  pub decimals : JsNumber
  pub cluster : Option LedgerCluster
  pub beneficiary_ids : Option (List (String × String))
  pub pooled_labels : Option (List String)

abbrev pub is_token : SettlementAsset → Bool
is_token SettlementAsset.sol_lamports_standin = false
is_token _ = true

abbrev pub bad_recipient : Exception
bad_recipient = ledger LedgerErrorCode.recipient_mismatch

-- The keys of the transfers due from `source`, without those of nothing. The decimals are the
-- observed ones, which were compared with the options' before.
unfoldable pub expected_token_transfers : String → String → ℤ → List String → List ℤ → List String
expected_token_transfers source mint decimals (account ∷ accounts) (amount ∷ amounts) =
    let rest = expected_token_transfers source mint decimals accounts amounts in
    if eqb_ℤ amount (pos 0)
    then rest
    else token_transfer_key source account mint amount decimals ∷ rest
expected_token_transfers source mint decimals _ _ = []

abbrev pub observed_token_transfers : List ObservedTokenTransfer → List String
observed_token_transfers = map (λ (t : ObservedTokenTransfer).
    token_transfer_key t.source t.destination t.mint (pos t.amount_on_chain) t.decimals)

unfoldable pub token_payout_lines :
    List (String × String) → List String → List ShareInput → List String → List ℤ → List PayoutLine
token_payout_lines ids pooled (share ∷ shares) (account ∷ accounts) (amount ∷ amounts) =
    record {
      role = canonical_role share.label;
      recipient = share.recipient;
      bps = share.bps;
      amount_on_chain = show_ℤ amount;
      beneficiary_id = beneficiary ids pooled share;
      destination_account = account;
    }
    ∷ token_payout_lines ids pooled shares accounts amounts
token_payout_lines ids pooled _ _ _ = []

abbrev pub token_lines_of :
    {Key : Type 0} → ReconcileTokenOptions Key → List String → List ℤ → List PayoutLine
token_lines_of options accounts amounts =
    token_payout_lines (given options.beneficiary_ids [])
      (given options.pooled_labels ("rewards_pool" ∷ [])) options.request.shares accounts amounts

module _ (w : Solana) where
  open w use {PublicKey, to_base58, from_base58, associated_token_address}

  -- `new PublicKey(share.recipient)` of each share.
  unfoldable pub recipient_wallets : List ShareInput → Result (List PublicKey)
  recipient_wallets [] = ok []
  recipient_wallets (share ∷ shares) = do
    key ← or_throw (from_base58 share.recipient) bad_recipient
    keys ← recipient_wallets shares
    ok (key ∷ keys)

  -- The wallets' associated token accounts.
  unfoldable pub token_accounts : PublicKey → List PublicKey → Result (List String)
  token_accounts mint [] = ok []
  token_accounts mint (owner ∷ owners) = do
    account ← or_throw (associated_token_address mint owner true) runtime
    accounts ← token_accounts mint owners
    ok (to_base58 account ∷ accounts)

  -- The comparisons, in their order; the recipients' token accounts and the amounts.
  unfoldable pub check_observed_token :
      ReconcileTokenOptions PublicKey → Result (List String × List ℤ)
  check_observed_token options = do
    let observation = options.observation
    let request = options.request
    let mint = to_base58 options.mint
    _ ← compute_settlement_n request
    throw_if (not (is_token request.asset)) (ledger LedgerErrorCode.asset_mismatch)
    throw_if (leb_ℤ options.token_base_units_per_atomic_unit (pos 0))
        (ledger LedgerErrorCode.scale_range)
    let total = request.amount_atomic *ℤ options.token_base_units_per_atomic_unit
    assert_namespace w observation.namespace options.namespace
    seed ← event_id_seed w request.event_id
    throw_if (not (observation.event_seed_hex === to_hex seed))
        (ledger LedgerErrorCode.event_mismatch)
    throw_if (not (eqb_ℤ (pos observation.amount_on_chain) total))
        (ledger LedgerErrorCode.amount_mismatch)
    throw_if
        (not (observation.mint === mint) || not (same_number observation.decimals options.decimals))
        (ledger LedgerErrorCode.asset_mismatch)
    throw_if (not (same_numbers observation.bps (bps_of request.shares)))
        (ledger LedgerErrorCode.shares_mismatch)
    payer ← or_throw (from_base58 observation.payer) bad_recipient
    wallets ← recipient_wallets request.shares
    source ← or_throw (associated_token_address options.mint payer false) runtime
    throw_if (not (observation.source_token_account === to_base58 source)) bad_recipient
    accounts ← token_accounts options.mint wallets
    throw_if (not (same_strings observation.recipient_token_accounts accounts)) bad_recipient
    assert_token_memo observation.memo request total mint options.decimals
    amounts ← split_amount_atomic_shares total (bps_of request.shares)
    throw_if
        (not (
          same_strings
            (sorted (
              expected_token_transfers observation.source_token_account mint
                (pos observation.decimals) accounts amounts))
            (sorted (observed_token_transfers observation.transfers))))
        (ledger LedgerErrorCode.transfer_mismatch)
    check_ids (given options.beneficiary_ids [])
    ok (accounts, amounts)

  unfoldable pub reconcile_observed_token_settlement_n :
      ReconcileTokenOptions PublicKey → Result SettlementReconciliation
  reconcile_observed_token_settlement_n options = do
    let observation = options.observation
    let request = options.request
    (accounts, amounts) ← check_observed_token options
    let payouts = token_lines_of options accounts amounts
    at ← settled_at w observation.block_time
    ok (record {
      settlement = record {
        event_id = request.event_id;
        signature = observation.signature;
        slot = observation.slot;
        cluster = given options.cluster LedgerCluster.devnet;
        program_id = observation.program_id;
        namespace = observation.namespace;
        authority = observation.authority;
        payer = observation.payer;
        settlement_record = observation.settlement_record;
        mode = SettlementMode.program_token;
        asset = request.asset;
        mint = some (to_base58 options.mint);
        decimals = some options.decimals;
        amount_atomic = show_ℤ request.amount_atomic;
        units_per_atomic_unit = show_ℤ options.token_base_units_per_atomic_unit;
        payouts = payouts;
        occurred_at = request.occurred_at;
        settled_at = at;
      };
      direct_entries = direct_entries_of w observation.signature payouts;
      pool_payouts = pool_payouts_of payouts;
    })
