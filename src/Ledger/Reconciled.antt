-- ===== src/Ledger/Reconciled.antt =====
-- What a reconciliation of a native settlement guarantees of what it returns.
use synxed_solana_protocol.Base.{
  ℕ, ◌≡◌, refl, ◌∙◌, inl, inr, ◌⊎◌, Bool-cases, map, Option, none, some, true, false, List, [], ◌∷◌,
  length, length-map, arith, if◌then◌else◌,
}
use synxed_solana_protocol.Base.Int.{ℤ, pos}
use synxed_solana_protocol.Base.Text.{String}
use synxed_solana_protocol.Base.Decimal.{show_ℤ}
use synxed_solana_protocol.Bytes.{Bytes}
use synxed_solana_protocol.Types.{ShareInput, SplitResultN, ok, Result-cases}
use synxed_solana_protocol.Split.{bps_of}
use synxed_solana_protocol.Split.Payouts.{sum_ℤ, split_conserves, IsSplit-iff}
use synxed_solana_protocol.Solana.{Solana}
use synxed_solana_protocol.Ledger.Evidence.{
  ObservedTransfer, PayoutLine, LedgerEntry, LedgerEntryState, SettlementReconciliation,
}
use synxed_solana_protocol.Ledger.Reconcile.{
  ReconcileOptions, payout_lines, pool_payouts_of, direct_entries_of, direct_entry, ledger_entry_id,
  reconcile_observed_settlement_n, check_observed, lines_of, settled_at, expected_transfers,
  observed_transfers,
}
use synxed_solana_protocol.Ledger.Matched.{IsMatched, total_of, check_observed-IsMatched, count}
use synxed_solana_protocol.Ledger.Keys.{times}
use synxed_solana_protocol.Ledger.Transfers.{same_transfer, due, others, are_plain, times-due}
use mathlib.Core.Path.{subst}

-- The lines are one for each share, in order: its recipient, its basis points and its amount.
abbrev pub IsPaidTo : List ShareInput → List ℤ → List PayoutLine → Type 0
IsPaidTo (s ∷ ss) (a ∷ amounts) (p ∷ ps) =
    (p.recipient ≡ s.recipient)
    × (p.bps ≡ s.bps)
    × (p.amount_on_chain ≡ show_ℤ a)
    × IsPaidTo ss amounts ps
IsPaidTo [] [] [] = Unit
IsPaidTo _ _ _ = ⊥

payout_lines-IsPaidTo :
    (ids : List (String × String)) (pooled : List String) (shares : List ShareInput)
    (amounts : List ℤ)
    → length amounts ≡ length shares
    → IsPaidTo shares amounts (payout_lines ids pooled shares amounts)
unfolding payout_lines
payout_lines-IsPaidTo ids pooled [] [] h = tt
payout_lines-IsPaidTo ids pooled [] (a ∷ amounts) h = absurd (omega arith)
payout_lines-IsPaidTo ids pooled (s ∷ shares) [] h = absurd (omega arith)
payout_lines-IsPaidTo ids pooled (s ∷ shares) (a ∷ amounts) h =
    (refl, refl, refl, payout_lines-IsPaidTo ids pooled shares amounts (omega arith))

module _ (w : Solana) where
  open w use {PublicKey}

  -- The paid entry of a line of a beneficiary.
  pub record IsPaid (signature : String) (line : PayoutLine) (id : String) (entry : LedgerEntry)
      : Type 0 where
    pub of_line : line.beneficiary_id ≡ some id
    pub to_beneficiary : entry.beneficiary_id ≡ id
    pub to_wallet : entry.wallet ≡ some line.recipient
    pub of_amount : entry.amount_on_chain ≡ line.amount_on_chain
    pub settled : entry.state ≡ LedgerEntryState.paid
    pub named : entry.entry_id ≡ ledger_entry_id w signature line.role id
    pub by_signature : entry.paid_signature ≡ some signature

  -- Each line, in order, is either pooled or has its paid entry; nothing else is in either list.
  pub data IsDivided (signature : String)
      : List PayoutLine → List LedgerEntry → List PayoutLine → Type 0 where
    nothing : IsDivided signature [] [] []
    direct :
        (id : String) {line : PayoutLine} {entry : LedgerEntry} {lines pooled : List PayoutLine}
        {entries : List LedgerEntry}
        → IsPaid signature line id entry
        → IsDivided signature lines entries pooled
        → IsDivided signature (line ∷ lines) (entry ∷ entries) pooled
    pool :
        {line : PayoutLine} {lines pooled : List PayoutLine} {entries : List LedgerEntry}
        → line.beneficiary_id ≡ none
        → IsDivided signature lines entries pooled
        → IsDivided signature (line ∷ lines) entries (line ∷ pooled)

  -- One line more, by whether it has a beneficiary.
  line-IsDivided :
      (signature : String) (line : PayoutLine) (b : Option String) {lines pooled : List PayoutLine}
      {entries : List LedgerEntry}
      → line.beneficiary_id ≡ b
      → IsDivided signature lines entries pooled
      → IsDivided signature
          (line ∷ lines)
          (elim b [ none ↦ entries | some id ↦ direct_entry w signature line id ∷ entries ])
          (if elim b [ none ↦ true | some _ ↦ false ] then line ∷ pooled else pooled)
  line-IsDivided signature line none e d = IsDivided.pool e d
  line-IsDivided signature line (some id) e d =
      IsDivided.direct id
        (record {
          of_line = e;
          to_beneficiary = refl;
          to_wallet = refl;
          of_amount = refl;
          settled = refl;
          named = refl;
          by_signature = refl;
        })
        d

  pub entries-IsDivided :
      (signature : String) (lines : List PayoutLine)
      → IsDivided signature lines (direct_entries_of w signature lines) (pool_payouts_of lines)
  unfolding direct_entries_of pool_payouts_of
  entries-IsDivided signature [] = IsDivided.nothing
  entries-IsDivided signature (line ∷ lines) =
      line-IsDivided signature line line.beneficiary_id refl (entries-IsDivided signature lines)

  -- Each transfer is observed, beside those to the record, as often as the payer owes it to a share.
  abbrev pub AreDue : ReconcileOptions PublicKey → List ℕ → Type 0
  AreDue options ps =
      (t : ObservedTransfer)
      → times same_transfer t (due options.observation.payer options.request.shares ps)
        ≡ times same_transfer t
            (others options.observation.settlement_record options.observation.transfers)

  IsMatched-AreDue :
      (options : ReconcileOptions PublicKey) (amounts : List ℤ) (result : SplitResultN)
      (seed : Bytes)
      → IsMatched w options amounts result seed
      → (ps : List ℕ) × (amounts ≡ map pos ps)
        × ((are_plain options.observation.payer options.request.shares options.observation.transfers
              ≡ false)
            ⊎ AreDue options ps)
  IsMatched-AreDue options amounts result seed m =
      let payer = options.observation.payer in
      let shares = options.request.shares in
      let transfers = options.observation.transfers in
      let (_, _, ps, s) = (IsSplit-iff (total_of w options) (bps_of shares) amounts).0 m.split in
      (
        ps,
        s.payouts_eq,
        elim (Bool-cases (are_plain payer shares transfers)) [
          | inr q ↦ inl q
          | inl q ↦ inr (
              times-due payer options.observation.settlement_record shares ps transfers
                (subst
                  (λ (xs : List ℤ).
                    (k : String)
                    → count k (expected_transfers payer shares xs)
                      ≡ count k
                          (observed_transfers options.observation.settlement_record transfers))
                  s.payouts_eq m.same_keys)
                q)
        ],
      )

  pub record IsReconciled (options : ReconcileOptions PublicKey) (result : SplitResultN)
      (seed : Bytes) (amounts : List ℤ) (r : SettlementReconciliation) : Type 0 where
    pub matched : IsMatched w options amounts result seed
    pub conserved : sum_ℤ amounts ≡ total_of w options
    pub transferred :
        (ps : List ℕ) × (amounts ≡ map pos ps)
        × ((are_plain options.observation.payer options.request.shares options.observation.transfers
              ≡ false)
            ⊎ AreDue options ps)
    pub paid_to : IsPaidTo options.request.shares amounts r.settlement.payouts
    pub divided :
        IsDivided options.observation.signature r.settlement.payouts r.direct_entries r.pool_payouts
    pub same_event : r.settlement.event_id ≡ options.request.event_id
    pub same_signature : r.settlement.signature ≡ options.observation.signature
    pub same_namespace : r.settlement.namespace ≡ options.observation.namespace

  IsReconciled-at :
      (options : ReconcileOptions PublicKey) (r : SettlementReconciliation) (amounts : List ℤ)
      (result : SplitResultN) (seed : Bytes) (at : String)
      → reconcile_observed_settlement_n w options ≡ ok r
      → check_observed w options ≡ ok amounts
      → settled_at w options.observation.block_time ≡ ok at
      → IsMatched w options amounts result seed
      → IsReconciled options result seed amounts r
  unfolding reconcile_observed_settlement_n
  IsReconciled-at options r amounts result seed at h e f m =
      let (total, count) =
        split_conserves (total_of w options) (bps_of options.request.shares) amounts m.split in
      let lines : r.settlement.payouts ≡ lines_of options amounts = ground arith in
      let direct : r.direct_entries
          ≡ direct_entries_of w options.observation.signature (lines_of options amounts) =
        ground arith in
      let pooled : r.pool_payouts ≡ pool_payouts_of (lines_of options amounts) = ground arith in
      record {
        matched = m;
        conserved = total;
        transferred = IsMatched-AreDue options amounts result seed m;
        paid_to = rw lines (
            payout_lines-IsPaidTo _ _ options.request.shares amounts
              (count ∙ length-map (λ (s : ShareInput). s.bps) options.request.shares));
        divided =
            rw (lines, direct, pooled)
              (entries-IsDivided options.observation.signature (lines_of options amounts));
        same_event = ground arith;
        same_signature = ground arith;
        same_namespace = ground arith;
      }

  -- A native settlement is reconciled only with evidence that matches its request: the computed
  -- settlement is valid, the namespace, the event, the amount times the units, the basis points,
  -- the recipients and the memo agree. Beside the transfers to the record, each transfer, a source,
  -- a destination and an amount, is observed exactly as often as the payer owes it to the shares,
  -- unless the text of the payer, a recipient or an observed account holds U+0000. The payouts are
  -- the shares with the amounts of the split, which sum to that amount, and each payout is either
  -- pooled or has one paid entry.
  pub reconcile_observed_settlement_n-IsReconciled :
      (options : ReconcileOptions PublicKey) (r : SettlementReconciliation)
      → reconcile_observed_settlement_n w options ≡ ok r
      → (result : SplitResultN) × (seed : Bytes) × (amounts : List ℤ) × IsReconciled options result
          seed amounts r
  unfolding reconcile_observed_settlement_n
  reconcile_observed_settlement_n-IsReconciled options r h =
      elim (Result-cases (check_observed w options)) [
        | inr (x, e) ↦ absurd (ground arith)
        | inl (amounts, e) ↦ elim (Result-cases (settled_at w options.observation.block_time)) [
          | inr (x, f) ↦ absurd (ground arith)
          | inl (at, f) ↦
              let (result, seed, m) = check_observed-IsMatched w options amounts e in
              (result, seed, amounts, IsReconciled-at options r amounts result seed at h e f m)
        ]
      ]
