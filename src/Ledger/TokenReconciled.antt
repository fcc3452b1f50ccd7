-- ===== src/Ledger/TokenReconciled.antt =====
-- What a reconciliation of a token settlement guarantees of what it returns.
use synxed_solana_protocol.Base.{
  ℕ, ◌≡◌, refl, ◌∙◌, inl, inr, ◌⊎◌, Bool, true, false, List, [], ◌∷◌, map, length, length-map, ap,
  arith, Bool-cases,
}
use synxed_solana_protocol.Base.Int.{ℤ, pos, ◌*ℤ◌, eqb_ℤ_iff}
use synxed_solana_protocol.Base.Text.{String, ===_iff}
use synxed_solana_protocol.Bytes.{Bytes}
use synxed_solana_protocol.Types.{
  int, SplitResultN, ShareInput, ok, >>=-eq-ok, or_throw, Result-cases, runtime,
}
use synxed_solana_protocol.Split.{compute_settlement_n, split_amount_atomic_shares, bps_of}
use synxed_solana_protocol.Split.Shares.{numbers}
use synxed_solana_protocol.Split.Payouts.{sum_ℤ, split_conserves, IsSplit-iff}
use synxed_solana_protocol.Solana.{Solana}
use synxed_solana_protocol.Instruction.Encode.{event_id_seed}
use synxed_solana_protocol.Ledger.Evidence.{
  ObservedTokenTransfer, PayoutLine, SettlementReconciliation,
}
use synxed_solana_protocol.Base.Decimal.{show_ℤ}
use synxed_solana_protocol.Ledger.Keys.{times}
use synxed_solana_protocol.Ledger.TokenTransfers.{
  same_token_transfer, due_tokens, are_plain_tokens, times-due_tokens,
}
use synxed_solana_protocol.Ledger.Observe.{to_hex}
use synxed_solana_protocol.Ledger.Match.{assert_token_memo}
use synxed_solana_protocol.Ledger.Reconcile.{
  assert_namespace, settled_at, direct_entries_of, pool_payouts_of,
}
use synxed_solana_protocol.Ledger.Matched.{
  count, same_sorted, same_strings→eq, same_number→eq, same_numbers→eq,
}
use synxed_solana_protocol.Ledger.Reconciled.{IsDivided, entries-IsDivided}
use synxed_solana_protocol.Ledger.TokenReconcile.{
  ReconcileTokenOptions, is_token, bad_recipient, expected_token_transfers,
  observed_token_transfers, token_lines_of, token_payout_lines, recipient_wallets, token_accounts,
  check_observed_token, reconcile_observed_token_settlement_n,
}
use mathlib.Core.Path.{subst}

-- The lines are one for each share, in order: its recipient, its basis points, its amount and the
-- account it is paid to.
abbrev pub IsTokenPaidTo : List ShareInput → List String → List ℤ → List PayoutLine → Type 0
IsTokenPaidTo (s ∷ ss) (account ∷ accounts) (a ∷ amounts) (p ∷ ps) =
    (p.recipient ≡ s.recipient)
    × (p.bps ≡ s.bps)
    × (p.amount_on_chain ≡ show_ℤ a)
    × (p.destination_account ≡ account)
    × IsTokenPaidTo ss accounts amounts ps
IsTokenPaidTo [] [] [] [] = Unit
IsTokenPaidTo _ _ _ _ = ⊥

token_payout_lines-IsTokenPaidTo :
    (ids : List (String × String)) (pooled : List String) (shares : List ShareInput)
    (accounts : List String) (amounts : List ℤ)
    → length amounts ≡ length shares
    → length accounts ≡ length shares
    → IsTokenPaidTo shares accounts amounts (token_payout_lines ids pooled shares accounts amounts)
unfolding token_payout_lines
token_payout_lines-IsTokenPaidTo ids pooled [] [] [] h i = tt
token_payout_lines-IsTokenPaidTo ids pooled [] [] (a ∷ amounts) h i = absurd (omega arith)
token_payout_lines-IsTokenPaidTo ids pooled [] (account ∷ accounts) amounts h i =
    absurd (omega arith)
token_payout_lines-IsTokenPaidTo ids pooled (s ∷ shares) [] amounts h i = absurd (omega arith)
token_payout_lines-IsTokenPaidTo ids pooled (s ∷ shares) (account ∷ accounts) [] h i =
    absurd (omega arith)
token_payout_lines-IsTokenPaidTo ids pooled (s ∷ shares) (account ∷ accounts) (a ∷ amounts) h i = (
  refl,
  refl,
  refl,
  refl,
  token_payout_lines-IsTokenPaidTo ids pooled shares accounts amounts (omega arith) (omega arith),
)

module _ (w : Solana) where
  open w use {PublicKey, to_base58, from_base58, associated_token_address}

  abbrev pub token_total_of : ReconcileTokenOptions PublicKey → ℤ
  token_total_of options = options.request.amount_atomic *ℤ options.token_base_units_per_atomic_unit

  -- The token evidence agrees with the request.
  pub record IsTokenMatched (options : ReconcileTokenOptions PublicKey) (accounts : List String)
      (amounts : List ℤ) (result : SplitResultN) (seed : Bytes) (payer source : PublicKey)
      (wallets : List PublicKey) : Type 0 where
    pub computed : compute_settlement_n options.request ≡ ok result
    pub token : is_token options.request.asset ≡ true
    pub same_namespace : options.observation.namespace ≡ to_base58 options.namespace
    pub event_seed : event_id_seed w options.request.event_id ≡ ok seed
    pub same_event : options.observation.event_seed_hex ≡ to_hex seed
    pub same_amount : pos options.observation.amount_on_chain ≡ token_total_of options
    pub same_mint : options.observation.mint ≡ to_base58 options.mint
    pub same_decimals : int (pos options.observation.decimals) ≡ options.decimals
    pub same_bps : numbers options.observation.bps ≡ bps_of options.request.shares
    pub wallets_read : recipient_wallets w options.request.shares ≡ ok wallets
    pub accounts_derived : token_accounts w options.mint wallets ≡ ok accounts
    pub same_accounts : options.observation.recipient_token_accounts ≡ accounts
    pub payer_read : or_throw (from_base58 options.observation.payer) bad_recipient ≡ ok payer
    pub source_derived :
        or_throw (associated_token_address options.mint payer false) runtime ≡ ok source
    pub same_source : options.observation.source_token_account ≡ to_base58 source
    pub same_memo :
        assert_token_memo options.observation.memo options.request
          (token_total_of options)
          (to_base58 options.mint)
          options.decimals
        ≡ ok tt
    pub split :
        split_amount_atomic_shares (token_total_of options) (bps_of options.request.shares)
        ≡ ok amounts
    pub same_keys :
        (k : String)
        → count k (
            expected_token_transfers options.observation.source_token_account
              (to_base58 options.mint)
              (pos options.observation.decimals)
              accounts
              amounts)
          ≡ count k (observed_token_transfers options.observation.transfers)

  abbrev pub TokenMatch : ReconcileTokenOptions PublicKey → List String → List ℤ → Type 0
  TokenMatch options accounts amounts =
      (result : SplitResultN) × (seed : Bytes) × (payer : PublicKey) × (source : PublicKey)
      × (wallets : List PublicKey) × IsTokenMatched options accounts amounts result seed payer
          source wallets

  -- The last steps returned too.
  token_steps :
      (options : ReconcileTokenOptions PublicKey) (accounts : List String) (amounts : List ℤ)
      (result : SplitResultN) (seed : Bytes) (payer source : PublicKey) (wallets : List PublicKey)
      → check_observed_token w options ≡ ok (accounts, amounts)
      → compute_settlement_n options.request ≡ ok result
      → event_id_seed w options.request.event_id ≡ ok seed
      → or_throw (from_base58 options.observation.payer) bad_recipient ≡ ok payer
      → recipient_wallets w options.request.shares ≡ ok wallets
      → or_throw (associated_token_address options.mint payer false) runtime ≡ ok source
      → (here : List String) × (due : List ℤ) × (token_accounts w options.mint wallets ≡ ok here)
        × (split_amount_atomic_shares (token_total_of options) (bps_of options.request.shares)
            ≡ ok due)
  unfolding check_observed_token assert_namespace
  token_steps options accounts amounts result seed payer source wallets h e f g i j =
      elim (Result-cases (token_accounts w options.mint wallets)) [
        | inr (x, k) ↦ absurd (ground arith)
        | inl (here, k) ↦
            elim (Result-cases (
              split_amount_atomic_shares (token_total_of options)
                (bps_of options.request.shares))) [
                  | inr (x, l) ↦ absurd (ground arith)
                  | inl (due, l) ↦ (here, due, k, l)
                ]
      ]

  -- The same, with the values that the steps returned.
  token_match_at :
      (options : ReconcileTokenOptions PublicKey) (accounts : List String) (amounts : List ℤ)
      (result : SplitResultN) (seed : Bytes) (payer source : PublicKey) (wallets : List PublicKey)
      → check_observed_token w options ≡ ok (accounts, amounts)
      → compute_settlement_n options.request ≡ ok result
      → event_id_seed w options.request.event_id ≡ ok seed
      → or_throw (from_base58 options.observation.payer) bad_recipient ≡ ok payer
      → recipient_wallets w options.request.shares ≡ ok wallets
      → or_throw (associated_token_address options.mint payer false) runtime ≡ ok source
      → (here : List String) × (due : List ℤ) × (token_accounts w options.mint wallets ≡ ok here)
        × (split_amount_atomic_shares (token_total_of options) (bps_of options.request.shares)
            ≡ ok due)
      → IsTokenMatched options accounts amounts result seed payer source wallets
  unfolding check_observed_token assert_namespace
  token_match_at options accounts amounts result seed payer source wallets h e f g i j
        (here, due, k, l) =
      let same : here ≡ accounts = ground arith in
      let same_due : due ≡ amounts = ground arith in
      record {
        computed = e;
        token = ground arith;
        same_namespace = (===_iff _ _).0 (ground arith);
        event_seed = f;
        same_event = (===_iff _ _).0 (ground arith);
        same_amount = (eqb_ℤ_iff _ _).0 (ground arith);
        same_mint = (===_iff _ _).0 (ground arith);
        same_decimals = same_number→eq _ _ (ground arith);
        same_bps = same_numbers→eq _ _ (ground arith);
        wallets_read = i;
        accounts_derived = k ∙ ap ok same;
        same_accounts = same_strings→eq _ _ (ground arith) ∙ same;
        payer_read = g;
        source_derived = j;
        same_source = (===_iff _ _).0 (ground arith);
        same_memo = ground arith;
        split = l ∙ ap ok same_due;
        same_keys =
            subst
              (λ (t : List String × List ℤ).
                (q : String)
                → count q (
                    expected_token_transfers options.observation.source_token_account
                      (to_base58 options.mint) (pos options.observation.decimals) t.0 t.1)
                  ≡ count q (observed_token_transfers options.observation.transfers))
              (let both : (here, due) ≡ (accounts, amounts) = cc (same, same_due) in both)
              (same_sorted _ _ (ground arith));
      }

  check_observed_token-IsTokenMatched :
      (options : ReconcileTokenOptions PublicKey) (accounts : List String) (amounts : List ℤ)
      → check_observed_token w options ≡ ok (accounts, amounts)
      → TokenMatch options accounts amounts
  unfolding check_observed_token assert_namespace
  check_observed_token-IsTokenMatched options accounts amounts h =
      elim (Result-cases (compute_settlement_n options.request)) [
        | inr (x, e) ↦ absurd (ground arith)
        | inl (result, e) ↦ elim (Result-cases (event_id_seed w options.request.event_id)) [
          | inr (x, f) ↦ absurd (ground arith)
          | inl (seed, f) ↦
              elim (Result-cases (or_throw (from_base58 options.observation.payer) bad_recipient)) [
                | inr (x, g) ↦ absurd (ground arith)
                | inl (payer, g) ↦
                    elim (Result-cases (recipient_wallets w options.request.shares)) [
                      | inr (x, i) ↦ absurd (ground arith)
                      | inl (wallets, i) ↦
                          elim (Result-cases (
                            or_throw (associated_token_address options.mint payer false) runtime)) [
                              | inr (x, j) ↦ absurd (ground arith)
                              | inl (source, j) ↦ (
                                result,
                                seed,
                                payer,
                                source,
                                wallets,
                                token_match_at options accounts amounts result seed payer source
                                    wallets h e f g i j
                                    (token_steps options accounts amounts result seed payer source
                                      wallets h e f g i j),
                              )
                            ]
                    ]
              ]
        ]
      ]

  -- The token transfers that are owed to the recipients' accounts.
  abbrev pub owed :
      ReconcileTokenOptions PublicKey → List String → List ℕ → List ObservedTokenTransfer
  owed options accounts ps =
      due_tokens options.observation.source_token_account (to_base58 options.mint)
        (pos options.observation.decimals) accounts ps

  -- No text that is compared holds U+0000.
  abbrev pub are_plain_keys : ReconcileTokenOptions PublicKey → List String → Bool
  are_plain_keys options accounts =
      are_plain_tokens options.observation.source_token_account (to_base58 options.mint) accounts
        options.observation.transfers

  -- Each transfer is observed as often as the source owes it to a recipient's account.
  abbrev pub AreDueTokens : ReconcileTokenOptions PublicKey → List String → List ℕ → Type 0
  AreDueTokens options accounts ps =
      (t : ObservedTokenTransfer)
      → times same_token_transfer t (owed options accounts ps)
        ≡ times same_token_transfer t options.observation.transfers

  IsTokenMatched-AreDueTokens :
      (options : ReconcileTokenOptions PublicKey) (accounts : List String) (amounts : List ℤ)
      (result : SplitResultN) (seed : Bytes) (payer source : PublicKey) (wallets : List PublicKey)
      → IsTokenMatched options accounts amounts result seed payer source wallets
      → (ps : List ℕ) × (amounts ≡ map pos ps)
        × ((are_plain_keys options accounts ≡ false) ⊎ AreDueTokens options accounts ps)
  IsTokenMatched-AreDueTokens options accounts amounts result seed payer source wallets m =
      let (_, _, ps, s) =
        (IsSplit-iff (token_total_of options) (bps_of options.request.shares) amounts).0 m.split in
      (
        ps,
        s.payouts_eq,
        elim (Bool-cases (are_plain_keys options accounts)) [
          | inr q ↦ inl q
          | inl q ↦ inr (
              times-due_tokens options.observation.source_token_account (to_base58 options.mint)
                (pos options.observation.decimals) accounts ps options.observation.transfers
                (subst
                  (λ (xs : List ℤ).
                    (k : String)
                    → count k (
                        expected_token_transfers options.observation.source_token_account
                          (to_base58 options.mint) (pos options.observation.decimals) accounts xs)
                      ≡ count k (observed_token_transfers options.observation.transfers))
                  s.payouts_eq m.same_keys)
                q)
        ],
      )

  length-recipient_wallets :
      (shares : List ShareInput) (keys : List PublicKey)
      → recipient_wallets w shares ≡ ok keys
      → length keys ≡ length shares
  unfolding recipient_wallets
  length-recipient_wallets [] keys h = ground arith
  length-recipient_wallets (share ∷ shares) keys h =
      let (key, _, h1) = >>=-eq-ok (or_throw (from_base58 share.recipient) bad_recipient) _ h in
      let (rest, p, h2) = >>=-eq-ok (recipient_wallets w shares) _ h1 in
      let ih : length rest ≡ length shares = length-recipient_wallets shares rest p in ground arith

  length-token_accounts :
      (mint : PublicKey) (keys : List PublicKey) (accounts : List String)
      → token_accounts w mint keys ≡ ok accounts
      → length accounts ≡ length keys
  unfolding token_accounts
  length-token_accounts mint [] accounts h = ground arith
  length-token_accounts mint (key ∷ keys) accounts h =
      let (account, _, h1) =
        >>=-eq-ok (or_throw (associated_token_address mint key true) runtime) _ h in
      let (rest, p, h2) = >>=-eq-ok (token_accounts w mint keys) _ h1 in
      let ih : length rest ≡ length keys = length-token_accounts mint keys rest p in ground arith

  pub record IsTokenReconciled (options : ReconcileTokenOptions PublicKey) (accounts : List String)
      (amounts : List ℤ) (r : SettlementReconciliation) : Type 0 where
    pub matched : TokenMatch options accounts amounts
    pub conserved : sum_ℤ amounts ≡ token_total_of options
    pub transferred :
        (ps : List ℕ) × (amounts ≡ map pos ps)
        × ((are_plain_keys options accounts ≡ false) ⊎ AreDueTokens options accounts ps)
    pub paid_to : IsTokenPaidTo options.request.shares accounts amounts r.settlement.payouts
    pub divided :
        IsDivided w options.observation.signature r.settlement.payouts r.direct_entries
          r.pool_payouts
    pub same_event : r.settlement.event_id ≡ options.request.event_id
    pub same_signature : r.settlement.signature ≡ options.observation.signature

  IsTokenReconciled-at :
      (options : ReconcileTokenOptions PublicKey) (r : SettlementReconciliation)
      (accounts : List String) (amounts : List ℤ) (at : String)
      → reconcile_observed_token_settlement_n w options ≡ ok r
      → check_observed_token w options ≡ ok (accounts, amounts)
      → settled_at w options.observation.block_time ≡ ok at
      → TokenMatch options accounts amounts
      → IsTokenReconciled options accounts amounts r
  unfolding reconcile_observed_token_settlement_n
  IsTokenReconciled-at options r accounts amounts at h e f
        (result, seed, payer, source, wallets, m) =
      let (total, as_many) =
        split_conserves (token_total_of options) (bps_of options.request.shares) amounts m.split in
      let payouts : r.settlement.payouts ≡ token_lines_of options accounts amounts = ground arith in
      let direct : r.direct_entries
          ≡ direct_entries_of w options.observation.signature
              (token_lines_of options accounts amounts) =
        ground arith in
      let pooled : r.pool_payouts ≡ pool_payouts_of (token_lines_of options accounts amounts) =
        ground arith in
      record {
        matched = (result, seed, payer, source, wallets, m);
        conserved = total;
        transferred =
            IsTokenMatched-AreDueTokens options accounts amounts result seed payer source wallets m;
        paid_to = rw payouts (
            token_payout_lines-IsTokenPaidTo _ _ options.request.shares accounts amounts
              (as_many ∙ length-map (λ (s : ShareInput). s.bps) options.request.shares)
              (length-token_accounts options.mint wallets accounts m.accounts_derived
                ∙ length-recipient_wallets options.request.shares wallets m.wallets_read));
        divided =
            rw (payouts, direct, pooled)
              (entries-IsDivided w options.observation.signature
                (token_lines_of options accounts amounts));
        same_event = ground arith;
        same_signature = ground arith;
      }

  -- A token settlement is reconciled only with evidence that matches its request: the asset is a
  -- token, the namespace, the event, the amount times the units, the mint, the decimals, the basis
  -- points and the memo agree, the source is the payer's associated token account and the
  -- recipients' accounts are those of the shares' wallets. Each transfer, a source, a destination, a
  -- mint, an amount and decimals, is observed exactly as often as the source owes it to the
  -- recipients' accounts, unless a text that is compared holds U+0000. The payouts are the shares
  -- with the amounts of the split, which sum to that amount, and the recipients' accounts, and each
  -- payout is either pooled or has one paid entry.
  pub reconcile_observed_token_settlement_n-IsTokenReconciled :
      (options : ReconcileTokenOptions PublicKey) (r : SettlementReconciliation)
      → reconcile_observed_token_settlement_n w options ≡ ok r
      → (accounts : List String) × (amounts : List ℤ) × IsTokenReconciled options accounts amounts r
  unfolding reconcile_observed_token_settlement_n
  reconcile_observed_token_settlement_n-IsTokenReconciled options r h =
      elim (Result-cases (check_observed_token w options)) [
        | inr (x, e) ↦ absurd (ground arith)
        | inl ((accounts, amounts), e) ↦
            elim (Result-cases (settled_at w options.observation.block_time)) [
              | inr (x, f) ↦ absurd (ground arith)
              | inl (at, f) ↦ (
                accounts,
                amounts,
                IsTokenReconciled-at options r accounts amounts at h e f
                    (check_observed_token-IsTokenMatched options accounts amounts e),
              )
            ]
      ]
