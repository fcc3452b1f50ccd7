-- ===== src/Client/Prepared.antt =====
-- What a native transaction that was built guarantees: its amounts, its mode and its instructions.
use synxed_solana_protocol.Base.{
  ℕ, ◌<◌, ◌≡◌, refl, sym, ap, ◌∙◌, inl, inr, ◌⊎◌, true, false, not, none, some, List, [], ◌∷◌, ◌++◌,
  map, length, length-map, arith, Option-cases,
}
use synxed_solana_protocol.Base.Int.{ℤ, pos, ◌*ℤ◌, ltb_ℤ}
use synxed_solana_protocol.Types.{
  >>=-eq-ok, throw_if-eq-ok, ok, Result-cases, SettlementAsset, ShareInput,
}
use synxed_solana_protocol.Split.{compute_settlement_n, split_amount_atomic_shares, bps_of}
use synxed_solana_protocol.Bytes.{Bytes}
use synxed_solana_protocol.Instruction.Accounts.{IsBuiltN, build_settle_n_instruction-IsBuiltN}
use synxed_solana_protocol.Split.Payouts.{sum_ℤ, split_conserves, IsSplit-iff}
use synxed_solana_protocol.Solana.{Solana}
use synxed_solana_protocol.Instruction.Encode.{u64_max, event_id_seed, find_namespace_pda}
use synxed_solana_protocol.Instruction.Build.{
  TransactionInstruction, SettleNAccounts, build_create_namespace_instruction, or_default,
}
use synxed_solana_protocol.Ledger.Evidence.{SettlementMode}
use synxed_solana_protocol.Ledger.Reconcile.{is_lamports, given}
use synxed_solana_protocol.Client.Library.{Library}
use mathlib.Core.Path.{subst}
use synxed_solana_protocol.Client.Prepare.{
  BuildOptions, Prepared, assert_native_asset, scaled_total, refuse_program_options_without_program,
  memo_instruction, memo_json, parse_recipients, parse_recipient, add_transfers, opening,
  settle_instruction, payment, build_settlement_n_transaction,
}
use synxed_solana_protocol.Client.Scaled.{scaled_total_tests}
use synxed_solana_protocol.Client.Paid.{
  ArePaid, AreNamed, add_transfers-ArePaid, parse_recipients-AreNamed,
}

module _ (w : Solana) (l : Library w.PublicKey) where
  open w use {PublicKey, equals, equals_iff, from_base58, memo_program_id, utf8}
  open l use {transfer, stringify}

  length-parse_recipients :
      (shares : List ShareInput) (recipients : List PublicKey)
      → parse_recipients w l shares ≡ ok recipients
      → length recipients ≡ length shares
  unfolding parse_recipients
  length-parse_recipients [] recipients h = ground arith
  length-parse_recipients (share ∷ shares) recipients h =
      let (key, _, h1) = >>=-eq-ok (parse_recipient w l share.recipient) _ h in
      let (keys, p, h2) = >>=-eq-ok (parse_recipients w l shares) _ h1 in
      let ih : length keys ≡ length shares = length-parse_recipients shares keys p in ground arith

  -- What a call for these options returns: `total` and the amounts of the shares, the instruction
  -- that opens the namespace if one does, the memo, and what pays.
  pub record IsPrepared (options : BuildOptions PublicKey) (prepared : Prepared PublicKey)
      (recipients : List PublicKey) (first paid : List (TransactionInstruction PublicKey))
      : Type 0 where
    pub lamports : is_lamports options.request.asset ≡ true
    pub scaled :
        prepared.lamports_total
        ≡ options.request.amount_atomic *ℤ given options.lamports_per_atomic_unit (pos 1)
    pub fits : (a : ℕ) × (prepared.lamports_total ≡ pos a) × (0 < a) × (a < 18446744073709551616)
    pub whole : sum_ℤ prepared.lamports_by_share ≡ prepared.lamports_total
    pub divided :
        split_amount_atomic_shares prepared.lamports_total (bps_of options.request.shares)
        ≡ ok prepared.lamports_by_share
    pub named : AreNamed w l options.request.shares recipients
    pub instructions :
        prepared.instructions
        ≡ first
          ++ (record {
            program_id = memo_program_id;
            keys = [];
            bytes = utf8 (stringify (memo_json options.request prepared.lamports_total));
          }
              ∷ paid)

  -- Without a program no option of one is given, nothing is opened, and behind the memo stand the
  -- payer's transfers of the shares' amounts to their recipients.
  abbrev pub IsTransferred :
      BuildOptions PublicKey
      → Prepared PublicKey
      → List PublicKey
      → List (TransactionInstruction PublicKey)
      → List (TransactionInstruction PublicKey)
      → Type 0
  IsTransferred options prepared recipients first paid =
      (options.program_id ≡ none)
      × (options.namespace ≡ none)
      × (options.authority ≡ none)
      × (options.create_namespace_id ≡ none)
      × (prepared.mode ≡ SettlementMode.system_transfer)
      × (first ≡ [])
      × ((ps : List ℕ) × (prepared.lamports_by_share ≡ map pos ps)
          × ArePaid w l options.payer recipients ps paid)

  -- The authority that is given, the payer where none is.
  abbrev pub IsAuthority : BuildOptions PublicKey → PublicKey → Type 0
  IsAuthority options authority =
      ((options.authority ≡ none) × (authority ≡ options.payer))
      ⊎ (options.authority ≡ some authority)

  -- What opens the namespace: nothing, where no id of one is given, and otherwise the instruction
  -- that creates it for the payer, with that authority, at the address derived from its id.
  abbrev pub IsOpening :
      BuildOptions PublicKey
      → PublicKey
      → PublicKey
      → PublicKey
      → List (TransactionInstruction PublicKey)
      → Type 0
  IsOpening options program namespace authority first =
      ((options.create_namespace_id ≡ none) × (first ≡ []))
      ⊎ ((id : Bytes) × (bump : ℕ) × (create : TransactionInstruction PublicKey)
          × (options.create_namespace_id ≡ some id)
          × (find_namespace_pda w program options.payer id ≡ ok (namespace, bump))
          × (build_create_namespace_instruction w
                (record { program_id = program; payer = options.payer; creator = options.payer }) id
                authority
              ≡ ok create)
          × (first ≡ create ∷ []))

  -- The accounts of the program's settlement.
  abbrev pub accounts_for :
      BuildOptions PublicKey
      → PublicKey
      → PublicKey
      → PublicKey
      → List PublicKey
      → SettleNAccounts PublicKey
  accounts_for options program namespace authority recipients = record {
    program_id = program;
    payer = options.payer;
    authority = authority;
    namespace = namespace;
    recipients = recipients;
  }

  -- A settlement for the namespace of the event, the total and the shares.
  abbrev pub IsSettlement :
      BuildOptions PublicKey
      → ℤ
      → PublicKey
      → PublicKey
      → PublicKey
      → List PublicKey
      → TransactionInstruction PublicKey
      → Type 0
  IsSettlement options total program namespace authority recipients settle =
      (seed : Bytes) × (record_key : PublicKey) × (bump : ℕ) × (event_id_seed w
          options.request.event_id
        ≡ ok seed)
      × IsBuiltN w (accounts_for options program namespace authority recipients)
          (record { event_seed = seed; amount = total; bps = bps_of options.request.shares }) settle
          record_key bump

  -- With a program a namespace is given, and the one instruction behind the memo is the program's
  -- settlement for that namespace, the authority, the event, the total, the shares and the
  -- recipients.
  abbrev pub IsSettled :
      BuildOptions PublicKey
      → Prepared PublicKey
      → List PublicKey
      → List (TransactionInstruction PublicKey)
      → List (TransactionInstruction PublicKey)
      → Type 0
  IsSettled options prepared recipients first paid =
      (program : PublicKey) × (namespace : PublicKey) × (authority : PublicKey)
      × (settle : TransactionInstruction PublicKey) × (options.program_id ≡ some program)
      × (options.namespace ≡ some namespace)
      × IsAuthority options authority
      × (prepared.mode ≡ SettlementMode.program)
      × IsOpening options program namespace authority first
      × IsSettlement options prepared.lamports_total program namespace authority recipients settle
      × (paid ≡ settle ∷ [])

  authority-IsAuthority :
      (options : BuildOptions PublicKey)
      → IsAuthority options (or_default options.authority options.payer)
  authority-IsAuthority options = elim (Option-cases options.authority) [
    | inl q ↦ rw q (inl (refl, refl))
    | inr (k, q) ↦ rw q (inr refl)
  ]

  opening-IsOpening :
      (options : BuildOptions PublicKey) (program namespace : PublicKey)
      (first : List (TransactionInstruction PublicKey))
      → options.program_id ≡ some program
      → options.namespace ≡ some namespace
      → opening w l options ≡ ok first
      → IsOpening options program namespace (or_default options.authority options.payer) first
  unfolding opening
  opening-IsOpening options program namespace first p n h =
      elim (Option-cases options.create_namespace_id) [
        | inl q ↦ inl (q, ground arith)
        | inr (id, q) ↦ elim (Result-cases (find_namespace_pda w program options.payer id)) [
          | inr (x, e) ↦ absurd (ground arith)
          | inl ((derived, bump), e) ↦
              let there : equals derived namespace ≡ true = ground arith in
              let same : derived ≡ namespace = (equals_iff derived namespace).0 there in
              elim (Result-cases (
                build_create_namespace_instruction w
                  (record { program_id = program; payer = options.payer; creator = options.payer })
                  id (or_default options.authority options.payer))) [
                    | inr (x, f) ↦ absurd (ground arith)
                    | inl (create, f) ↦ inr (
                      id,
                      bump,
                      create,
                      q,
                      e ∙ ap (λ (k : PublicKey). ok (k, bump)) same,
                      f,
                      ground arith,
                    )
                  ]
        ]
      ]

  settle_instruction-IsSettlement :
      (options : BuildOptions PublicKey) (program namespace : PublicKey) (total : ℤ)
      (recipients : List PublicKey) (settle : TransactionInstruction PublicKey)
      → options.namespace ≡ some namespace
      → settle_instruction w l options program total recipients ≡ ok settle
      → IsSettlement options total program namespace
          (or_default options.authority options.payer)
          recipients
          settle
  unfolding settle_instruction
  settle_instruction-IsSettlement options program namespace total recipients settle n h =
      elim (Result-cases (event_id_seed w options.request.event_id)) [
        | inr (x, e) ↦ absurd (ground arith)
        | inl (seed, e) ↦
            let (record_key, bump, built) =
              build_settle_n_instruction-IsBuiltN w
                (accounts_for options program namespace (or_default options.authority options.payer)
                  recipients)
                (record { event_seed = seed; amount = total; bps = bps_of options.request.shares })
                settle (ground arith) in
            (seed, record_key, bump, e, built)
      ]

  payment-IsTransferred :
      (options : BuildOptions PublicKey) (total : ℤ) (amounts : List ℤ)
      (recipients : List PublicKey) (mode : SettlementMode)
      (first paid : List (TransactionInstruction PublicKey))
      → options.program_id ≡ none
      → refuse_program_options_without_program options.program_id options.namespace
          options.authority options.create_namespace_id
        ≡ ok tt
      → opening w l options ≡ ok first
      → payment w l options total amounts recipients ≡ ok (mode, paid)
      → (options.namespace ≡ none)
        × (options.authority ≡ none)
        × (options.create_namespace_id ≡ none)
        × (mode ≡ SettlementMode.system_transfer)
        × (first ≡ [])
        × (paid ≡ add_transfers w l options.payer recipients amounts)
  unfolding refuse_program_options_without_program opening payment
  payment-IsTransferred options total amounts recipients mode first paid none_given refused opened
        pays =
      ground arith

  payment-IsSettled :
      (options : BuildOptions PublicKey) (total : ℤ) (amounts : List ℤ)
      (recipients : List PublicKey) (program : PublicKey) (mode : SettlementMode)
      (paid : List (TransactionInstruction PublicKey))
      → options.program_id ≡ some program
      → payment w l options total amounts recipients ≡ ok (mode, paid)
      → (settle : TransactionInstruction PublicKey) × (mode ≡ SettlementMode.program)
        × (settle_instruction w l options program total recipients ≡ ok settle)
        × (paid ≡ settle ∷ [])
  unfolding payment
  payment-IsSettled options total amounts recipients program mode paid given_program pays =
      elim (Result-cases (settle_instruction w l options program total recipients)) [
        | inl (settle, q) ↦ (settle, ground arith, q, ground arith)
        | inr (x, q) ↦ absurd (ground arith)
      ]

  settle_instruction-namespace :
      (options : BuildOptions PublicKey) (program : PublicKey) (total : ℤ)
      (recipients : List PublicKey) {settle : TransactionInstruction PublicKey}
      → settle_instruction w l options program total recipients ≡ ok settle
      → (namespace : PublicKey) × (options.namespace ≡ some namespace)
  unfolding settle_instruction
  settle_instruction-namespace options program total recipients h =
      elim (Option-cases options.namespace) [
        | inr (namespace, q) ↦ (namespace, q)
        | inl q ↦ absurd (ground arith)
      ]

  -- Transfers of the split's amounts, and the bound of a total that was split.
  split-ArePaid :
      (from : PublicKey) (recipients : List PublicKey) (total : ℤ) (amounts : List ℤ)
      (shares : List ShareInput)
      → split_amount_atomic_shares total (bps_of shares) ≡ ok amounts
      → length recipients ≡ length shares
      → (ps : List ℕ) × (amounts ≡ map pos ps)
        × ArePaid w l from recipients ps (add_transfers w l from recipients amounts)
  split-ArePaid from recipients total amounts shares h count =
      let (a, ns, ps, s) = (IsSplit-iff total (bps_of shares) amounts).0 h in
      let as_many : length ps ≡ length recipients =
        sym (length-map pos ps)
        ∙ ap length (sym s.payouts_eq)
        ∙ (split_conserves total (bps_of shares) amounts h).1
        ∙ length-map (λ (x : ShareInput). x.bps) shares
        ∙ sym count in
      (
        ps,
        s.payouts_eq,
        subst
            (λ (xs : List ℤ). ArePaid w l from recipients ps (add_transfers w l from recipients xs))
            (sym s.payouts_eq) (add_transfers-ArePaid w l from recipients ps as_many),
      )

  split_fits :
      (total : ℤ) (amounts : List ℤ) (shares : List ShareInput)
      → split_amount_atomic_shares total (bps_of shares) ≡ ok amounts
      → ltb_ℤ u64_max total ≡ false
      → (a : ℕ) × (total ≡ pos a) × (0 < a) × (a < 18446744073709551616)
  split_fits total amounts shares h b =
      let (a, ns, ps, s) = (IsSplit-iff total (bps_of shares) amounts).0 h in
      let fits : ltb_ℤ u64_max (pos a) ≡ false = ap (ltb_ℤ u64_max) (sym s.amount_eq) ∙ b in
      (a, s.amount_eq, s.positive, ground arith)

  assert_native_asset-lamports :
      (asset : SettlementAsset) → assert_native_asset asset ≡ ok tt → is_lamports asset ≡ true
  unfolding assert_native_asset
  assert_native_asset-lamports asset h =
      ground (arith, throw_if-eq-ok (not (is_lamports asset)) _ h)

  paid_either :
      (options : BuildOptions PublicKey) (prepared : Prepared PublicKey)
      (recipients : List PublicKey) (first paid : List (TransactionInstruction PublicKey))
      → split_amount_atomic_shares prepared.lamports_total (bps_of options.request.shares)
        ≡ ok prepared.lamports_by_share
      → length recipients ≡ length options.request.shares
      → refuse_program_options_without_program options.program_id options.namespace
          options.authority options.create_namespace_id
        ≡ ok tt
      → opening w l options ≡ ok first
      → payment w l options prepared.lamports_total prepared.lamports_by_share recipients
        ≡ ok (prepared.mode, paid)
      → IsTransferred options prepared recipients first paid
        ⊎ IsSettled options prepared recipients first paid
  paid_either options prepared recipients first paid split count refused opened pays =
      let total = prepared.lamports_total in
      elim (Option-cases options.program_id) [
        | inl q ↦
            let (a, b, c, d, e, f) =
              payment-IsTransferred options total prepared.lamports_by_share recipients
                prepared.mode first paid q refused opened pays in
            let (ps, as_pos, paid_all) =
              split-ArePaid options.payer recipients total prepared.lamports_by_share
                options.request.shares split count in
            inl (
              q,
              a,
              b,
              c,
              d,
              e,
              (
                ps,
                as_pos,
                subst
                    (λ (x : List (TransactionInstruction PublicKey)).
                      ArePaid w l options.payer recipients ps x)
                    (sym f) paid_all,
              ),
            )
        | inr (program, q) ↦
            let (settle, a, b, c) =
              payment-IsSettled options total prepared.lamports_by_share recipients program
                prepared.mode paid q pays in
            let (namespace, n) = settle_instruction-namespace options program total recipients b in
            inr (
              program,
              namespace,
              or_default options.authority options.payer,
              settle,
              q,
              n,
              authority-IsAuthority options,
              a,
              opening-IsOpening options program namespace first q n opened,
              settle_instruction-IsSettlement options program namespace total recipients settle n b,
              c,
            )
      ]

  -- A transaction that is built moves native lamports only. Its total is the amount times the
  -- scale, positive and below 2^64, and is the sum of the shares' amounts, which are its split; its
  -- instructions are those that open the namespace, the memo, and then either, without a program,
  -- one transfer from the payer to the recipient of each share whose amount is positive, of that
  -- amount, with no option of a program given and nothing opened, or, with one, the program's
  -- settlement alone, for the event, that total and the shares' basis points and recipients, in the
  -- namespace that is given and by the authority, the payer where none is given. Where the id of a
  -- namespace is given with a program, the one instruction before the memo creates it at its
  -- derived address, which is that namespace; otherwise none stands there.
  pub build_settlement_n_transaction-IsPrepared :
      (options : BuildOptions PublicKey) (prepared : Prepared PublicKey)
      → build_settlement_n_transaction w l options ≡ ok prepared
      → (recipients : List PublicKey) × (first : List (TransactionInstruction PublicKey))
        × (paid : List (TransactionInstruction PublicKey)) × IsPrepared options prepared recipients
            first paid
        × (IsTransferred options prepared recipients first paid
            ⊎ IsSettled options prepared recipients first paid)
  unfolding build_settlement_n_transaction memo_instruction
  build_settlement_n_transaction-IsPrepared options prepared h =
      let request = options.request in
      let (_, native, h1) = >>=-eq-ok (assert_native_asset request.asset) _ h in
      let (total, scale, h2) =
        >>=-eq-ok (scaled_total request.amount_atomic options.lamports_per_atomic_unit) _ h1 in
      let (_, _, h3) = >>=-eq-ok (compute_settlement_n request) _ h2 in
      let (amounts, split, h4) =
        >>=-eq-ok (split_amount_atomic_shares total (bps_of request.shares)) _ h3 in
      let (recipients, named, h5) = >>=-eq-ok (parse_recipients w l request.shares) _ h4 in
      let (_, refused, h6) =
        >>=-eq-ok
          (refuse_program_options_without_program options.program_id options.namespace
            options.authority options.create_namespace_id)
          _ h5 in
      let (first, opened, h7) = >>=-eq-ok (opening w l options) _ h6 in
      let ((mode, paid), pays, h8) =
        >>=-eq-ok (payment w l options total amounts recipients) _ h7 in
      let made : Prepared PublicKey = record {
        instructions = first ++ (memo_instruction w l request total ∷ paid);
        mode = mode;
        lamports_total = total;
        lamports_by_share = amounts;
      } in
      let same : made ≡ prepared = ground arith in
      let count = length-parse_recipients request.shares recipients named in
      let (_, scaled, fits) =
        scaled_total_tests request.amount_atomic options.lamports_per_atomic_unit total scale in
      subst
        (λ (p : Prepared PublicKey).
          (recipients : List PublicKey) × (first : List (TransactionInstruction PublicKey))
          × (paid : List (TransactionInstruction PublicKey)) × IsPrepared options p recipients first
              paid
          × (IsTransferred options p recipients first paid
              ⊎ IsSettled options p recipients first paid))
        same
        (
          recipients,
          first,
          paid,
          record {
            lamports = assert_native_asset-lamports request.asset native;
            scaled = scaled;
            fits = split_fits total amounts request.shares split fits;
            whole = (split_conserves total (bps_of request.shares) amounts split).0;
            divided = split;
            named = parse_recipients-AreNamed w l request.shares recipients named;
            instructions = refl;
          },
          paid_either options made recipients first paid split count refused opened pays,
        )
