-- ===== src/Instruction/Accounts.antt =====
-- What a settlement instruction that was built guarantees of its accounts.
use synxed_solana_protocol.Base.{
  ℕ, ◌≡◌, ◌≢◌, inl, inr, true, false, List, [], ◌∷◌, ◌++◌, map, All, length, arith,
}
use synxed_solana_protocol.Types.{ok, Result-cases}
use synxed_solana_protocol.Solana.{Solana}
use synxed_solana_protocol.Instruction.Encode.{
  SettleNParams, SettleTokenNParams, encode_settle_n_data, encode_settle_token_n_data,
  find_settlement_record_pda,
}
use synxed_solana_protocol.Instruction.Build.{
  AccountMeta, TransactionInstruction, SettleNAccounts, SettleTokenNAccounts,
  assert_no_program_account_recipient, some_equals, build_settle_n_instruction,
  build_settle_token_n_instruction, or_default,
}

-- How an instruction names an account: one that pays for the transaction, one that signs, one that
-- is written and one that is only read.
module _ {Key : Type 0} where
  abbrev pub fee_payer : Key → AccountMeta Key
  fee_payer key = record { pubkey = key; is_signer = true; is_writable = true }

  abbrev pub signer : Key → AccountMeta Key
  signer key = record { pubkey = key; is_signer = true; is_writable = false }

  abbrev pub written : Key → AccountMeta Key
  written key = record { pubkey = key; is_signer = false; is_writable = true }

  abbrev pub read_only : Key → AccountMeta Key
  read_only key = record { pubkey = key; is_signer = false; is_writable = false }

module _ (w : Solana) where
  open w use {PublicKey, equals, equals_iff, token_program_id, system_program}

  not_program_account :
      (recipients : List PublicKey) (record_key namespace : PublicKey)
      → assert_no_program_account_recipient w recipients record_key namespace ≡ ok tt
      → All (λ k. (k ≢ record_key) × (k ≢ namespace)) recipients
  unfolding assert_no_program_account_recipient
  not_program_account [] record_key namespace h = tt
  not_program_account (k ∷ recipients) record_key namespace h =
      let a : equals k record_key ≡ false = ground arith in
      let b : equals k namespace ≡ false = ground arith in
      (
        ((λ e. cc ((equals_iff k record_key).1 e)), (λ e. cc ((equals_iff k namespace).1 e))),
        not_program_account recipients record_key namespace (ground arith),
      )

  some_equals_not :
      (recipients : List PublicKey) (key : PublicKey)
      → some_equals w recipients key ≡ false
      → All (λ k. k ≢ key) recipients
  some_equals_not [] key h = tt
  some_equals_not (k ∷ recipients) key h =
      let a : equals k key ≡ false = ground arith in
      ((λ e. cc ((equals_iff k key).1 e)), some_equals_not recipients key (ground arith))

  -- A `SettleN` instruction that was built.
  pub record IsBuiltN (accounts : SettleNAccounts PublicKey) (params : SettleNParams)
      (built : TransactionInstruction PublicKey) (record_key : PublicKey) (bump : ℕ) : Type 0 where
    pub derived :
        find_settlement_record_pda w accounts.program_id accounts.namespace params.event_seed
        ≡ ok (record_key, bump)
    pub paid : All (λ k. (k ≢ record_key) × (k ≢ accounts.namespace)) accounts.recipients
    pub counted : length accounts.recipients ≡ length params.bps
    pub for_program : built.program_id ≡ accounts.program_id
    pub in_order :
        built.keys
        ≡ fee_payer accounts.payer
          ∷ signer accounts.authority
          ∷ read_only accounts.namespace
          ∷ (map written accounts.recipients
              ++ (written record_key ∷ read_only system_program ∷ []))
    pub encoded : encode_settle_n_data params ≡ ok built.bytes

  -- A `SettleN` instruction that `buildSettleNInstruction` returns is for the program and carries the
  -- encoded data. Its accounts are the payer, which signs and is written, the authority, which
  -- signs, the namespace, the recipients, which are written, the record derived from the event,
  -- which is written, and the system program, in this order. There is one recipient for each share,
  -- and none is that record or the namespace.
  pub build_settle_n_instruction-IsBuiltN :
      (accounts : SettleNAccounts PublicKey) (params : SettleNParams)
      (built : TransactionInstruction PublicKey)
      → build_settle_n_instruction w accounts params ≡ ok built
      → (record_key : PublicKey) × (bump : ℕ) × IsBuiltN accounts params built record_key bump
  unfolding build_settle_n_instruction
  build_settle_n_instruction-IsBuiltN accounts params built h =
      elim (Result-cases (encode_settle_n_data params)) [
        | inr (x, e) ↦ absurd (ground arith)
        | inl (bytes, e) ↦
            elim (Result-cases (
              find_settlement_record_pda w accounts.program_id accounts.namespace
                params.event_seed)) [
                  | inr (x, f) ↦ absurd (ground arith)
                  | inl ((key, bump), f) ↦ (
                    key,
                    bump,
                    record {
                      derived = f;
                      paid =
                          not_program_account accounts.recipients key accounts.namespace
                            (ground arith);
                      counted = ground arith;
                      for_program = ground arith;
                      in_order = ground arith;
                      encoded = ground arith;
                    },
                  )
                ]
      ]

  -- A `SettleTokenN` instruction that was built.
  pub record IsBuiltTokenN (accounts : SettleTokenNAccounts PublicKey) (params : SettleTokenNParams)
      (built : TransactionInstruction PublicKey) (record_key : PublicKey) (bump : ℕ) : Type 0 where
    pub derived :
        find_settlement_record_pda w accounts.program_id accounts.namespace params.event_seed
        ≡ ok (record_key, bump)
    pub paid :
        All (λ k. (k ≢ record_key) × (k ≢ accounts.namespace)) accounts.recipient_token_accounts
    pub not_source : All (λ k. k ≢ accounts.source_token_account) accounts.recipient_token_accounts
    pub counted : length accounts.recipient_token_accounts ≡ length params.bps
    pub for_program : built.program_id ≡ accounts.program_id
    pub in_order :
        built.keys
        ≡ fee_payer accounts.payer
          ∷ signer accounts.authority
          ∷ read_only accounts.namespace
          ∷ written accounts.source_token_account
          ∷ (map written accounts.recipient_token_accounts
              ++ (read_only accounts.mint
                  ∷ written record_key
                  ∷ read_only system_program
                  ∷ read_only token_program_id
                  ∷ []))
    pub encoded : encode_settle_token_n_data params ≡ ok built.bytes

  abbrev token_program_of : SettleTokenNAccounts PublicKey → PublicKey
  token_program_of accounts = or_default accounts.token_program_id token_program_id

  -- A `SettleTokenN` instruction that `buildSettleTokenNInstruction` returns is for the program and
  -- carries the encoded data. Its accounts are the payer, which signs and is written, the
  -- authority, which signs, the namespace, the source account and the recipients' accounts, which
  -- are written, the mint, the record derived from the event, which is written, the system program
  -- and the classic token program, in this order. There is one recipient account for each share,
  -- and none is that record, the namespace or the source account.
  pub build_settle_token_n_instruction-IsBuiltTokenN :
      (accounts : SettleTokenNAccounts PublicKey) (params : SettleTokenNParams)
      (built : TransactionInstruction PublicKey)
      → build_settle_token_n_instruction w accounts params ≡ ok built
      → (record_key : PublicKey) × (bump : ℕ) × IsBuiltTokenN accounts params built record_key bump
  unfolding build_settle_token_n_instruction
  build_settle_token_n_instruction-IsBuiltTokenN accounts params built h =
      elim (Result-cases (encode_settle_token_n_data params)) [
        | inr (x, e) ↦ absurd (ground arith)
        | inl (bytes, e) ↦
            elim (Result-cases (
              find_settlement_record_pda w accounts.program_id accounts.namespace
                params.event_seed)) [
                  | inr (x, f) ↦ absurd (ground arith)
                  | inl ((key, bump), f) ↦
                      let classic : equals (token_program_of accounts) token_program_id ≡ true =
                        ground arith in
                      (
                        key,
                        bump,
                        record {
                          derived = f;
                          paid =
                              not_program_account accounts.recipient_token_accounts key
                                accounts.namespace (ground arith);
                          not_source =
                              some_equals_not accounts.recipient_token_accounts
                                accounts.source_token_account (ground arith);
                          counted = ground arith;
                          for_program = ground arith;
                          in_order =
                              ground
                                (arith, equals_iff (token_program_of accounts) token_program_id);
                          encoded = ground arith;
                        },
                      )
                ]
      ]
