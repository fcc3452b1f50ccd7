-- ===== src/Client/TokenPrepared.antt =====
-- What a token transaction that was built guarantees.
use synxed_solana_protocol.Base.{
  ℕ, ◌+◌, ◌*◌, ◌≤◌, ◌≡◌, ◌⊎◌, true, false, some, List, [], ◌∷◌, ◌++◌, map, All,
}
use synxed_solana_protocol.Base.Int.{pos, ◌*ℤ◌, ltb_ℤ}
use synxed_solana_protocol.Base.Text.{String, has}
use synxed_solana_protocol.Types.{ok}
use synxed_solana_protocol.Split.Payouts.{sum_ℤ}
use synxed_solana_protocol.Solana.{Solana}
use synxed_solana_protocol.Instruction.Encode.{u64_max}
use synxed_solana_protocol.Instruction.Build.{TransactionInstruction}
use synxed_solana_protocol.Ledger.Reconcile.{given}
use synxed_solana_protocol.Ledger.TokenReconcile.{is_token}
use synxed_solana_protocol.Client.Library.{Library, sized}
use synxed_solana_protocol.Client.Prepare.{parse_recipients}
use synxed_solana_protocol.Client.TokenPrepare.{
  BuildTokenOptions, PreparedToken, token_memo_instruction, recipient_accounts, create_accounts,
  settle_token_instruction,
}
use synxed_solana_protocol.Base.Distinct.{IsDistinct, AllNew}

module _ (w : Solana) (l : Library w.PublicKey) where
  open w use {PublicKey, to_base58, associated_token_address}
  open l use {create_token_account, message_size}

  abbrev pub texts : List (PublicKey × PublicKey) → List String
  texts = map (λ (p : PublicKey × PublicKey). to_base58 p.0)

  -- Seen before, or opened.
  abbrev pub IsOpened : List String → List String → PublicKey → Type 0
  IsOpened seen names a = (has seen (to_base58 a) ≡ true) ⊎ (has names (to_base58 a) ≡ true)

  pub record Opens (payer mint : PublicKey) (seen : List String) (accounts wallets : List PublicKey)
      (opened : List (PublicKey × PublicKey)) : Type 0 where
    pub written :
        create_accounts w l payer mint seen accounts wallets
        ≡ map (λ (p : PublicKey × PublicKey). create_token_account payer p.0 p.1 mint) opened
    pub fresh : AllNew seen (texts opened)
    pub distinct : IsDistinct (texts opened)
    pub every : All (IsOpened seen (texts opened)) accounts

  -- A token transaction for these options: the instruction of every account that is opened, between
  -- the memo and the program's settlement.
  pub record IsTokenPrepared (options : BuildTokenOptions PublicKey)
      (prepared : PreparedToken PublicKey) (wallets : List PublicKey)
      (opened : List (PublicKey × PublicKey)) (settle : TransactionInstruction PublicKey)
      : Type 0 where
    pub token : is_token options.request.asset ≡ true
    pub scaled :
        prepared.token_amount_total
        ≡ options.request.amount_atomic *ℤ given options.token_base_units_per_atomic_unit (pos 1)
    pub fits : ltb_ℤ u64_max prepared.token_amount_total ≡ false
    pub whole : sum_ℤ prepared.token_amounts_by_share ≡ prepared.token_amount_total
    pub named : parse_recipients w l options.request.shares ≡ ok wallets
    pub source :
        associated_token_address options.mint options.payer false
        ≡ some prepared.source_token_account
    pub accounts :
        recipient_accounts w l options.mint wallets ≡ ok prepared.recipient_token_accounts
    pub settles :
        settle_token_instruction w l options prepared.token_amount_total
          prepared.source_token_account prepared.recipient_token_accounts
        ≡ ok settle
    pub instructions :
        prepared.instructions
        ≡ token_memo_instruction w l options.request prepared.token_amount_total options.mint
            options.decimals
          ∷ (map
                (λ (p : PublicKey × PublicKey).
                  create_token_account options.payer p.0 p.1 options.mint)
                opened
              ++ (settle ∷ []))
    pub distinct : IsDistinct (texts opened)
    pub every :
        (given options.create_recipient_accounts true ≡ false)
        ⊎ All
            (λ (a : PublicKey). has (texts opened) (to_base58 a) ≡ true)
            prepared.recipient_token_accounts
    pub size :
        (bytes : ℕ) × (signers : ℕ) × (message_size options.payer prepared.instructions
          ≡ sized bytes signers)
        × (bytes + 1 + signers * 64 ≤ 1232)
