-- ===== src/Client/TokenPrepare.antt =====
-- sdk/typescript/src/client.ts: a token settlement's transaction.
use synxed_solana_protocol.Base.{
  ℕ, ◌+◌, ◌*◌, Bool, true, false, not, Option, none, List, [], ◌∷◌, ◌++◌, ltb, if◌then◌else◌,
}
use synxed_solana_protocol.Base.Int.{ℤ}
use synxed_solana_protocol.Base.Text.{String, has}
use synxed_solana_protocol.Base.Decimal.{show_ℤ}
use synxed_solana_protocol.Types.{
  JsNumber, Result, ok, err, ◌>>=◌, ◌>>◌, throw_if, or_throw, runtime, protocol, ProtocolErrorCode,
  SettlementRequestN,
}
use synxed_solana_protocol.Json.{Json, Fields}
use synxed_solana_protocol.Split.{compute_settlement_n, split_amount_atomic_shares, bps_of}
use synxed_solana_protocol.Solana.{Solana}
use synxed_solana_protocol.Instruction.Encode.{event_id_seed}
use synxed_solana_protocol.Instruction.Build.{
  TransactionInstruction, build_settle_token_n_instruction, or_default,
}
use synxed_solana_protocol.Ledger.Match.{kind_text, asset_text}
use synxed_solana_protocol.Ledger.Reconcile.{given}
use synxed_solana_protocol.Ledger.TokenReconcile.{is_token}
use synxed_solana_protocol.Client.Library.{Library, Sized, sized, range_error, other_error}
use synxed_solana_protocol.Client.Prepare.{scaled_total, parse_recipients, memo_of}

pub record BuildTokenOptions (Key : Type 0) : Type 0 where
  pub payer : Key
  pub request : SettlementRequestN
  pub mint : Key
  pub decimals : JsNumber
  pub program_id : Key
  pub namespace : Key
  pub authority : Option Key
  pub token_base_units_per_atomic_unit : Option ℤ
  pub create_recipient_accounts : Option Bool

pub record PreparedToken (Key : Type 0) : Type 0 where
  pub instructions : List (TransactionInstruction Key)
  pub token_amount_total : ℤ
  pub token_amounts_by_share : List ℤ
  pub source_token_account : Key
  pub recipient_token_accounts : List Key

-- `PACKET_DATA_SIZE` of web3.js.
abbrev pub packet_data_size : ℕ
packet_data_size = 1232

-- A one-byte signature count, 64 bytes for each signer, and the message.
unfoldable pub check_size : Sized → Result (Unit {0})
check_size (sized length signers) =
    throw_if (ltb packet_data_size (length + 1 + signers * 64))
      (protocol ProtocolErrorCode.transaction_too_large)
check_size range_error = err (protocol ProtocolErrorCode.transaction_too_large)
check_size other_error = err runtime

-- The object whose text a token memo holds; `mint` is the mint's base58 text.
abbrev pub token_memo_json : SettlementRequestN → ℤ → String → JsNumber → Json
token_memo_json request total mint decimals = Json.object (
    Fields.field "protocol" (Json.text "synxed-settlement") (
      Fields.field "event" (Json.text request.event_id) (
        Fields.field "occurredAt" (Json.text request.occurred_at) (
          Fields.field "kind" (Json.text (kind_text request.kind)) (
            Fields.field "asset" (Json.text (asset_text request.asset)) (
              Fields.field "tokenAmount" (Json.text (show_ℤ total)) (
                Fields.field "mint" (Json.text mint) (
                  Fields.field "decimals" (Json.number decimals)
                    (Fields.field "memo" (Json.text request.memo) Fields.end)))))))))

module _ (w : Solana) (l : Library w.PublicKey) where
  open w use {PublicKey, to_base58, associated_token_address}
  open l use {create_token_account, message_size}

  unfoldable pub token_memo_instruction :
      SettlementRequestN → ℤ → PublicKey → JsNumber → TransactionInstruction PublicKey
  token_memo_instruction request total mint decimals =
      memo_of w l (token_memo_json request total (to_base58 mint) decimals)

  unfoldable pub recipient_accounts : PublicKey → List PublicKey → Result (List PublicKey)
  recipient_accounts mint [] = ok []
  recipient_accounts mint (owner ∷ owners) = do
    account ← or_throw (associated_token_address mint owner true) runtime
    accounts ← recipient_accounts mint owners
    ok (account ∷ accounts)

  -- The loop that opens the recipients' accounts, with the addresses seen.
  unfoldable pub create_accounts :
      PublicKey
      → PublicKey
      → List String
      → List PublicKey
      → List PublicKey
      → List (TransactionInstruction PublicKey)
  create_accounts payer mint seen (account ∷ accounts) (wallet ∷ wallets) =
      let again = create_accounts payer mint seen accounts wallets in
      let rest = create_accounts payer mint (to_base58 account ∷ seen) accounts wallets in
      if has seen (to_base58 account)
      then again
      else create_token_account payer account wallet mint ∷ rest
  create_accounts payer mint seen _ _ = []

  unfoldable pub settle_token_instruction :
      BuildTokenOptions PublicKey
      → ℤ
      → PublicKey
      → List PublicKey
      → Result (TransactionInstruction PublicKey)
  settle_token_instruction options total source accounts = do
    seed ← event_id_seed w options.request.event_id
    build_settle_token_n_instruction w
        (record {
          program_id = options.program_id;
          payer = options.payer;
          authority = or_default options.authority options.payer;
          namespace = options.namespace;
          source_token_account = source;
          recipient_token_accounts = accounts;
          mint = options.mint;
          token_program_id = none;
        })
        (record {
          settle = record {
            event_seed = seed;
            amount = total;
            bps = bps_of options.request.shares;
          };
          decimals = options.decimals;
        })

  abbrev pub opened_accounts :
      BuildTokenOptions PublicKey
      → List PublicKey
      → List PublicKey
      → List (TransactionInstruction PublicKey)
  opened_accounts options accounts wallets =
      if given options.create_recipient_accounts true
      then create_accounts options.payer options.mint [] accounts wallets
      else []

  unfoldable pub build_token_settlement_n_transaction :
      BuildTokenOptions PublicKey → Result (PreparedToken PublicKey)
  build_token_settlement_n_transaction options = do
    let request = options.request
    throw_if (not (is_token request.asset)) (protocol ProtocolErrorCode.token_asset)
    _ ← compute_settlement_n request
    total ← scaled_total request.amount_atomic options.token_base_units_per_atomic_unit
    amounts ← split_amount_atomic_shares total (bps_of request.shares)
    wallets ← parse_recipients w l request.shares
    source ← or_throw (associated_token_address options.mint options.payer false) runtime
    accounts ← recipient_accounts options.mint wallets
    settle ← settle_token_instruction options total source accounts
    let instructions =
        token_memo_instruction request total options.mint options.decimals
        ∷ (opened_accounts options accounts wallets ++ (settle ∷ []))
    check_size (message_size options.payer instructions)
    ok (record {
      instructions = instructions;
      token_amount_total = total;
      token_amounts_by_share = amounts;
      source_token_account = source;
      recipient_token_accounts = accounts;
    })
