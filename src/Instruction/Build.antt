-- ===== src/Instruction/Build.antt =====
-- sdk/typescript/src/instruction.ts: the instructions with their accounts, in the order that the
-- program reads them.
use synxed_solana_protocol.Base.{
  Bool, true, false, not, ◌||◌, Option, none, some, List, [], ◌∷◌, ◌++◌, map, length, ◌==◌,
}
use synxed_solana_protocol.Types.{Result, ok, ◌>>=◌, ◌>>◌, throw_if, protocol, ProtocolErrorCode}
use synxed_solana_protocol.Bytes.{Bytes}
use synxed_solana_protocol.Solana.{Solana}
use synxed_solana_protocol.Instruction.Encode.{
  SettleNParams, SettleTokenNParams, encode_settle_n_data, encode_settle_token_n_data,
  find_namespace_pda, find_settlement_record_pda, encode_create_namespace_data,
  encode_set_namespace_authority_data,
}

-- `AccountMeta` of web3.js: a key, and whether it signs and may be written.
pub record AccountMeta (Key : Type 0) : Type 0 where
  pub pubkey : Key
  pub is_signer : Bool
  pub is_writable : Bool

pub record TransactionInstruction (Key : Type 0) : Type 0 where
  pub program_id : Key
  pub keys : List (AccountMeta Key)
  pub bytes : Bytes

pub record CreateNamespaceAccounts (Key : Type 0) : Type 0 where
  pub program_id : Key
  pub payer : Key
  pub creator : Key

pub record SetNamespaceAuthorityAccounts (Key : Type 0) : Type 0 where
  pub program_id : Key
  pub authority : Key
  pub namespace : Key

pub record SettleNAccounts (Key : Type 0) : Type 0 where
  pub program_id : Key
  pub payer : Key
  pub authority : Key
  pub namespace : Key
  pub recipients : List Key

-- `token_program_id` is none where the option is left out.
pub record SettleTokenNAccounts (Key : Type 0) : Type 0 where
  pub program_id : Key
  pub payer : Key
  pub authority : Key
  pub namespace : Key
  pub source_token_account : Key
  pub recipient_token_accounts : List Key
  pub mint : Key
  pub token_program_id : Option Key

module _ {Key : Type 0} where
  abbrev pub meta : Key → Bool → Bool → AccountMeta Key
  meta key signs writes = record { pubkey = key; is_signer = signs; is_writable = writes }

  -- A recipient: writable, and no signer.
  abbrev pub recipient_meta : Key → AccountMeta Key
  recipient_meta key = meta key false true

  -- `??`
  abbrev pub or_default : Option Key → Key → Key
  or_default none key = key
  or_default (some given) _ = given

module _ (w : Solana) where
  open w use {PublicKey, equals, system_program, token_program_id}

  unfoldable pub assert_no_program_account_recipient :
      List PublicKey → PublicKey → PublicKey → Result (Unit {0})
  assert_no_program_account_recipient [] record_key namespace = ok tt
  assert_no_program_account_recipient (key ∷ recipients) record_key namespace = do
    throw_if (equals key record_key) (protocol ProtocolErrorCode.recipient_is_record)
    throw_if (equals key namespace) (protocol ProtocolErrorCode.recipient_is_namespace)
    assert_no_program_account_recipient recipients record_key namespace

  -- `recipients.some((recipient) => recipient.equals(key))`
  abbrev pub some_equals : List PublicKey → PublicKey → Bool
  some_equals [] key = false
  some_equals (recipient ∷ recipients) key = equals recipient key || some_equals recipients key

  unfoldable pub build_create_namespace_instruction :
      CreateNamespaceAccounts PublicKey
      → Bytes
      → PublicKey
      → Result (TransactionInstruction PublicKey)
  build_create_namespace_instruction accounts namespace_id authority = do
    bytes ← encode_create_namespace_data w namespace_id authority
    (namespace, _) ← find_namespace_pda w accounts.program_id accounts.creator namespace_id
    ok (record {
      program_id = accounts.program_id;
      keys =
          meta accounts.payer true true
          ∷ meta accounts.creator true false
          ∷ meta namespace false true
          ∷ meta system_program false false
          ∷ [];
      bytes = bytes;
    })

  unfoldable pub build_set_namespace_authority_instruction :
      SetNamespaceAuthorityAccounts PublicKey
      → PublicKey
      → Result (TransactionInstruction PublicKey)
  build_set_namespace_authority_instruction accounts new_authority = do
    bytes ← encode_set_namespace_authority_data w new_authority
    ok (record {
      program_id = accounts.program_id;
      keys =
          meta accounts.authority true false
          ∷ meta accounts.namespace false true
          ∷ meta new_authority true false
          ∷ [];
      bytes = bytes;
    })

  abbrev pub settle_n_keys : SettleNAccounts PublicKey → PublicKey → List (AccountMeta PublicKey)
  settle_n_keys accounts record_key =
      meta accounts.payer true true
      ∷ meta accounts.authority true false
      ∷ meta accounts.namespace false false
      ∷ (map recipient_meta accounts.recipients
          ++ (meta record_key false true ∷ meta system_program false false ∷ []))

  unfoldable pub build_settle_n_instruction :
      SettleNAccounts PublicKey → SettleNParams → Result (TransactionInstruction PublicKey)
  build_settle_n_instruction accounts params = do
    throw_if (not (length accounts.recipients == length params.bps))
        (protocol ProtocolErrorCode.recipient_count)
    bytes ← encode_settle_n_data params
    (record_key, _) ←
        find_settlement_record_pda w accounts.program_id accounts.namespace params.event_seed
    assert_no_program_account_recipient accounts.recipients record_key accounts.namespace
    ok (record {
      program_id = accounts.program_id;
      keys = settle_n_keys accounts record_key;
      bytes = bytes;
    })

  abbrev pub settle_token_n_keys :
      SettleTokenNAccounts PublicKey → PublicKey → PublicKey → List (AccountMeta PublicKey)
  settle_token_n_keys accounts record_key token_program =
      meta accounts.payer true true
      ∷ meta accounts.authority true false
      ∷ meta accounts.namespace false false
      ∷ meta accounts.source_token_account false true
      ∷ (map recipient_meta accounts.recipient_token_accounts
          ++ (meta accounts.mint false false
              ∷ meta record_key false true
              ∷ meta system_program false false
              ∷ meta token_program false false
              ∷ []))

  unfoldable pub build_settle_token_n_instruction :
      SettleTokenNAccounts PublicKey
      → SettleTokenNParams
      → Result (TransactionInstruction PublicKey)
  build_settle_token_n_instruction accounts params = do
    throw_if (not (length accounts.recipient_token_accounts == length params.bps))
        (protocol ProtocolErrorCode.recipient_count)
    let token_program = or_default accounts.token_program_id token_program_id
    throw_if (not (equals token_program token_program_id))
        (protocol ProtocolErrorCode.token_program)
    bytes ← encode_settle_token_n_data params
    (record_key, _) ←
        find_settlement_record_pda w accounts.program_id accounts.namespace params.event_seed
    assert_no_program_account_recipient accounts.recipient_token_accounts record_key
        accounts.namespace
    throw_if (some_equals accounts.recipient_token_accounts accounts.source_token_account)
        (protocol ProtocolErrorCode.token_source_recipient)
    ok (record {
      program_id = accounts.program_id;
      keys = settle_token_n_keys accounts record_key token_program;
      bytes = bytes;
    })
