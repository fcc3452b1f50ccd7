-- ===== src/Client/Accounts.antt =====
-- sdk/typescript/src/client.ts: namespaces and settlement records read from accounts. An account is
-- none where the address holds none.
use synxed_solana_protocol.Base.{ℕ, Bool, true, false, not, ◌&&◌, Option, none, some, length, ◌==◌}
use synxed_solana_protocol.Types.{Result, ok, ◌>>=◌, ◌>>◌, throw_if, protocol, ProtocolErrorCode}
use synxed_solana_protocol.Bytes.{Bytes, slice, byte_at, of_le, same_bytes}
use synxed_solana_protocol.Solana.{Solana}
use synxed_solana_protocol.Instruction.Encode.{
  NamespaceAccount, decode_namespace_account, settlement_record_size,
  settlement_record_discriminator,
}
use synxed_solana_protocol.Client.Library.{Account}

pub record FetchedNamespace (Key : Type 0) : Type 0 where
  pub address : Key
  pub account : NamespaceAccount Key

pub record SettlementRecordAccount (Key : Type 0) : Type 0 where
  pub address : Key
  pub amount : ℕ

module _ (w : Solana) where
  open w use {PublicKey, equals, system_program}

  abbrev pub is_plain_system_account : Account PublicKey → Bool
  is_plain_system_account account = equals account.owner system_program && length account.bytes == 0

  -- What `fetchNamespace` makes of the account at the address.
  unfoldable pub read_namespace :
      PublicKey
      → PublicKey
      → Option (Account PublicKey)
      → Result (Option (FetchedNamespace PublicKey))
  read_namespace program address none = ok none
  read_namespace program address (some account) = elim (is_plain_system_account account) [
    | true ↦ ok none
    | false ↦ do
      throw_if (not (equals account.owner program)) (protocol ProtocolErrorCode.namespace_account)
      decoded ← decode_namespace_account w account.bytes
      ok (some (record { address = address; account = decoded }))
  ]

  abbrev pub is_record_of : PublicKey → Bytes → Account PublicKey → Bool
  is_record_of program event_seed account =
      equals account.owner program
      && length account.bytes == settlement_record_size
      && byte_at account.bytes 0 == settlement_record_discriminator
      && same_bytes (slice 1 32 account.bytes) event_seed

  -- What `readSettlementRecord` makes of the account at the address; the seed has 32 bytes.
  unfoldable pub read_settlement_record :
      PublicKey
      → PublicKey
      → Bytes
      → ProtocolErrorCode
      → Option (Account PublicKey)
      → Result (Option (SettlementRecordAccount PublicKey))
  read_settlement_record program address event_seed code none = ok none
  read_settlement_record program address event_seed code (some account) =
      elim (is_plain_system_account account) [
        | true ↦ ok none
        | false ↦ do
          throw_if (not (is_record_of program event_seed account)) (protocol code)
          ok (some (record { address = address; amount = of_le (slice 33 8 account.bytes) }))
      ]
