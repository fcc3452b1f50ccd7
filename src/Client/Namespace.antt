-- ===== src/Client/Namespace.antt =====
-- sdk/typescript/src/client.ts, `ensureNamespace`: a namespace found, or opened.
use synxed_solana_protocol.Base.{Bool, true, false, not, Option, none, some}
use synxed_solana_protocol.Base.Text.{String}
use synxed_solana_protocol.Types.{
  Result, ok, err, ◌>>=◌, ◌>>◌, throw_if, Exception, protocol, ProtocolErrorCode,
}
use synxed_solana_protocol.Bytes.{Bytes}
use synxed_solana_protocol.Solana.{Solana}
use synxed_solana_protocol.Instruction.Encode.{find_namespace_pda}
use synxed_solana_protocol.Instruction.Build.{
  TransactionInstruction, build_create_namespace_instruction, or_default,
}
use synxed_solana_protocol.Ledger.Reconcile.{given}
use synxed_solana_protocol.Client.Library.{Account}
use synxed_solana_protocol.Client.Accounts.{FetchedNamespace, read_namespace}

-- `payer` is the payer's public key.
pub record EnsureOptions (Key : Type 0) : Type 0 where
  pub payer : Key
  pub program_id : Key
  pub namespace_id : Bytes
  pub authority : Option Key
  pub create : Option Bool
  pub creator : Option Key
  pub expected_address : Option Key

pub record EnsuredNamespace (Key : Type 0) : Type 0 where
  pub address : Key
  pub authority : Key
  pub created : Bool
  pub signature : Option String

-- What the connection answers: the account at the address, the signature of the transaction that is
-- sent, and the account when it is read again. A request that throws is an error.
pub record Answers (Key : Type 0) : Type 0 where
  pub account : Result (Option (Account Key))
  pub sent : TransactionInstruction Key → Result String
  pub account_again : Result (Option (Account Key))

module _ (w : Solana) where
  open w use {PublicKey, equals}

  abbrev pub fetched :
      PublicKey
      → PublicKey
      → Result (Option (Account PublicKey))
      → Result (Option (FetchedNamespace PublicKey))
  fetched program address answer = answer >>= read_namespace w program address

  unfoldable pub expect_authority : PublicKey → FetchedNamespace PublicKey → Result PublicKey
  expect_authority authority found = do
    throw_if (not (equals found.account.authority authority))
        (protocol ProtocolErrorCode.namespace_authority)
    ok found.account.authority

  abbrev pub found_at : PublicKey → PublicKey → Result (EnsuredNamespace PublicKey)
  found_at address authority =
      ok (record { address = address; authority = authority; created = false; signature = none })

  -- The namespace that another run opened, or the error of the send.
  unfoldable pub raced :
      PublicKey
      → PublicKey
      → Exception
      → Result (Option (FetchedNamespace PublicKey))
      → Result (EnsuredNamespace PublicKey)
  raced address authority error (err _) = err error
  raced address authority error (ok none) = err error
  raced address authority error (ok (some found)) =
      expect_authority authority found >>= found_at address

  abbrev pub is_pinned_elsewhere : Option PublicKey → PublicKey → Bool
  is_pinned_elsewhere none address = false
  is_pinned_elsewhere (some expected) address = not (equals expected address)

  unfoldable pub open_namespace :
      EnsureOptions PublicKey
      → Answers PublicKey
      → PublicKey
      → PublicKey
      → Result (EnsuredNamespace PublicKey)
  open_namespace options answers address authority = do
    create ←
        build_create_namespace_instruction w
          (record {
            program_id = options.program_id;
            payer = options.payer;
            creator = options.payer;
          })
          options.namespace_id authority
    elim (answers.sent create) [
      | ok signature ↦ ok (record {
        address = address;
        authority = authority;
        created = true;
        signature = some signature;
      })
      | err error ↦
          raced address authority error (fetched options.program_id address answers.account_again)
    ]

  -- The first read found the namespace, or did not.
  unfoldable pub ensure_at :
      EnsureOptions PublicKey
      → Answers PublicKey
      → PublicKey
      → PublicKey
      → PublicKey
      → Option (FetchedNamespace PublicKey)
      → Result (EnsuredNamespace PublicKey)
  ensure_at options answers address authority creator (some existing) =
      expect_authority authority existing >>= found_at address
  ensure_at options answers address authority creator none = do
    throw_if (not (given options.create true)) (protocol ProtocolErrorCode.namespace_missing)
    throw_if (not (equals creator options.payer)) (protocol ProtocolErrorCode.namespace_missing)
    open_namespace options answers address authority

  unfoldable pub ensure_namespace :
      EnsureOptions PublicKey → Answers PublicKey → Result (EnsuredNamespace PublicKey)
  ensure_namespace options answers = do
    let authority = or_default options.authority options.payer
    let creator = or_default options.creator options.payer
    (address, _) ← find_namespace_pda w options.program_id creator options.namespace_id
    throw_if (is_pinned_elsewhere options.expected_address address)
        (protocol ProtocolErrorCode.namespace_address)
    existing ← fetched options.program_id address answers.account
    ensure_at options answers address authority creator existing
