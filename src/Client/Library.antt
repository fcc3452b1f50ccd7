-- ===== src/Client/Library.antt =====
-- What the client uses of @solana/web3.js and @solana/spl-token to put a transaction together.
use synxed_solana_protocol.Base.{ℕ, List}
use synxed_solana_protocol.Base.Int.{ℤ}
use synxed_solana_protocol.Base.Text.{String}
use synxed_solana_protocol.Json.{Json}
use synxed_solana_protocol.Bytes.{Bytes}
use synxed_solana_protocol.Instruction.Build.{TransactionInstruction}

-- The serialized length of a message and the signatures it needs, or how serializing it throws.
pub data Sized : Type 0 where
  sized : ℕ → ℕ → Sized
  range_error : Sized
  other_error : Sized

pub record Library (Key : Type 0) : Type 0 where
  -- `SystemProgram.transfer` from, to and lamports.
  pub transfer : Key → Key → ℤ → TransactionInstruction Key
  -- `createAssociatedTokenAccountIdempotentInstruction` of a payer, an account, its owner and mint.
  pub create_token_account : Key → Key → Key → Key → TransactionInstruction Key
  -- `JSON.stringify`
  pub stringify : Json → String
  -- `compileMessage` and `serialize` of instructions that a fee payer pays for.
  pub message_size : Key → List (TransactionInstruction Key) → Sized

-- An account that the RPC returns.
pub record Account (Key : Type 0) : Type 0 where
  pub owner : Key
  pub bytes : Bytes
