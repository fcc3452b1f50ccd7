-- ===== src/Solana.antt =====
-- What the package uses of the libraries that it does not implement: @solana/web3.js and
-- @solana/spl-token (keys and derived addresses), @noble/hashes (sha256), bs58, and the platform's
-- TextEncoder, dates and JSON parser. The laws are those that their documentation states and the package relies on.
pub mod Sample
use synxed_solana_protocol.Base.{ℕ, ◌≡◌, ◌↔◌, Bool, true, List, length, Option, some}
use synxed_solana_protocol.Base.Text.{String}
use synxed_solana_protocol.Base.Int.{ℤ}
use synxed_solana_protocol.Json.{Json}
use synxed_solana_protocol.Bytes.{Bytes}

pub record Solana : Type 1 where
  -- `PublicKey` of web3.js, an account address.
  pub PublicKey : Type 0
  pub equals : PublicKey → PublicKey → Bool
  pub equals_iff : (a b : PublicKey) → (equals a b ≡ true) ↔ (a ≡ b)
  pub to_bytes : PublicKey → Bytes
  -- `new PublicKey(bytes)`; none where it throws.
  pub from_bytes : Bytes → Option PublicKey
  pub to_bytes_length : (a : PublicKey) → length (to_bytes a) ≡ 32
  pub from_bytes-to_bytes : (a : PublicKey) → from_bytes (to_bytes a) ≡ some a
  pub to_base58 : PublicKey → String
  -- `new PublicKey(text)`; none where it throws.
  pub from_base58 : String → Option PublicKey
  pub from_base58-to_base58 : (a : PublicKey) → from_base58 (to_base58 a) ≡ some a
  -- `PublicKey.default`, `SystemProgram.programId`, `TOKEN_PROGRAM_ID` and the memo program's id.
  pub default_key : PublicKey
  pub system_program : PublicKey
  pub token_program_id : PublicKey
  pub memo_program_id : PublicKey
  -- `PublicKey.findProgramAddressSync`: the address and its bump.
  pub find_program_address : List Bytes → PublicKey → PublicKey × ℕ
  -- `getAssociatedTokenAddressSync` of a mint, an owner and whether the owner may lie off the
  -- curve; none where it throws.
  pub associated_token_address : PublicKey → PublicKey → Bool → Option PublicKey
  pub sha256 : Bytes → Bytes
  pub sha256_length : (bytes : Bytes) → length (sha256 bytes) ≡ 32
  -- `new TextEncoder().encode(text)`
  pub utf8 : String → Bytes
  -- `new Date(milliseconds).toISOString()`; none where it throws.
  pub iso_string : ℤ → Option String
  -- `JSON.parse`; none where it throws.
  pub parse_json : String → Option Json
  -- bs58 on instruction data; none where decoding throws.
  pub encode_base58 : Bytes → String
  pub decode_base58 : String → Option Bytes
  pub decode_base58-encode_base58 :
      (bytes : Bytes) → decode_base58 (encode_base58 bytes) ≡ some bytes
