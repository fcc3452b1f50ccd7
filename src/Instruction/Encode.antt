-- ===== src/Instruction/Encode.antt =====
-- sdk/typescript/src/instruction.ts: seeds, checks, and the bytes of the four instructions.
use synxed_solana_protocol.Base.{
  ℕ, ◌+◌, ◌*◌, ◌%◌, Bool, true, not, ◌||◌, List, [], ◌∷◌, length, ◌==◌,
}
use synxed_solana_protocol.Base.Int.{ℤ, pos, leb_ℤ, ltb_ℤ}
use synxed_solana_protocol.Base.Text.{String, ◌===◌}
use synxed_solana_protocol.Types.{
  JsNumber, int, fraction, Result, ok, ◌>>=◌, ◌>>◌, throw_if, or_throw, protocol, runtime,
  ProtocolErrorCode,
}
use synxed_solana_protocol.Split.{assert_bps_shares}
use synxed_solana_protocol.Bytes.{
  Bytes, zeros, set_at, le_bytes, to_uint64, to_uint16, slice, byte_at,
}
use synxed_solana_protocol.Solana.{Solana}

abbrev pub create_namespace_tag : ℕ
create_namespace_tag = 3

abbrev pub set_namespace_authority_tag : ℕ
set_namespace_authority_tag = 4

abbrev pub settle_n_tag : ℕ
settle_n_tag = 5

abbrev pub settle_token_n_tag : ℕ
settle_token_n_tag = 6

abbrev pub settle_n_header_length : ℕ
settle_n_header_length = 42

abbrev pub settle_token_n_header_length : ℕ
settle_token_n_header_length = 43

abbrev pub namespace_account_size : ℕ
namespace_account_size = 98

abbrev pub namespace_discriminator : ℕ
namespace_discriminator = 2

abbrev pub settlement_record_size : ℕ
settlement_record_size = 41

abbrev pub settlement_record_discriminator : ℕ
settlement_record_discriminator = 1

abbrev pub u64_max : ℤ
u64_max = pos 0xffff_ffff_ffff_ffff

-- `RETIRED_TAGS`
abbrev pub is_retired_tag : ℕ → Bool
is_retired_tag tag = tag == 0 || tag == 1 || tag == 2

unfoldable pub assert_amount_u64 : ℤ → Result (Unit {0})
assert_amount_u64 amount =
    throw_if (leb_ℤ amount (pos 0) || ltb_ℤ u64_max amount) (protocol ProtocolErrorCode.amount_u64)

unfoldable pub assert_seed : Bytes → Result (Unit {0})
assert_seed seed = throw_if (not (length seed == 32)) (protocol ProtocolErrorCode.seed_length)

unfoldable pub assert_namespace_id : Bytes → Result (Unit {0})
assert_namespace_id id = throw_if (not (length id == 32)) (protocol ProtocolErrorCode.namespace_id)

pub record SettleNParams : Type 0 where
  pub event_seed : Bytes
  pub amount : ℤ
  pub bps : List JsNumber

pub record SettleTokenNParams : Type 0 where
  pub settle : SettleNParams
  pub open settle use *
  pub decimals : JsNumber

-- `bps.forEach((share, i) => view.setUint16(offset + 2 * i, share, true))`
unfoldable pub set_bps : ℕ → List JsNumber → Bytes → Bytes
set_bps offset [] bytes = bytes
set_bps offset (share ∷ bps) bytes =
    set_bps (offset + 2) bps (set_at offset (le_bytes 2 (to_uint16 share)) bytes)

-- `data[i] = n`, the byte of a number.
abbrev pub set_byte : ℕ → ℕ → Bytes → Bytes
set_byte i n = set_at i (n % 256 ∷ [])

unfoldable pub write_settle_n : SettleNParams → Bytes
write_settle_n params =
    let empty = zeros (settle_n_header_length + 2 * length params.bps) in
    let tagged = set_byte 0 settle_n_tag empty in
    let seeded = set_at 1 params.event_seed tagged in
    let paid = set_at 33 (le_bytes 8 (to_uint64 params.amount)) seeded in
    let counted = set_byte 41 (length params.bps) paid in
    set_bps settle_n_header_length params.bps counted

unfoldable pub encode_settle_n_data : SettleNParams → Result Bytes
encode_settle_n_data params = do
  assert_seed params.event_seed
  assert_amount_u64 params.amount
  assert_bps_shares params.bps
  ok (write_settle_n params)

abbrev pub bad_decimals : JsNumber → Bool
bad_decimals (fraction _) = true
bad_decimals (int n) = ltb_ℤ n (pos 0) || ltb_ℤ (pos 255) n

unfoldable pub write_settle_token_n : SettleTokenNParams → Bytes
write_settle_token_n params =
    let empty = zeros (settle_token_n_header_length + 2 * length params.bps) in
    let tagged = set_byte 0 settle_token_n_tag empty in
    let seeded = set_at 1 params.event_seed tagged in
    let paid = set_at 33 (le_bytes 8 (to_uint64 params.amount)) seeded in
    let scaled = set_byte 41 (to_uint16 params.decimals) paid in
    let counted = set_byte 42 (length params.bps) scaled in
    set_bps settle_token_n_header_length params.bps counted

unfoldable pub encode_settle_token_n_data : SettleTokenNParams → Result Bytes
encode_settle_token_n_data params = do
  assert_seed params.event_seed
  assert_amount_u64 params.amount
  assert_bps_shares params.bps
  throw_if (bad_decimals params.decimals) (protocol ProtocolErrorCode.token_decimals)
  ok (write_settle_token_n params)

-- A namespace account's contents.
pub record NamespaceAccount (Key : Type 0) : Type 0 where
  pub bump : ℕ
  pub creator : Key
  pub namespace_id : Bytes
  pub authority : Key

module _ (w : Solana) where
  open w use {
    PublicKey, equals, to_bytes, from_bytes, default_key, find_program_address, sha256, utf8,
  }

  unfoldable pub event_id_seed : String → Result Bytes
  event_id_seed event_id = do
    throw_if (event_id === "") (protocol ProtocolErrorCode.event_id_empty)
    ok (sha256 (utf8 event_id))

  unfoldable pub namespace_id_from_label : String → Result Bytes
  namespace_id_from_label label = do
    throw_if (label === "") (protocol ProtocolErrorCode.namespace_id)
    ok (sha256 (utf8 label))

  unfoldable pub find_namespace_pda : PublicKey → PublicKey → Bytes → Result (PublicKey × ℕ)
  find_namespace_pda program creator id = do
    assert_namespace_id id
    ok (find_program_address (utf8 "namespace" ∷ to_bytes creator ∷ id ∷ []) program)

  unfoldable pub find_settlement_record_pda : PublicKey → PublicKey → Bytes → Result (PublicKey × ℕ)
  find_settlement_record_pda program namespace seed = do
    assert_seed seed
    ok (find_program_address (utf8 "settlement" ∷ to_bytes namespace ∷ seed ∷ []) program)

  unfoldable pub find_legacy_settlement_record_pda : PublicKey → Bytes → Result (PublicKey × ℕ)
  find_legacy_settlement_record_pda program seed = do
    assert_seed seed
    ok (find_program_address (utf8 "settlement" ∷ seed ∷ []) program)

  -- `new PublicKey(bytes)`
  abbrev pub public_key : Bytes → Result PublicKey
  public_key bytes = or_throw (from_bytes bytes) runtime

  unfoldable pub decode_namespace_account : Bytes → Result (NamespaceAccount PublicKey)
  decode_namespace_account bytes = do
    throw_if
        (not (length bytes == namespace_account_size)
          || not (byte_at bytes 0 == namespace_discriminator))
        (protocol ProtocolErrorCode.namespace_account)
    creator ← public_key (slice 2 32 bytes)
    authority ← public_key (slice 66 32 bytes)
    ok (record {
      bump = byte_at bytes 1;
      creator = creator;
      namespace_id = slice 34 32 bytes;
      authority = authority;
    })

  unfoldable pub assert_authority : PublicKey → Result (Unit {0})
  assert_authority authority =
      throw_if (equals authority default_key) (protocol ProtocolErrorCode.namespace_authority)

  unfoldable pub encode_create_namespace_data : Bytes → PublicKey → Result Bytes
  encode_create_namespace_data id authority = do
    assert_namespace_id id
    assert_authority authority
    let tagged = set_byte 0 create_namespace_tag (zeros 65)
    ok (set_at 33 (to_bytes authority) (set_at 1 id tagged))

  unfoldable pub encode_set_namespace_authority_data : PublicKey → Result Bytes
  encode_set_namespace_authority_data authority = do
    assert_authority authority
    ok (set_at 1 (to_bytes authority) (set_byte 0 set_namespace_authority_tag (zeros 33)))
