-- ===== src/Ledger/Decode.antt =====
-- sdk/typescript/src/ledger.ts: reading back the data of an instruction.
use synxed_solana_protocol.Base.{
  ℕ, zero, suc, ◌+◌, ◌*◌, Bool, not, ◌||◌, ◌&&◌, Option, none, some, List, [], ◌∷◌, length, ltb,
  leb, ◌==◌,
}
use synxed_solana_protocol.Base.Text.{String}
use synxed_solana_protocol.Types.{
  Result, ok, ◌>>=◌, ◌>>◌, throw_if, or_throw, Exception, ledger, LedgerErrorCode, max_shares,
}
use synxed_solana_protocol.Bytes.{Bytes, of_le, slice, byte_at, same_bytes}
use synxed_solana_protocol.Solana.{Solana}
use synxed_solana_protocol.Instruction.Encode.{
  settle_n_tag, settle_token_n_tag, settle_n_header_length, settle_token_n_header_length,
}

abbrev pub bad_data : Exception
bad_data = ledger LedgerErrorCode.instruction_data

pub record DecodedSettleN : Type 0 where
  pub event_seed : Bytes
  pub amount : ℕ
  pub bps : List ℕ

pub record DecodedSettleTokenN : Type 0 where
  pub event_seed : Bytes
  pub amount : ℕ
  pub decimals : ℕ
  pub bps : List ℕ

-- `Array.from({ length: count }, (_, i) => view.getUint16(offset + 2 * i, true))`
unfoldable pub read_bps : Bytes → ℕ → ℕ → List ℕ
read_bps bytes offset zero = []
read_bps bytes offset (suc count) = of_le (slice offset 2 bytes) ∷ read_bps bytes (offset + 2) count

unfoldable pub decode_settle_n_bytes : Bytes → Result DecodedSettleN
decode_settle_n_bytes bytes = do
  throw_if (ltb (length bytes) settle_n_header_length || not (byte_at bytes 0 == settle_n_tag))
      (ledger LedgerErrorCode.instruction_data)
  let count = byte_at bytes 41
  throw_if
      (count == 0
        || ltb max_shares count
        || not (length bytes == settle_n_header_length + 2 * count))
      (ledger LedgerErrorCode.instruction_data)
  ok (record {
    event_seed = slice 1 32 bytes;
    amount = of_le (slice 33 8 bytes);
    bps = read_bps bytes settle_n_header_length count;
  })

unfoldable pub decode_settle_token_n_bytes : Bytes → Result DecodedSettleTokenN
decode_settle_token_n_bytes bytes = do
  throw_if
      (ltb (length bytes) settle_token_n_header_length
        || not (byte_at bytes 0 == settle_token_n_tag))
      (ledger LedgerErrorCode.instruction_data)
  let count = byte_at bytes 42
  throw_if
      (count == 0
        || ltb max_shares count
        || not (length bytes == settle_token_n_header_length + 2 * count))
      (ledger LedgerErrorCode.instruction_data)
  ok (record {
    event_seed = slice 1 32 bytes;
    amount = of_le (slice 33 8 bytes);
    decimals = byte_at bytes 41;
    bps = read_bps bytes settle_token_n_header_length count;
  })

-- `data.length >= 33 && eventSeed.every((byte, i) => data[1 + i] === byte)`: the seed has 32 bytes.
unfoldable pub has_event_seed : Bytes → Bytes → Bool
has_event_seed bytes event_seed =
    leb 33 (length bytes) && same_bytes (slice 1 (length event_seed) bytes) event_seed

module _ (w : Solana) where
  open w use {decode_base58}

  unfoldable pub decode_settle_n_data : String → Result DecodedSettleN
  decode_settle_n_data text = or_throw (decode_base58 text) bad_data >>= decode_settle_n_bytes

  unfoldable pub decode_settle_token_n_data : String → Result DecodedSettleTokenN
  decode_settle_token_n_data text =
      or_throw (decode_base58 text) bad_data >>= decode_settle_token_n_bytes

  -- Data that is no base58 decodes to nothing.
  unfoldable pub decode_data : String → Bytes
  decode_data text = elim (decode_base58 text) [ none ↦ [] | some bytes ↦ bytes ]

  unfoldable pub instruction_tag : String → Option ℕ
  instruction_tag text = elim (decode_data text) [ [] ↦ none | tag ∷ _ ↦ some tag ]
