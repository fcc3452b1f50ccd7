-- ===== src/Ledger/RoundTrip.antt =====
-- What `decodeSettleNData` and `decodeSettleTokenNData` read from what the encoders wrote.
use synxed_solana_protocol.Base.{
  ℕ, ◌+◌, ◌*◌, ◌^◌, ◌<◌, ◌≡◌, refl, sym, ap, ◌∙◌, Option, List, [], ◌∷◌, length, arith, false,
}
use synxed_solana_protocol.Base.Int.{ℤ, pos, negsuc}
use synxed_solana_protocol.Types.{JsNumber, int, fraction, ok, ◌>>=◌, or_throw}
use synxed_solana_protocol.Bytes.{Bytes, byte_at, first}
use synxed_solana_protocol.Split.{assert_bps_shares}
use synxed_solana_protocol.Split.Shares.{numbers, IsShares, assert_bps_shares_inv}
use synxed_solana_protocol.Solana.{Solana}
use synxed_solana_protocol.Instruction.Encode.{
  SettleNParams, SettleTokenNParams, write_settle_n, write_settle_token_n, encode_settle_n_data,
  encode_settle_token_n_data, assert_seed, assert_amount_u64, bad_decimals,
}
use synxed_solana_protocol.Ledger.Decode.{
  DecodedSettleN, DecodedSettleTokenN, decode_settle_n_bytes, decode_settle_token_n_bytes,
  decode_settle_n_data, decode_settle_token_n_data, read_bps, bad_data,
}
use synxed_solana_protocol.Ledger.Layout.{
  layout, length-layout, layout_seed, layout_amount, layout_single, layout_bps, read_bps-bps_bytes,
}
use synxed_solana_protocol.Ledger.Written.{write_settle_n-layout, write_settle_token_n-layout}

module _ (seed : Bytes) (amount : ℕ) (ns : List ℕ) (h : length seed ≡ 32) (small : amount < 2 ^ 64)
    (shares : IsShares ns) where
  decode_layout :
      decode_settle_n_bytes (layout 5 seed amount (length ns ∷ []) ns)
      ≡ ok (record { event_seed = seed; amount = amount; bps = ns })
  unfolding decode_settle_n_bytes
  decode_layout =
      let single = length ns ∷ [] in
      let bytes = layout 5 seed amount single ns in
      let count : byte_at bytes 41 ≡ length ns =
        ap first (layout_single 5 seed amount single ns h 0) in
      let size : length bytes ≡ 42 + 2 * length ns =
        omega (arith, length-layout 5 seed amount single ns h) in
      let read : read_bps bytes 42 (length ns) ≡ ns =
        read_bps-bps_bytes bytes ns 42 (layout_bps 5 seed amount single ns h 1 refl)
          (omega arith) in
      ground (
        arith,
        count,
        size,
        read,
        layout_seed 5 seed amount single ns h,
        layout_amount 5 seed amount single ns h small,
      )

  decode_token_layout :
      (decimals : ℕ)
      → decode_settle_token_n_bytes (layout 6 seed amount (decimals ∷ length ns ∷ []) ns)
        ≡ ok (record { event_seed = seed; amount = amount; decimals = decimals; bps = ns })
  unfolding decode_settle_token_n_bytes
  decode_token_layout decimals =
      let single = decimals ∷ length ns ∷ [] in
      let bytes = layout 6 seed amount single ns in
      let scale : byte_at bytes 41 ≡ decimals =
        ap first (layout_single 6 seed amount single ns h 0) in
      let count : byte_at bytes 42 ≡ length ns =
        ap first (layout_single 6 seed amount single ns h 1) in
      let size : length bytes ≡ 43 + 2 * length ns =
        omega (arith, length-layout 6 seed amount single ns h) in
      let read : read_bps bytes 43 (length ns) ≡ ns =
        read_bps-bps_bytes bytes ns 43 (layout_bps 6 seed amount single ns h 2 refl)
          (omega arith) in
      ground (
        arith,
        scale,
        count,
        size,
        read,
        layout_seed 6 seed amount single ns h,
        layout_amount 6 seed amount single ns h small,
      )

assert_amount_u64_inv :
    (amount : ℤ)
    → assert_amount_u64 amount ≡ ok tt
    → (n : ℕ) × (amount ≡ pos n) × (0 < n) × (n < 2 ^ 64)
unfolding assert_amount_u64
assert_amount_u64_inv (pos n) h = (n, refl, ground arith, ground arith)
assert_amount_u64_inv (negsuc n) h = cc

-- What an encoder has checked: the seed, the amount and the shares.
abbrev Checked : Bytes → ℤ → List JsNumber → Type 0
Checked seed amount bps =
    (n : ℕ) × (ns : List ℕ) × (length seed ≡ 32)
    × (amount ≡ pos n)
    × (0 < n)
    × (n < 2 ^ 64)
    × (bps ≡ numbers ns)
    × IsShares ns

checked :
    (seed : Bytes) (amount : ℤ) (bps : List JsNumber)
    → assert_seed seed ≡ ok tt
    → assert_amount_u64 amount ≡ ok tt
    → assert_bps_shares bps ≡ ok tt
    → Checked seed amount bps
unfolding assert_seed
checked seed amount bps s a b =
    let (n, e, p, q) = assert_amount_u64_inv amount a in
    let (ns, eb, shares) = assert_bps_shares_inv bps b in (n, ns, ground arith, e, p, q, eb, shares)

encode_inv :
    (params : SettleNParams) (bytes : Bytes)
    → encode_settle_n_data params ≡ ok bytes
    → (assert_seed params.event_seed ≡ ok tt)
      × (assert_amount_u64 params.amount ≡ ok tt)
      × (assert_bps_shares params.bps ≡ ok tt)
      × (bytes ≡ write_settle_n params)
unfolding encode_settle_n_data
encode_inv params bytes h = ground arith

encode_token_inv :
    (params : SettleTokenNParams) (bytes : Bytes)
    → encode_settle_token_n_data params ≡ ok bytes
    → (assert_seed params.event_seed ≡ ok tt)
      × (assert_amount_u64 params.amount ≡ ok tt)
      × (assert_bps_shares params.bps ≡ ok tt)
      × (bad_decimals params.decimals ≡ false)
      × (bytes ≡ write_settle_token_n params)
unfolding encode_settle_token_n_data
encode_token_inv params bytes h = ground arith

decimals_inv : (d : JsNumber) → bad_decimals d ≡ false → (n : ℕ) × (d ≡ int (pos n)) × (n < 256)
decimals_inv (fraction n) h = cc
decimals_inv (int (negsuc n)) h = cc
decimals_inv (int (pos n)) h = (n, refl, ground arith)

-- What was decoded is what was given.
pub record IsDecodedN (params : SettleNParams) (decoded : DecodedSettleN) : Type 0 where
  pub same_seed : decoded.event_seed ≡ params.event_seed
  pub same_amount : pos decoded.amount ≡ params.amount
  pub same_bps : numbers decoded.bps ≡ params.bps

pub record IsDecodedTokenN (params : SettleTokenNParams) (decoded : DecodedSettleTokenN)
    : Type 0 where
  pub same_seed : decoded.event_seed ≡ params.event_seed
  pub same_amount : pos decoded.amount ≡ params.amount
  pub same_decimals : int (pos decoded.decimals) ≡ params.decimals
  pub same_bps : numbers decoded.bps ≡ params.bps

module _ (w : Solana) where
  open w use {encode_base58, decode_base58-encode_base58}

  decode_encoded :
      (bytes : Bytes) → decode_settle_n_data w (encode_base58 bytes) ≡ decode_settle_n_bytes bytes
  unfolding decode_settle_n_data
  decode_encoded bytes =
      ap (λ (o : Option Bytes). or_throw o bad_data >>= decode_settle_n_bytes)
        (decode_base58-encode_base58 bytes)

  decode_token_encoded :
      (bytes : Bytes)
      → decode_settle_token_n_data w (encode_base58 bytes) ≡ decode_settle_token_n_bytes bytes
  unfolding decode_settle_token_n_data
  decode_token_encoded bytes =
      ap (λ (o : Option Bytes). or_throw o bad_data >>= decode_settle_token_n_bytes)
        (decode_base58-encode_base58 bytes)

  -- Whatever `encodeSettleNData` returns, `decodeSettleNData` reads back from its base58 text, as
  -- the event id, the amount and the shares that were encoded.
  pub decode_settle_n_data-encode_settle_n_data :
      (params : SettleNParams) (bytes : Bytes)
      → encode_settle_n_data params ≡ ok bytes
      → (decoded : DecodedSettleN) × (decode_settle_n_data w (encode_base58 bytes) ≡ ok decoded)
        × IsDecodedN params decoded
  decode_settle_n_data-encode_settle_n_data params bytes h =
      let (s, a, b, eq) = encode_inv params bytes h in
      let (n, ns, seed, e, p, q, eb, shares) =
        checked params.event_seed params.amount params.bps s a b in
      let written = write_settle_n-layout params n ns seed e q eb shares in
      (
        record { event_seed = params.event_seed; amount = n; bps = ns },
        decode_encoded bytes
            ∙ ap decode_settle_n_bytes (eq ∙ written)
            ∙ decode_layout params.event_seed n ns seed q shares,
        record { same_seed = refl; same_amount = sym e; same_bps = sym eb },
      )

  -- Whatever `encodeSettleTokenNData` returns, `decodeSettleTokenNData` reads back from its base58
  -- text, as the event id, the amount, the decimals and the shares that were encoded.
  pub decode_settle_token_n_data-encode_settle_token_n_data :
      (params : SettleTokenNParams) (bytes : Bytes)
      → encode_settle_token_n_data params ≡ ok bytes
      → (decoded : DecodedSettleTokenN) × (decode_settle_token_n_data w (encode_base58 bytes)
          ≡ ok decoded)
        × IsDecodedTokenN params decoded
  decode_settle_token_n_data-encode_settle_token_n_data params bytes h =
      let (s, a, b, d, eq) = encode_token_inv params bytes h in
      let (n, ns, seed, e, p, q, eb, shares) =
        checked params.event_seed params.amount params.bps s a b in
      let (decimals, ed, tiny) = decimals_inv params.decimals d in
      let written = write_settle_token_n-layout params n decimals ns seed e q ed tiny eb shares in
      (
        record { event_seed = params.event_seed; amount = n; decimals = decimals; bps = ns },
        decode_token_encoded bytes
            ∙ ap decode_settle_token_n_bytes (eq ∙ written)
            ∙ decode_token_layout params.event_seed n ns seed q shares decimals,
        record { same_seed = refl; same_amount = sym e; same_decimals = sym ed; same_bps = sym eb },
      )
