-- ===== src/Ledger/Written.antt =====
-- The bytes that `encodeSettleNData` and `encodeSettleTokenNData` write, as a layout.
use synxed_solana_protocol.Base.{
  ℕ, suc, ◌+◌, ◌*◌, ◌%◌, ◌^◌, ◌≤◌, ◌<◌, ◌≡◌, refl, sym, ap, ◌∙◌, List, [], ◌∷◌, ◌++◌, length,
  length-map, length-append, arith,
}
use synxed_solana_protocol.Base.Int.{ℤ, pos}
use synxed_solana_protocol.Types.{JsNumber, int}
use synxed_solana_protocol.Bytes.{Bytes, zeros, set_at, le_bytes, to_uint16, to_uint64}
use synxed_solana_protocol.Bytes.Layout.{
  zeros-add, set_at-skip, set_at-front, set_at-append, length-le_bytes, length-zeros,
}
use synxed_solana_protocol.Split.Shares.{sum, numbers, IsShares}
use synxed_solana_protocol.Instruction.Encode.{
  set_bps, set_byte, SettleNParams, write_settle_n, SettleTokenNParams, write_settle_token_n,
}
use synxed_solana_protocol.Ledger.Layout.{layout, set_bps-numbers, bps_bytes}
use mathlib.Core.List.{append_assoc}

zeros_41 : (room : Bytes) → zeros 41 ++ room ≡ zeros 1 ++ (zeros 32 ++ (zeros 8 ++ room))
unfolding zeros
zeros_41 room = refl

set_byte-front : (b : ℕ) (room : Bytes) → b < 256 → set_byte 0 b (zeros 1 ++ room) ≡ b ∷ room
set_byte-front b room h =
    set_at-front (b % 256 ∷ []) (zeros 1) room (sym (length-zeros 1))
    ∙ ap (λ (t : ℕ). t ∷ room) (omega arith)

module _ (tag : ℕ) (seed : Bytes) (amount : ℕ) (t : tag < 256) (h : length seed ≡ 32) where
  -- The tag, the event id and the amount, written into an array of zeros.
  filled_header :
      (room : Bytes)
      → set_at 33 (le_bytes 8 amount) (set_at 1 seed (set_byte 0 tag (zeros 41 ++ room)))
        ≡ tag ∷ (seed ++ (le_bytes 8 amount ++ room))
  filled_header room =
      ap (λ (b : Bytes). set_at 33 (le_bytes 8 amount) (set_at 1 seed b))
        (ap (set_byte 0 tag) (zeros_41 room) ∙ set_byte-front tag (zeros 32 ++ (zeros 8 ++ room)) t)
      ∙ ap (set_at 33 (le_bytes 8 amount)) (
          set_at-append (tag ∷ []) seed (zeros 32) (zeros 8 ++ room) 1 refl
            (h ∙ sym (length-zeros 32)))
      ∙ set_at-append (tag ∷ seed) (le_bytes 8 amount) (zeros 8) room 33 (ap suc h)
          (length-le_bytes 8 amount ∙ sym (length-zeros 8))

  -- A write behind the amount.
  set_behind :
      (bytes rest : Bytes) (k : ℕ)
      → set_at (41 + k) bytes (tag ∷ (seed ++ (le_bytes 8 amount ++ rest)))
        ≡ tag ∷ (seed ++ (le_bytes 8 amount ++ set_at k bytes rest))
  set_behind bytes rest k =
      let le = le_bytes 8 amount in
      ap (λ (i : ℕ). set_at i bytes (tag ∷ (seed ++ (le ++ rest))))
        (let e : 41 + k ≡ 33 + (8 + k) = omega arith in e)
      ∙ set_at-skip (tag ∷ seed) (le ++ rest) bytes 33 (8 + k) (ap suc h)
      ∙ ap (λ (b : Bytes). tag ∷ (seed ++ b))
          (set_at-skip le rest bytes 8 k (length-le_bytes 8 amount))

  -- The shares, behind the single bytes.
  set_shares :
      (single : Bytes) (ns : List ℕ) (offset : ℕ)
      → 41 + length single ≡ offset
      → sum ns ≤ 10000
      → set_bps offset
          (numbers ns)
          (tag ∷ (seed ++ (le_bytes 8 amount ++ (single ++ zeros (2 * length ns)))))
        ≡ layout tag seed amount single ns
  set_shares single ns offset e k =
      let le = le_bytes 8 amount in
      let front = tag ∷ (seed ++ (le ++ single)) in
      let size : length front ≡ offset = omega (
        arith,
        length-append seed (le ++ single),
        length-append le single,
        length-le_bytes 8 amount,
      ) in
      ap (set_bps offset (numbers ns)) (regroup (zeros (2 * length ns)))
      ∙ set_bps-numbers front ns offset size k
      ∙ sym (regroup (bps_bytes ns))
    where
      regroup :
          (rest : Bytes)
          → tag ∷ (seed ++ (le_bytes 8 amount ++ (single ++ rest)))
            ≡ (tag ∷ (seed ++ (le_bytes 8 amount ++ single))) ++ rest
      regroup rest = simp append_assoc

-- The bytes of `SettleN` data, over the parts that its parameters hold.
settle_n_bytes : Bytes → List JsNumber → ℕ → ℕ → Bytes
settle_n_bytes seed bps count amount =
    let empty = set_byte 0 5 (zeros (42 + 2 * count)) in
    set_bps 42 bps (set_byte 41 count (set_at 33 (le_bytes 8 amount) (set_at 1 seed empty)))

settle_n_bytes-layout :
    (seed : Bytes) (amount : ℕ) (ns : List ℕ)
    → length seed ≡ 32
    → IsShares ns
    → settle_n_bytes seed (numbers ns) (length ns) amount ≡ layout 5 seed amount (length ns ∷ []) ns
unfolding settle_n_bytes
settle_n_bytes-layout seed amount ns h shares =
    let n = length ns in
    let rest = zeros (2 * n) in
    let room : zeros (42 + 2 * n) ≡ zeros 41 ++ (zeros 1 ++ rest) =
      ap zeros (let e : 42 + 2 * n ≡ 41 + (1 + 2 * n) = omega arith in e)
      ∙ zeros-add 41 (1 + 2 * n)
      ∙ ap (λ (b : Bytes). zeros 41 ++ b) (zeros-add 1 (2 * n)) in
    ap
      (λ (z : Bytes).
        set_bps 42 (numbers ns)
          (set_byte 41 n (set_at 33 (le_bytes 8 amount) (set_at 1 seed (set_byte 0 5 z)))))
      room
    ∙ ap (λ (b : Bytes). set_bps 42 (numbers ns) (set_byte 41 n b))
        (filled_header 5 seed amount (omega arith) h (zeros 1 ++ rest))
    ∙ ap (set_bps 42 (numbers ns)) (
        set_behind 5 seed amount (omega arith) h (n % 256 ∷ []) (zeros 1 ++ rest) 0
        ∙ ap (λ (b : Bytes). 5 ∷ (seed ++ (le_bytes 8 amount ++ b)))
            (set_byte-front n rest (omega arith)))
    ∙ set_shares 5 seed amount (omega arith) h (n ∷ []) ns 42 refl (omega arith)

to_uint64-pos : (z : ℤ) (n : ℕ) → z ≡ pos n → n < 2 ^ 64 → to_uint64 z ≡ n
to_uint64-pos z n e h = ap to_uint64 e ∙ omega arith

to_uint16-pos : (d : JsNumber) (n : ℕ) → d ≡ int (pos n) → n < 256 → to_uint16 d ≡ n
to_uint16-pos d n e h = ap to_uint16 e ∙ omega arith

length-numbers : (bps : List JsNumber) (ns : List ℕ) → bps ≡ numbers ns → length bps ≡ length ns
length-numbers bps ns e = ap length e ∙ length-map (λ (n : ℕ). int (pos n)) ns

-- `encodeSettleNData` writes the tag, the event id, the amount, the count and the shares.
pub write_settle_n-layout :
    (params : SettleNParams) (amount : ℕ) (ns : List ℕ)
    → length params.event_seed ≡ 32
    → params.amount ≡ pos amount
    → amount < 2 ^ 64
    → params.bps ≡ numbers ns
    → IsShares ns
    → write_settle_n params ≡ layout 5 params.event_seed amount (length ns ∷ []) ns
write_settle_n-layout params amount ns h e small eb shares =
    unfold write_settle_n settle_n_bytes in
    (cc (
      eb,
      length-numbers params.bps ns eb,
      to_uint64-pos params.amount amount e small,
      settle_n_bytes-layout params.event_seed amount ns h shares,
    ))

-- The bytes of `SettleTokenN` data, over the parts that its parameters hold.
settle_token_n_bytes : Bytes → List JsNumber → ℕ → ℕ → ℕ → Bytes
settle_token_n_bytes seed bps count amount decimals =
    let empty = set_byte 0 6 (zeros (43 + 2 * count)) in
    let paid = set_at 33 (le_bytes 8 amount) (set_at 1 seed empty) in
    set_bps 43 bps (set_byte 42 count (set_byte 41 decimals paid))

settle_token_n_bytes-layout :
    (seed : Bytes) (amount decimals : ℕ) (ns : List ℕ)
    → length seed ≡ 32
    → decimals < 256
    → IsShares ns
    → settle_token_n_bytes seed (numbers ns) (length ns) amount decimals
      ≡ layout 6 seed amount (decimals ∷ length ns ∷ []) ns
unfolding settle_token_n_bytes
settle_token_n_bytes-layout seed amount decimals ns h small shares =
    let n = length ns in
    let rest = zeros (2 * n) in
    let le = le_bytes 8 amount in
    let room : zeros (43 + 2 * n) ≡ zeros 41 ++ (zeros 1 ++ (zeros 1 ++ rest)) =
      ap zeros (let e : 43 + 2 * n ≡ 41 + (1 + (1 + 2 * n)) = omega arith in e)
      ∙ zeros-add 41 (1 + (1 + 2 * n))
      ∙ ap (λ (b : Bytes). zeros 41 ++ b)
          (zeros-add 1 (1 + 2 * n) ∙ ap (λ (b : Bytes). zeros 1 ++ b) (zeros-add 1 (2 * n))) in
    ap
      (λ (z : Bytes).
        set_bps 43 (numbers ns)
          (set_byte 42 n (set_byte 41 decimals (set_at 33 le (set_at 1 seed (set_byte 0 6 z))))))
      room
    ∙ ap (λ (b : Bytes). set_bps 43 (numbers ns) (set_byte 42 n (set_byte 41 decimals b)))
        (filled_header 6 seed amount (omega arith) h (zeros 1 ++ (zeros 1 ++ rest)))
    ∙ ap (λ (b : Bytes). set_bps 43 (numbers ns) (set_byte 42 n b))
        (set_behind 6 seed amount (omega arith) h (decimals % 256 ∷ [])
            (zeros 1 ++ (zeros 1 ++ rest)) 0
          ∙ ap (λ (b : Bytes). 6 ∷ (seed ++ (le ++ b)))
              (set_byte-front decimals (zeros 1 ++ rest) small))
    ∙ ap (set_bps 43 (numbers ns)) (
        set_behind 6 seed amount (omega arith) h (n % 256 ∷ []) (decimals ∷ (zeros 1 ++ rest)) 1
        ∙ ap (λ (b : Bytes). 6 ∷ (seed ++ (le ++ b)))
            (set_at-skip (decimals ∷ []) (zeros 1 ++ rest) (n % 256 ∷ []) 1 0 refl
              ∙ ap (◌∷◌ decimals) (set_byte-front n rest (omega arith))))
    ∙ set_shares 6 seed amount (omega arith) h (decimals ∷ n ∷ []) ns 43 refl (omega arith)

-- `encodeSettleTokenNData` writes the same with the decimals before the count.
pub write_settle_token_n-layout :
    (params : SettleTokenNParams) (amount decimals : ℕ) (ns : List ℕ)
    → length params.event_seed ≡ 32
    → params.amount ≡ pos amount
    → amount < 2 ^ 64
    → params.decimals ≡ int (pos decimals)
    → decimals < 256
    → params.bps ≡ numbers ns
    → IsShares ns
    → write_settle_token_n params ≡ layout 6 params.event_seed amount (decimals ∷ length ns ∷ []) ns
write_settle_token_n-layout params amount decimals ns h e small ed tiny eb shares =
    unfold write_settle_token_n settle_token_n_bytes in
    (cc (
      eb,
      length-numbers params.bps ns eb,
      to_uint64-pos params.amount amount e small,
      to_uint16-pos params.decimals decimals ed tiny,
      settle_token_n_bytes-layout params.event_seed amount decimals ns h tiny shares,
    ))
