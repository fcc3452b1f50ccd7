-- ===== src/Ledger/Layout.antt =====
-- The layout of settlement data: what the encoders write, as one list of parts.
use synxed_solana_protocol.Base.{
  ℕ, suc, ◌+◌, ◌*◌, ◌^◌, ◌≤◌, ◌<◌, ◌≡◌, refl, sym, ap, ◌∙◌, List, [], ◌∷◌, ◌++◌, length,
  length-append, drop, take, arith,
}
use synxed_solana_protocol.Base.Int.{pos}
use synxed_solana_protocol.Types.{int}
use synxed_solana_protocol.Bytes.{Bytes, zeros, set_at, le_bytes, of_le, to_uint16, slice}
use synxed_solana_protocol.Bytes.Layout.{
  zeros-add, set_at-append, length-le_bytes, of_le-le_bytes, length-zeros, drop-append, take-append,
  drop-drop,
}
use synxed_solana_protocol.Split.Shares.{sum, numbers}
use synxed_solana_protocol.Instruction.Encode.{set_bps}
use synxed_solana_protocol.Ledger.Decode.{read_bps}
use mathlib.Core.List.{append_assoc}
use Prim.Native.Nat.add

abbrev pub bps_bytes : List ℕ → Bytes
bps_bytes [] = []
bps_bytes (n ∷ ns) = le_bytes 2 n ++ bps_bytes ns

pub length-bps_bytes : (ns : List ℕ) → length (bps_bytes ns) ≡ 2 * length ns
length-bps_bytes [] = refl
length-bps_bytes (n ∷ ns) =
    omega
      (arith, length-append (le_bytes 2 n) (bps_bytes ns), length-le_bytes 2 n, length-bps_bytes ns)

-- One share written behind `front`.
set_share :
    (front : Bytes) (n offset rest : ℕ)
    → length front ≡ offset
    → n ≤ 10000
    → set_at offset (le_bytes 2 (to_uint16 (int (pos n)))) (front ++ zeros (2 * suc rest))
      ≡ (front ++ le_bytes 2 n) ++ zeros (2 * rest)
set_share front n offset rest h k =
    let fits : to_uint16 (int (pos n)) ≡ n = omega arith in
    let room : 2 * suc rest ≡ 2 + 2 * rest = omega arith in
    ap (λ (t : ℕ). set_at offset (le_bytes 2 t) (front ++ zeros (2 * suc rest))) fits
    ∙ ap (λ (t : Bytes). set_at offset (le_bytes 2 n) (front ++ t))
        (ap zeros room ∙ zeros-add 2 (2 * rest))
    ∙ set_at-append front (le_bytes 2 n) (zeros 2) (zeros (2 * rest)) offset h
        (length-le_bytes 2 n ∙ sym (length-zeros 2))
    ∙ sym (append_assoc front (le_bytes 2 n) (zeros (2 * rest)))

-- Writing the shares into the zeros behind `front`.
pub set_bps-numbers :
    (front : Bytes) (ns : List ℕ) (offset : ℕ)
    → length front ≡ offset
    → sum ns ≤ 10000
    → set_bps offset (numbers ns) (front ++ zeros (2 * length ns)) ≡ front ++ bps_bytes ns
unfolding set_bps
set_bps-numbers front [] offset h k = unfold zeros in refl
set_bps-numbers front (n ∷ ns) offset h k =
    let le = le_bytes 2 n in
    ap (set_bps (offset + 2) (numbers ns)) (set_share front n offset (length ns) h (omega arith))
    ∙ set_bps-numbers (front ++ le) ns (offset + 2)
        (omega (arith, length-append front le, length-le_bytes 2 n)) (omega arith)
    ∙ append_assoc front le (bps_bytes ns)

-- Reading them back.
pub read_bps-bps_bytes :
    (bytes : Bytes) (ns : List ℕ) (offset : ℕ)
    → drop offset bytes ≡ bps_bytes ns
    → sum ns ≤ 10000
    → read_bps bytes offset (length ns) ≡ ns
unfolding read_bps
read_bps-bps_bytes bytes [] offset h k = refl
read_bps-bps_bytes bytes (n ∷ ns) offset h k =
    let value : of_le (slice offset 2 bytes) ≡ n =
      ap (λ (t : Bytes). of_le (take 2 t)) h
      ∙ ap of_le (take-append (le_bytes 2 n) (bps_bytes ns) 2 (length-le_bytes 2 n))
      ∙ of_le-le_bytes 2 n (omega arith) in
    let next : drop (offset + 2) bytes ≡ bps_bytes ns =
      sym (drop-drop offset 2 bytes)
      ∙ ap (drop 2) h
      ∙ drop-append (le_bytes 2 n) (bps_bytes ns) 2 0 (length-le_bytes 2 n) in
    cc (value, read_bps-bps_bytes bytes ns (offset + 2) next (omega arith))

-- A header (the tag, the event id, the amount, and one or two single bytes) and the shares.
abbrev pub layout : ℕ → Bytes → ℕ → Bytes → List ℕ → Bytes
layout tag seed amount single ns = tag ∷ (seed ++ (le_bytes 8 amount ++ (single ++ bps_bytes ns)))

pub length-layout :
    (tag : ℕ) (seed : Bytes) (amount : ℕ) (single : Bytes) (ns : List ℕ)
    → length seed ≡ 32
    → length (layout tag seed amount single ns) ≡ 41 + length single + 2 * length ns
length-layout tag seed amount single ns h = omega (
  arith,
  length-append seed (le_bytes 8 amount ++ (single ++ bps_bytes ns)),
  length-append (le_bytes 8 amount) (single ++ bps_bytes ns),
  length-append single (bps_bytes ns),
  length-le_bytes 8 amount,
  length-bps_bytes ns,
)

-- What stands at each offset of a layout.
module _ (tag : ℕ) (seed : Bytes) (amount : ℕ) (single : Bytes) (ns : List ℕ)
    (h : length seed ≡ 32) where
  pub layout_seed : slice 1 32 (layout tag seed amount single ns) ≡ seed
  layout_seed = take-append seed (le_bytes 8 amount ++ (single ++ bps_bytes ns)) 32 h

  layout_behind_seed :
      (k : ℕ)
      → drop (33 + k) (layout tag seed amount single ns)
        ≡ drop k (le_bytes 8 amount ++ (single ++ bps_bytes ns))
  layout_behind_seed k =
      ap (λ (t : ℕ). drop t (layout tag seed amount single ns)) (add.suc 32 k)
      ∙ drop-append seed (le_bytes 8 amount ++ (single ++ bps_bytes ns)) 32 k h

  pub layout_amount :
      amount < 2 ^ 64 → of_le (slice 33 8 (layout tag seed amount single ns)) ≡ amount
  layout_amount small =
      ap (λ (t : Bytes). of_le (take 8 t)) (layout_behind_seed 0)
      ∙ ap of_le
          (take-append (le_bytes 8 amount) (single ++ bps_bytes ns) 8 (length-le_bytes 8 amount))
      ∙ of_le-le_bytes 8 amount small

  pub layout_single :
      (k : ℕ) → drop (41 + k) (layout tag seed amount single ns) ≡ drop k (single ++ bps_bytes ns)
  layout_single k =
      ap (λ (t : ℕ). drop t (layout tag seed amount single ns))
        (let e : 41 + k ≡ 33 + (8 + k) = omega arith in e)
      ∙ layout_behind_seed (8 + k)
      ∙ drop-append (le_bytes 8 amount) (single ++ bps_bytes ns) 8 k (length-le_bytes 8 amount)

  pub layout_bps :
      (k : ℕ) → length single ≡ k → drop (41 + k) (layout tag seed amount single ns) ≡ bps_bytes ns
  layout_bps k e =
      layout_single k
      ∙ ap (λ (t : ℕ). drop t (single ++ bps_bytes ns)) (let q : k ≡ k + 0 = omega arith in q)
      ∙ drop-append single (bps_bytes ns) k 0 e
