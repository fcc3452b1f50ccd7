-- ===== src/Client/Scaled.antt =====
-- sdk/typescript/src/client.ts: the total that an amount and a factor make.
use synxed_solana_protocol.Base.{
  ℕ, ◌*◌, ◌<◌, ◌≡◌, refl, ap, ◌↔◌, inl, inr, ◌⊎◌, false, Option, none, some, arith,
}
use synxed_solana_protocol.Base.Int.{ℤ, pos, negsuc, ◌*ℤ◌, leb_ℤ, ltb_ℤ}
use synxed_solana_protocol.Types.{ok}
use synxed_solana_protocol.Instruction.Encode.{u64_max}
use synxed_solana_protocol.Ledger.Reconcile.{given}
use synxed_solana_protocol.Client.Prepare.{scaled_total}

-- What a scaled total that is returned passed.
pub scaled_total_tests :
    (amount : ℤ) (scale : Option ℤ) (total : ℤ)
    → scaled_total amount scale ≡ ok total
    → (leb_ℤ (given scale (pos 1)) (pos 0) ≡ false)
      × (total ≡ amount *ℤ given scale (pos 1))
      × (ltb_ℤ u64_max total ≡ false)
unfolding scaled_total
scaled_total_tests amount scale total h = ground arith

-- The factor that is given, 1 where none is.
abbrev pub IsFactor : Option ℤ → ℕ → Type 0
IsFactor scale f = ((scale ≡ none) × (f ≡ 1)) ⊎ (scale ≡ some (pos f))

scaled_total-pos :
    (a f : ℕ) (scale : Option ℤ) (total : ℤ)
    → IsFactor scale f
    → 0 < f
    → total ≡ pos (a * f)
    → a * f < 18446744073709551616
    → scaled_total (pos a) scale ≡ ok total
unfolding scaled_total
scaled_total-pos a f scale total (inl (q, r)) p e b =
    rw (q, e) (let one : a * f ≡ a * 1 = ap (λ (n : ℕ). a * n) r in ground arith)
scaled_total-pos a f scale total (inr q) p e b = rw (q, e) (ground arith)

scaled_total-IsFactor :
    (a : ℕ) (scale : Option ℤ) (total : ℤ)
    → scaled_total (pos a) scale ≡ ok total
    → (f : ℕ) × IsFactor scale f × (0 < f) × (total ≡ pos (a * f)) × (a * f < 18446744073709551616)
unfolding scaled_total
scaled_total-IsFactor a none total h =
    (1, inl (refl, refl), omega arith, ground arith, ground arith)
scaled_total-IsFactor a (some (pos f)) total h =
    (f, inr refl, ground arith, ground arith, ground arith)
scaled_total-IsFactor a (some (negsuc f)) total h = absurd (ground arith)

-- The scaled total of an amount that is not negative is returned just where the factor, 1 where none
-- is given, is positive and the amount times the factor is below 2^64; and it is that product.
pub scaled_total_iff :
    (a : ℕ) (scale : Option ℤ) (total : ℤ)
    → (scaled_total (pos a) scale ≡ ok total) ↔ (
        (f : ℕ) × IsFactor scale f
        × (0 < f)
        × (total ≡ pos (a * f))
        × (a * f < 18446744073709551616))
scaled_total_iff a scale total = (
  scaled_total-IsFactor a scale total,
  λ (f, q, p, e, b). scaled_total-pos a f scale total q p e b,
)
