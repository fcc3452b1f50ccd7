-- ===== src/Base/Decimal.antt =====
-- Decimal texts: `toString` of a bigint, and what `/^\d+$/` and `BigInt` read.
use synxed_solana_protocol.Base.Tests.{ltb, leb, if◌then◌else◌, Bool-cases, ltb→lt}
use synxed_solana_protocol.Base.Int.{ℤ, pos, negsuc}
use synxed_solana_protocol.Base.Text.{String}
use Prim.Native.Nat.{ℕ, zero, suc, ◌+◌, ◌-◌, ◌*◌, ◌/◌, ◌%◌, ◌<◌}
use Prim.Native.Char.{Char, code}
use mathlib.Core.Path.{◌≡◌, refl, ap, sym, ◌∙◌}
use mathlib.Core.Logic.{inl, inr}
use mathlib.Core.Bool.{Bool, true, ◌&&◌}
use mathlib.Core.Option.{Option, none, some}
use native.Mathlib.Omega.{arith}

abbrev pub digit : ℕ → Char
digit zero = "0"
digit (suc zero) = "1"
digit (suc (suc zero)) = "2"
digit (suc (suc (suc zero))) = "3"
digit (suc (suc (suc (suc zero)))) = "4"
digit (suc (suc (suc (suc (suc zero))))) = "5"
digit (suc (suc (suc (suc (suc (suc zero)))))) = "6"
digit (suc (suc (suc (suc (suc (suc (suc zero))))))) = "7"
digit (suc (suc (suc (suc (suc (suc (suc (suc zero)))))))) = "8"
digit _ = "9"

-- The digits of `n` in front of `s`; more fuel than `n` is enough.
unfoldable pub show_digits : ℕ → ℕ → String → String
show_digits zero n s = s
show_digits (suc fuel) n s =
    let last = String.◌∷◌ (digit (n % 10)) s in
    let more = show_digits fuel (n / 10) last in if ltb n 10 then last else more

unfoldable pub show_ℕ : ℕ → String
unfolding show_digits
show_ℕ n = show_digits (suc n) n ""

-- `n.toString()`
unfoldable pub show_ℤ : ℤ → String
unfolding show_ℕ
show_ℤ (pos n) = show_ℕ n
show_ℤ (negsuc n) = String.◌∷◌ "-" (show_ℕ (suc n))

-- The number that decimal digits stand for, behind the number `n`.
unfoldable pub read_digits : ℕ → String → ℕ
read_digits n String.[] = n
read_digits n (String.◌∷◌ c s) = read_digits (10 * n + (code c - 48)) s

abbrev pub is_digit : Char → Bool
is_digit c = leb 48 (code c) && leb (code c) 57

abbrev pub all_digits : String → Bool
all_digits String.[] = true
all_digits (String.◌∷◌ c s) = is_digit c && all_digits s

-- A text that matches `/^\d+$/`, as a number.
abbrev pub read_ℕ : String → Option ℕ
read_ℕ String.[] = none
read_ℕ (String.◌∷◌ c s) =
    if all_digits (String.◌∷◌ c s) then some (read_digits 0 (String.◌∷◌ c s)) else none

pub code-digit : (n : ℕ) → n < 10 → code (digit n) ≡ 48 + n
code-digit zero h = refl
code-digit (suc zero) h = refl
code-digit (suc (suc zero)) h = refl
code-digit (suc (suc (suc zero))) h = refl
code-digit (suc (suc (suc (suc zero)))) h = refl
code-digit (suc (suc (suc (suc (suc zero))))) h = refl
code-digit (suc (suc (suc (suc (suc (suc zero)))))) h = refl
code-digit (suc (suc (suc (suc (suc (suc (suc zero))))))) h = refl
code-digit (suc (suc (suc (suc (suc (suc (suc (suc zero)))))))) h = refl
code-digit (suc (suc (suc (suc (suc (suc (suc (suc (suc zero))))))))) h = refl
code-digit (suc (suc (suc (suc (suc (suc (suc (suc (suc (suc n)))))))))) h = absurd (omega arith)

read_digits-show_digits :
    (fuel n : ℕ) (s : String) → n < fuel → read_digits 0 (show_digits fuel n s) ≡ read_digits n s
unfolding read_digits show_digits
read_digits-show_digits zero n s h = absurd (omega arith)
read_digits-show_digits (suc fuel) n s h = elim (Bool-cases (ltb n 10)) [
  | inl small ↦ rw small (
      ap (λ (t : ℕ). read_digits t s)
        (omega (arith, code-digit (n % 10) (omega arith), ltb→lt n 10 small)))
  | inr large ↦ rw large (
      read_digits-show_digits fuel (n / 10) (String.◌∷◌ (digit (n % 10)) s) (ground arith)
      ∙ ap (λ (t : ℕ). read_digits t s) (omega (arith, code-digit (n % 10) (omega arith))))
]

pub read_digits-show_ℕ : (n : ℕ) → read_digits 0 (show_ℕ n) ≡ n
unfolding show_ℕ read_digits
read_digits-show_ℕ n = read_digits-show_digits (suc n) n "" (omega arith)

-- Two numbers with one text are one number.
pub show_ℕ_inj : (m n : ℕ) → show_ℕ m ≡ show_ℕ n → m ≡ n
show_ℕ_inj m n h = sym (read_digits-show_ℕ m) ∙ ap (read_digits 0) h ∙ read_digits-show_ℕ n
