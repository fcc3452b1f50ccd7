-- ===== src/Ledger/Keys.antt =====
-- sdk/typescript/src/ledger.ts, `transferKey` and `tokenTransferKey`: texts joined by U+0000 are equal
-- only where their parts are, so that comparing keys compares transfers.
use synxed_solana_protocol.Base.{
  ℕ, zero, suc, ◌+◌, ◌/◌, ◌%◌, ◌≡◌, refl, sym, ap, ◌∙◌, inl, inr, Bool, true, false, not, ◌&&◌,
  List, [], ◌∷◌, map, arith, Bool-cases, ltb, ◌==◌, if◌then◌else◌,
}
use synxed_solana_protocol.Base.Int.{ℤ, pos, negsuc}
use synxed_solana_protocol.Base.Text.{String, ◌===◌}
use synxed_solana_protocol.Base.Decimal.{
  digit, code-digit, show_digits, show_ℕ, show_ℤ, show_ℕ_inj, read_digits, read_digits-show_ℕ,
}
use synxed_solana_protocol.Ledger.Match.{part}
use synxed_solana_protocol.Ledger.Matched.{count}
use Prim.Native.Char.{code, nul}
use Prim.Native.String.append

-- No U+0000 stands in the text.
abbrev pub is_plain : String → Bool
is_plain String.[] = true
is_plain (String.◌∷◌ c s) = not (code c == 0) && is_plain s

-- What stands before the first U+0000, and what behind it.
abbrev before_nul : String → String
before_nul String.[] = String.[]
before_nul (String.◌∷◌ c s) = if code c == 0 then String.[] else String.◌∷◌ c (before_nul s)

abbrev after_nul : String → String
after_nul String.[] = String.[]
after_nul (String.◌∷◌ c s) = if code c == 0 then s else after_nul s

before_nul-part : (s rest : String) → is_plain s ≡ true → before_nul (part s rest) ≡ s
before_nul-part String.[] rest h = ap before_nul (append.nil (String.◌∷◌ nul rest))
before_nul-part (String.◌∷◌ c s) rest h = elim (Bool-cases (code c == 0)) [
  | inl q ↦ absurd (ground arith)
  | inr q ↦
      rw (append.cons c s (String.◌∷◌ nul rest), q)
        (ap (String.◌∷◌ c) (before_nul-part s rest (ground arith)))
]

after_nul-part : (s rest : String) → is_plain s ≡ true → after_nul (part s rest) ≡ rest
after_nul-part String.[] rest h = ap after_nul (append.nil (String.◌∷◌ nul rest))
after_nul-part (String.◌∷◌ c s) rest h = elim (Bool-cases (code c == 0)) [
  | inl q ↦ absurd (ground arith)
  | inr q ↦ rw (append.cons c s (String.◌∷◌ nul rest), q) (after_nul-part s rest (ground arith))
]

-- A part without U+0000 and what follows it can be told from the text they make.
pub part_inj :
    (s t a b : String)
    → is_plain s ≡ true
    → is_plain t ≡ true
    → part s a ≡ part t b
    → (s ≡ t) × (a ≡ b)
part_inj s t a b p q h = (
  sym (before_nul-part s a p) ∙ ap before_nul h ∙ before_nul-part t b q,
  sym (after_nul-part s a p) ∙ ap after_nul h ∙ after_nul-part t b q,
)

show_digits-is_plain :
    (fuel n : ℕ) (s : String) → is_plain s ≡ true → is_plain (show_digits fuel n s) ≡ true
unfolding show_digits
show_digits-is_plain zero n s h = h
show_digits-is_plain (suc fuel) n s h =
    let printed = code-digit (n % 10) (omega arith) in
    let last : is_plain (String.◌∷◌ (digit (n % 10)) s) ≡ true = ground (arith, printed) in
    elim (Bool-cases (ltb n 10)) [
      | inl small ↦ rw small last
      | inr large ↦
          rw large (show_digits-is_plain fuel (n / 10) (String.◌∷◌ (digit (n % 10)) s) last)
    ]

pub show_ℕ-is_plain : (n : ℕ) → is_plain (show_ℕ n) ≡ true
unfolding show_ℕ
show_ℕ-is_plain n = show_digits-is_plain (suc n) n "" refl

abbrev characters : String → ℕ
characters String.[] = 0
characters (String.◌∷◌ c s) = suc (characters s)

-- The number behind the sign.
abbrev magnitude : ℤ → ℕ
magnitude (pos n) = n
magnitude (negsuc n) = suc n

read_digits-show_ℤ : (a : ℤ) → read_digits 0 (show_ℤ a) ≡ magnitude a
unfolding show_ℤ read_digits
read_digits-show_ℤ (pos n) = read_digits-show_ℕ n
read_digits-show_ℤ (negsuc n) = read_digits-show_ℕ (suc n)

-- A number and its negative have texts of different lengths.
signs_differ : (n m : ℕ) → show_ℤ (pos n) ≡ show_ℤ (negsuc m) → ⊥
unfolding show_ℤ
signs_differ n m h =
    let same : n ≡ suc m =
      sym (read_digits-show_ℤ (pos n)) ∙ ap (read_digits 0) h ∙ read_digits-show_ℤ (negsuc m) in
    let size : characters (show_ℕ n) ≡ suc (characters (show_ℕ (suc m))) = ap characters h in
    let size_too : characters (show_ℕ n) ≡ characters (show_ℕ (suc m)) =
      ap (λ (k : ℕ). characters (show_ℕ k)) same in
    absurd (omega (arith, size, size_too))

-- Two numbers with one text are one number.
pub show_ℤ_inj : (a b : ℤ) → show_ℤ a ≡ show_ℤ b → a ≡ b
unfolding show_ℤ
show_ℤ_inj (pos n) (pos m) h = ap pos (show_ℕ_inj n m h)
show_ℤ_inj (pos n) (negsuc m) h = absurd (signs_differ n m h)
show_ℤ_inj (negsuc n) (pos m) h = absurd (signs_differ m n (sym h))
show_ℤ_inj (negsuc n) (negsuc m) h =
    let same : suc n ≡ suc m =
      sym (read_digits-show_ℤ (negsuc n)) ∙ ap (read_digits 0) h ∙ read_digits-show_ℤ (negsuc m) in
    ground arith

-- How often `a` stands in a list, where `same` compares.
abbrev pub times : {A : Type 0} → (A → A → Bool) → A → List A → ℕ
times same a [] = 0
times same a (x ∷ xs) = (if same x a then 1 else 0) + times same a xs

abbrev pub every : {A : Type 0} → (A → Bool) → List A → Bool
every fine [] = true
every fine (x ∷ xs) = fine x && every fine xs

-- Values with a key, and those whose key tells them apart.
module _ {A : Type 0} (key : A → String) (same : A → A → Bool) (fine : A → Bool) where
  count-key :
      ((a b : A) → fine a ≡ true → fine b ≡ true → (key a === key b) ≡ same a b)
      → (a : A) (xs : List A) → fine a ≡ true
      → every fine xs ≡ true
      → count (key a) (map key xs) ≡ times same a xs
  count-key law a [] f h = refl
  count-key law a (x ∷ xs) f h =
      let tail = count-key law a xs f (ground arith) in
      let head = law x a (ground arith) f in
      ap (λ (b : Bool). (if b then 1 else 0) + count (key a) (map key xs)) head
      ∙ ap (λ (n : ℕ). (if same x a then 1 else 0) + n) tail

  times-zero :
      ((a b : A) → same a b ≡ true → fine a ≡ fine b)
      → (a : A) (xs : List A) → fine a ≡ false
      → every fine xs ≡ true
      → times same a xs ≡ 0
  times-zero law a [] f h = refl
  times-zero law a (x ∷ xs) f h = elim (Bool-cases (same x a)) [
    | inl q ↦ absurd (ground (arith, law x a q))
    | inr q ↦ let tail = times-zero law a xs f (ground arith) in ground arith
  ]

  -- Two lists whose keys are the same, each as often, hold the same values, each as often.
  pub times-key :
      ((a b : A) → fine a ≡ true → fine b ≡ true → (key a === key b) ≡ same a b)
      → ((a b : A) → same a b ≡ true → fine a ≡ fine b)
      → (xs ys : List A) → every fine xs ≡ true
      → every fine ys ≡ true
      → ((k : String) → count k (map key xs) ≡ count k (map key ys))
      → (a : A) → times same a xs ≡ times same a ys
  times-key keys fines xs ys f g h a = elim (Bool-cases (fine a)) [
    | inl q ↦ sym (count-key keys a xs q f) ∙ h (key a) ∙ count-key keys a ys q g
    | inr q ↦ times-zero fines a xs q f ∙ sym (times-zero fines a ys q g)
  ]
