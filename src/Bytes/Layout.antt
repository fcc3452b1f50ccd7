-- ===== src/Bytes/Layout.antt =====
-- Writing into an array of zeros part by part is putting the parts one behind another, and reading
-- at an offset skips the parts before it.
use synxed_solana_protocol.Base.{
  ℕ, zero, suc, ◌+◌, ◌*◌, ◌/◌, ◌^◌, ◌<◌, ◌≡◌, refl, ap, sym, ◌∙◌, List, [], ◌∷◌, ◌++◌, length, take,
  drop, arith,
}
use Prim.Native.Nat.add
use native.Mathlib.Nat.{pow-suc}
use synxed_solana_protocol.Bytes.{Bytes, zeros, overwrite, set_at, le_bytes, of_le}

pub length-zeros : (n : ℕ) → length (zeros n) ≡ n
unfolding zeros
length-zeros zero = refl
length-zeros (suc n) = ap suc (length-zeros n)

pub zeros-add : (m n : ℕ) → zeros (m + n) ≡ zeros m ++ zeros n
unfolding zeros
zeros-add zero n = ap zeros (omega arith)
zeros-add (suc m) n =
    ap zeros (let e : suc m + n ≡ suc (m + n) = omega arith in e) ∙ ap (◌∷◌ 0) (zeros-add m n)

-- A write over as many bytes replaces them and leaves what follows.
pub overwrite-append :
    (bytes old rest : Bytes)
    → length bytes ≡ length old
    → overwrite bytes (old ++ rest) ≡ bytes ++ rest
unfolding overwrite
overwrite-append [] [] rest h = refl
overwrite-append [] (x ∷ old) rest h = absurd (omega arith)
overwrite-append (b ∷ bytes) [] rest h = absurd (omega arith)
overwrite-append (b ∷ bytes) (x ∷ old) rest h =
    ap (◌∷◌ b) (overwrite-append bytes old rest (omega arith))

pub set_at-append :
    (front bytes old rest : Bytes) (n : ℕ)
    → length front ≡ n
    → length bytes ≡ length old
    → set_at n bytes (front ++ (old ++ rest)) ≡ front ++ (bytes ++ rest)
unfolding set_at
set_at-append [] bytes old rest zero h k = overwrite-append bytes old rest k
set_at-append [] bytes old rest (suc n) h k = absurd (omega arith)
set_at-append (x ∷ front) bytes old rest zero h k = absurd (omega arith)
set_at-append (x ∷ front) bytes old rest (suc n) h k =
    ap (◌∷◌ x) (set_at-append front bytes old rest n (omega arith) k)

pub length-le_bytes : (count n : ℕ) → length (le_bytes count n) ≡ count
unfolding le_bytes
length-le_bytes zero n = refl
length-le_bytes (suc count) n = ap suc (length-le_bytes count (n / 256))

-- Reading back a number that fits its bytes.
pub of_le-le_bytes : (count n : ℕ) → n < 256 ^ count → of_le (le_bytes count n) ≡ n
unfolding of_le le_bytes
of_le-le_bytes zero n h = omega arith
of_le-le_bytes (suc count) n h =
    let p : 256 ^ suc count ≡ 256 ^ count * 256 = pow-suc 256 count in
    omega (arith, of_le-le_bytes count (n / 256) (omega arith))

pub drop-append :
    {A : Type 0} (xs ys : List A) (n k : ℕ) → length xs ≡ n → drop (n + k) (xs ++ ys) ≡ drop k ys
drop-append [] ys zero k h = ap (λ (t : ℕ). drop t ys) (add.zero k)
drop-append [] ys (suc n) k h = absurd (omega arith)
drop-append (x ∷ xs) ys zero k h = absurd (omega arith)
drop-append (x ∷ xs) ys (suc n) k h =
    ap (λ (t : ℕ). drop t (x ∷ (xs ++ ys))) (add.suc n k) ∙ drop-append xs ys n k (omega arith)

pub take-append : {A : Type 0} (xs ys : List A) (n : ℕ) → length xs ≡ n → take n (xs ++ ys) ≡ xs
take-append [] ys zero h = refl
take-append [] ys (suc n) h = absurd (omega arith)
take-append (x ∷ xs) ys zero h = absurd (omega arith)
take-append (x ∷ xs) ys (suc n) h = ap (◌∷◌ x) (take-append xs ys n (omega arith))

pub set_at-skip :
    (front rest bytes : Bytes) (n k : ℕ)
    → length front ≡ n
    → set_at (n + k) bytes (front ++ rest) ≡ front ++ set_at k bytes rest
unfolding set_at
set_at-skip [] rest bytes zero k h = ap (λ (t : ℕ). set_at t bytes rest) (add.zero k)
set_at-skip [] rest bytes (suc n) k h = absurd (omega arith)
set_at-skip (x ∷ front) rest bytes zero k h = absurd (omega arith)
set_at-skip (x ∷ front) rest bytes (suc n) k h =
    ap (λ (t : ℕ). set_at t bytes (x ∷ (front ++ rest))) (add.suc n k)
    ∙ ap (◌∷◌ x) (set_at-skip front rest bytes n k (omega arith))

pub set_at-front :
    (bytes old rest : Bytes)
    → length bytes ≡ length old
    → set_at 0 bytes (old ++ rest) ≡ bytes ++ rest
unfolding set_at
set_at-front bytes old rest h = overwrite-append bytes old rest h

pub drop-drop : (m n : ℕ) (xs : Bytes) → drop n (drop m xs) ≡ drop (m + n) xs
drop-drop zero n xs = ap (λ (t : ℕ). drop t xs) (sym (add.zero n))
drop-drop (suc m) zero [] = ap (λ (t : ℕ). drop t []) (sym (add.suc m 0))
drop-drop (suc m) (suc n) [] = ap (λ (t : ℕ). drop t []) (sym (add.suc m (suc n)))
drop-drop (suc m) n (x ∷ xs) =
    drop-drop m n xs ∙ ap (λ (t : ℕ). drop t (x ∷ xs)) (sym (add.suc m n))
