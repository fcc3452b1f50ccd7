-- ===== src/Bytes.antt =====
-- Byte arrays as lists of numbers: what the package uses of `Uint8Array` and `DataView`.
pub mod Layout
use synxed_solana_protocol.Base.{
  ℕ, zero, suc, ◌+◌, ◌-◌, ◌*◌, ◌/◌, ◌%◌, ◌^◌, ◌<◌, Bool, true, false, ◌&&◌, ◌==◌, List, [], ◌∷◌,
  take, drop,
}
use synxed_solana_protocol.Base.Int.{ℤ, pos, negsuc}
use synxed_solana_protocol.Types.{JsNumber, int, fraction}

abbrev pub Bytes : Type 0
Bytes = List ℕ

abbrev pub IsByte : ℕ → Type 0
IsByte b = b < 256

-- `new Uint8Array(n)`
unfoldable pub zeros : ℕ → Bytes
zeros zero = []
zeros (suc n) = 0 ∷ zeros n

-- Writes at the front. The callers' arrays have room.
unfoldable pub overwrite : Bytes → Bytes → Bytes
overwrite [] old = old
overwrite (b ∷ bs) [] = []
overwrite (b ∷ bs) (x ∷ old) = b ∷ overwrite bs old

-- `data.set(bytes, offset)`
unfoldable pub set_at : ℕ → Bytes → Bytes → Bytes
unfolding overwrite
set_at zero bytes old = overwrite bytes old
set_at (suc offset) bytes [] = []
set_at (suc offset) bytes (x ∷ old) = x ∷ set_at offset bytes old

-- `bytes[i]`, where `i` is in range; the package tests the length first.
abbrev pub first : Bytes → ℕ
first [] = 0
first (b ∷ _) = b

abbrev pub byte_at : Bytes → ℕ → ℕ
byte_at bytes i = first (drop i bytes)

-- `bytes.slice(from, from + count)`
abbrev pub slice : ℕ → ℕ → Bytes → Bytes
slice from count bytes = take count (drop from bytes)

-- `count` bytes of a number, the lowest first.
unfoldable pub le_bytes : ℕ → ℕ → Bytes
le_bytes zero n = []
le_bytes (suc count) n = n % 256 ∷ le_bytes count (n / 256)

unfoldable pub of_le : Bytes → ℕ
of_le [] = 0
of_le (b ∷ bs) = b + 256 * of_le bs

-- The conversion that `setBigUint64` makes: a bigint modulo 2^64.
abbrev pub to_uint64 : ℤ → ℕ
to_uint64 (pos n) = n % 2 ^ 64
to_uint64 (negsuc n) = 2 ^ 64 - 1 - n % 2 ^ 64

abbrev mod_u16 : ℤ → ℕ
mod_u16 (pos n) = n % 2 ^ 16
mod_u16 (negsuc n) = 2 ^ 16 - 1 - n % 2 ^ 16

-- The conversion that `setUint16` makes: the integral part of a number modulo 2^16.
abbrev pub to_uint16 : JsNumber → ℕ
to_uint16 (int n) = mod_u16 n
to_uint16 (fraction n) = mod_u16 n

abbrev pub same_bytes : Bytes → Bytes → Bool
same_bytes [] [] = true
same_bytes (b ∷ bs) (c ∷ cs) = b == c && same_bytes bs cs
same_bytes _ _ = false
