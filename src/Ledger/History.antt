-- ===== src/Ledger/History.antt =====
-- sdk/typescript/src/ledger.ts: what a connection answers on a record's signature history, and the
-- transactions fetched from it.
use synxed_solana_protocol.Base.{
  ℕ, Bool, true, false, not, ◌||◌, Option, none, some, List, [], ◌∷◌, ◌++◌, leb, ◌==◌,
  if◌then◌else◌,
}
use synxed_solana_protocol.Base.Int.{pos}
use synxed_solana_protocol.Base.Text.{String, ◌===◌, has}
use synxed_solana_protocol.Types.{
  Result, ok, err, ◌>>=◌, or_throw, Exception, ledger, LedgerErrorCode, JsNumber, int,
}
use synxed_solana_protocol.Bytes.{Bytes}
use synxed_solana_protocol.Instruction.Encode.{is_retired_tag}
use mathlib.Core.Option
use synxed_solana_protocol.Ledger.Evidence.{RawInstruction, ParsedTransaction}

pub record SettlementTransaction : Type 0 where
  pub signature : String
  pub slot : ℕ
  pub top_level : Bool

-- An entry of `getSignaturesForAddress`; `failed` tells that `err` is not null.
pub record SignatureInfo : Type 0 where
  pub signature : String
  pub failed : Bool

-- What the connection answers, for one run of the finder. `page before limit` is none where the
-- request throws. A batch is none where the request throws or its answer is no array, and holds
-- none for a null entry. A single answer is none where the request throws.
pub record History (Key : Type 0) : Type 0 where
  pub page : Option String → ℕ → Option (List SignatureInfo)
  pub batch : List String → Option (List (Option (ParsedTransaction Key)))
  pub single : String → Option (Option (ParsedTransaction Key))

abbrev pub bad_history : Exception
bad_history = ledger LedgerErrorCode.record_history

-- `SettlesEvent`: does the raw instruction, with its decoded data, settle the event?
abbrev pub SettlesEvent : Type 0 → Type 0
SettlesEvent Key = RawInstruction Key → Bytes → Bool

abbrev pub any {ℓ} : {A : Type ℓ} → (A → Bool) → List A → Bool
any p [] = false
any p (x ∷ xs) = p x || any p xs

-- `Map.set` and `Map.get` by signature: the last entry set is the one found.
abbrev pub Found : Type 0 → Type 0
Found Key = List (String × ParsedTransaction Key)

abbrev pub get : {Key : Type 0} → Found Key → String → Option (ParsedTransaction Key)
get [] signature = none
get ((name, t) ∷ found) signature = if name === signature then some t else get found signature

abbrev pub set_all : {Key : Type 0} → List String → ParsedTransaction Key → Found Key → Found Key
set_all [] t found = found
set_all (s ∷ signatures) t found = set_all signatures t ((s, t) ∷ found)

unfoldable pub set_batch :
    {Key : Type 0} → List (Option (ParsedTransaction Key)) → Found Key → Found Key
set_batch [] found = found
set_batch (none ∷ batch) found = set_batch batch found
set_batch (some t ∷ batch) found = set_batch batch (set_all t.signatures t found)

-- One transaction fetched on its own; an answer that does not carry the signature is passed over.
abbrev pub add_single :
    {Key : Type 0} → String → Option (ParsedTransaction Key) → Found Key → Found Key
add_single signature none found = found
add_single signature (some t) found =
    if has t.signatures signature then (signature, t) ∷ found else found

unfoldable pub fetch_singles :
    {Key : Type 0} → History Key → List String → Found Key → Result (Found Key)
fetch_singles history [] found = ok found
fetch_singles history (signature ∷ signatures) found = elim (get found signature) [
  | some _ ↦ fetch_singles history signatures found
  | none ↦ or_throw (history.single signature) bad_history >>= λ answer.
      fetch_singles history signatures (add_single signature answer found)
]

abbrev pub answered {ℓ} : {A : Type ℓ} → Option (List A) → List A
answered none = []
answered (some batch) = batch

unfoldable pub fetch_finalized : {Key : Type 0} → History Key → List String → Result (Found Key)
fetch_finalized history signatures =
    fetch_singles history signatures (set_batch (answered (history.batch signatures)) [])

-- The signatures of the entries that succeeded.
unfoldable pub succeeded : List SignatureInfo → List String
succeeded [] = []
succeeded (entry ∷ page) =
    let rest = succeeded page in if entry.failed then rest else entry.signature ∷ rest

-- `transaction.meta === null || transaction.meta.err !== null`
abbrev pub has_failed : {Key : Type 0} → ParsedTransaction Key → Bool
has_failed transaction = elim transaction.meta [ none ↦ true | some meta ↦ meta.failed ]

abbrev pub last_signature : List SignatureInfo → Option String
last_signature [] = none
last_signature (entry ∷ []) = some entry.signature
last_signature (entry ∷ next ∷ page) = last_signature (next ∷ page)

-- `Number.isSafeInteger(maxSignatures) && maxSignatures > 0`, as the natural number it is.
abbrev pub positive_safe : JsNumber → Option ℕ
positive_safe (int (pos n)) = if n == 0 || not (leb n 0x1f_ffff_ffff_ffff) then none else some n
positive_safe _ = none

-- `data[0] === tag`
abbrev pub is_first : Bytes → ℕ → Bool
is_first [] tag = false
is_first (b ∷ _) tag = b == tag

abbrev pub is_retired : Bytes → Bool
is_retired [] = false
is_retired (b ∷ _) = is_retired_tag b

-- What a page found, and what the later pages find.
abbrev pub with_more {ℓ} :
    {A : Type ℓ} → Result (List A) → Option (Result (List A)) → Option (Result (List A))
with_more (err e) more = some (err e)
with_more (ok matched) more = Option.map (λ r. r >>= λ rest. ok (matched ++ rest)) more
