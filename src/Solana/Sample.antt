-- ===== src/Solana/Sample.antt =====
-- A concrete instance, which shows that the laws can be met and lets the definitions run. Keys are
-- numbers, a derived address comes from the sum of its seeds, and texts are unary.
use synxed_solana_protocol.Base.{
  ℕ, zero, suc, ◌+◌, ◌*◌, ◌%◌, ◌≡◌, refl, ap, ◌∙◌, List, [], ◌∷◌, length, Option, none, some, arith,
  ◌==◌, ==_iff, if◌then◌else◌,
}
use synxed_solana_protocol.Base.Text.{String, ◌===◌}
use synxed_solana_protocol.Bytes.{Bytes, zeros}
use synxed_solana_protocol.Bytes.Layout.{length-zeros}
use synxed_solana_protocol.Types.{int}
use synxed_solana_protocol.Base.Int.{pos}
use synxed_solana_protocol.Json.{Json, Fields}
use synxed_solana_protocol.Solana.{Solana}
use Prim.Native.Char.{code, Char}
use mathlib.Core.Option

abbrev digit : Char
digit = "1"

abbrev stop : Char
stop = "2"

abbrev pub unary : ℕ → String → String
unary zero s = s
unary (suc n) s = String.◌∷◌ digit (unary n s)

abbrev pub read_unary : String → Option ℕ
read_unary String.[] = some 0
read_unary (String.◌∷◌ c s) =
    let rest = Option.map suc (read_unary s) in if code c == 49 then rest else none

pub read_unary-unary : (n : ℕ) → read_unary (unary n "") ≡ some n
read_unary-unary zero = refl
read_unary-unary (suc n) = ap (Option.map suc) (read_unary-unary n)

abbrev pub write_numbers : List ℕ → String
write_numbers [] = ""
write_numbers (n ∷ ns) = unary n (String.◌∷◌ stop (write_numbers ns))

-- Reads numbers, `n` digits into the first one.
abbrev pub read_numbers : ℕ → String → Option (List ℕ)
read_numbers n String.[] = if n == 0 then some [] else none
read_numbers n (String.◌∷◌ c s) =
    let more = read_numbers (suc n) s in
    let next = Option.map (◌∷◌ n) (read_numbers 0 s) in if code c == 49 then more else next

read_numbers-unary : (n k : ℕ) (s : String) → read_numbers k (unary n s) ≡ read_numbers (n + k) s
read_numbers-unary zero k s = ap (λ (t : ℕ). read_numbers t s) (omega arith)
read_numbers-unary (suc n) k s =
    read_numbers-unary n (suc k) s ∙ ap (λ (t : ℕ). read_numbers t s) (omega arith)

pub read_numbers-write_numbers : (ns : List ℕ) → read_numbers 0 (write_numbers ns) ≡ some ns
read_numbers-write_numbers [] = refl
read_numbers-write_numbers (n ∷ ns) =
    read_numbers-unary n 0 (String.◌∷◌ stop (write_numbers ns))
    ∙ ap (Option.map (◌∷◌ (n + 0))) (read_numbers-write_numbers ns)
    ∙ ap (λ (t : ℕ). some (t ∷ ns)) (omega arith)

abbrev total : List ℕ → ℕ
total [] = 0
total (b ∷ bs) = b + total bs

abbrev all_total : List Bytes → ℕ
all_total [] = 0
all_total (s ∷ seeds) = total s + all_total seeds

abbrev head : Bytes → Option ℕ
head [] = none
head (n ∷ _) = some n

abbrev codes : String → Bytes
codes String.[] = []
codes (String.◌∷◌ c s) = code c ∷ codes s

abbrev pub pad : ℕ → Bytes
pad n = n ∷ zeros 31

pub length-pad : (n : ℕ) → length (pad n) ≡ 32
length-pad n = ap suc (length-zeros 31)

-- What one of the two texts reads as that the instance can parse: the memo of a settlement of 1001 lamports.
abbrev pub sample_memo : Json
sample_memo = Json.object (
    Fields.field "protocol" (Json.text "synxed-settlement") (
      Fields.field "event" (Json.text "e1") (
        Fields.field "occurredAt" (Json.text "2025-01-01T00:00:00.000Z") (
          Fields.field "kind" (Json.text "audio_ad_impression") (
            Fields.field "asset" (Json.text "SOL_LAMPORTS_STANDIN") (
              Fields.field "lamports" (Json.text "1001")
                (Fields.field "memo" (Json.text "") Fields.end)))))))

-- And that of a token settlement.
abbrev pub sample_token_memo : Json
sample_token_memo = Json.object (
    Fields.field "protocol" (Json.text "synxed-settlement") (
      Fields.field "event" (Json.text "e1") (
        Fields.field "occurredAt" (Json.text "2025-01-01T00:00:00.000Z") (
          Fields.field "kind" (Json.text "audio_ad_impression") (
            Fields.field "asset" (Json.text "USDC") (
              Fields.field "tokenAmount" (Json.text "1001") (
                Fields.field "mint" (Json.text "1") (
                  Fields.field "decimals" (Json.number (int (pos 6)))
                    (Fields.field "memo" (Json.text "") Fields.end)))))))))

abbrev pub sample : Solana
sample = record {
  PublicKey = ℕ;
  equals = ◌==◌;
  equals_iff = ==_iff;
  to_bytes = pad;
  from_bytes = head;
  to_bytes_length = length-pad;
  from_bytes-to_bytes = λ n. refl;
  to_base58 = λ n. unary n "";
  from_base58 = read_unary;
  from_base58-to_base58 = read_unary-unary;
  default_key = 0;
  system_program = 1;
  token_program_id = 2;
  memo_program_id = 3;
  find_program_address = λ seeds program. (program + 100 + all_total seeds % 10, 255);
  associated_token_address = λ mint owner off_curve. some (100 * mint + owner);
  sha256 = λ bytes. pad (total bytes);
  sha256_length = λ bytes. length-pad (total bytes);
  utf8 = codes;
  iso_string = λ time. some "1970-01-01T00:00:00.000Z";
  parse_json = λ text.
      if text === "memo"
      then some sample_memo
      else if text === "token"
      then some sample_token_memo
      else none;
  encode_base58 = write_numbers;
  decode_base58 = read_numbers 0;
  decode_base58-encode_base58 = read_numbers-write_numbers;
}
