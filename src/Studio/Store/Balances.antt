-- ===== src/Studio/Store/Balances.antt =====
-- examples/studio-backend/src/store.ts, `balances`: what each beneficiary was paid.
use synxed_solana_protocol.Base.{
  ◌≡◌, ◌≢◌, refl, sym, ap, ◌∙◌, inl, inr, Bool, true, false, List, [], ◌∷◌, map, All, arith,
  Bool-cases, if◌then◌else◌,
}
use synxed_solana_protocol.Base.Int.{ℤ, pos, ◌+ℤ◌, +ℤ_assoc, +ℤ_comm, +ℤ_zero, zero_+ℤ}
use synxed_solana_protocol.Base.Text.{String, ◌===◌, ===_iff}
use synxed_solana_protocol.Base.Decimal.{show_ℤ}
use synxed_solana_protocol.Types.{Result, ok, err, ◌>>=◌, >>=-eq-ok, Result-cases}
use synxed_solana_protocol.Ledger.Evidence.{LedgerEntry}
use synxed_solana_protocol.Ledger.Pool.{big_int_text}
use synxed_solana_protocol.Base.Distinct.{IsDistinct}
use synxed_solana_protocol.Studio.Store.{Store}
use mathlib.Core.Path.{subst}

-- `totals.set(id, (totals.get(id) ?? 0n) + amount)`
unfoldable pub add_total : String → ℤ → List (String × ℤ) → List (String × ℤ)
add_total id amount [] = (id, amount) ∷ []
add_total id amount ((key, total) ∷ totals) =
    let rest = add_total id amount totals in
    if key === id then (key, total +ℤ amount) ∷ totals else (key, total) ∷ rest

-- The loop over the rows, with the totals so far.
unfoldable pub add_entries :
    List (String × ℤ) → List (String × LedgerEntry) → Result (List (String × ℤ))
add_entries totals [] = ok totals
add_entries totals ((_, entry) ∷ rows) = do
  amount ← big_int_text entry.amount_on_chain
  add_entries (add_total entry.beneficiary_id amount totals) rows

-- `localeCompare` says which of two names comes first.
unfoldable pub insert_total :
    (String → String → Bool) → String × ℤ → List (String × ℤ) → List (String × ℤ)
insert_total before t [] = t ∷ []
insert_total before (a, n) ((b, m) ∷ totals) =
    let later = (b, m) ∷ insert_total before (a, n) totals in
    if before a b then (a, n) ∷ (b, m) ∷ totals else later

unfoldable pub sort_totals : (String → String → Bool) → List (String × ℤ) → List (String × ℤ)
sort_totals before [] = []
sort_totals before (t ∷ totals) = insert_total before t (sort_totals before totals)

abbrev pub as_texts : List (String × ℤ) → List (String × String)
as_texts = map (λ (id, total). (id, show_ℤ total))

unfoldable pub balances : (String → String → Bool) → Store → Result (List (String × String))
balances before store = do
  totals ← add_entries [] store.entries
  ok (as_texts (sort_totals before totals))

-- What a list of totals says of a beneficiary.
abbrev pub total_for : String → List (String × ℤ) → ℤ
total_for id [] = pos 0
total_for id ((key, total) ∷ totals) = (if key === id then total else pos 0) +ℤ total_for id totals

-- What the entries of a beneficiary sum to.
abbrev pub or_nothing : Result ℤ → ℤ
or_nothing (ok n) = n
or_nothing (err _) = pos 0

abbrev pub amount_of : LedgerEntry → ℤ
amount_of entry = or_nothing (big_int_text entry.amount_on_chain)

abbrev pub paid_to : String → List (String × LedgerEntry) → ℤ
paid_to id [] = pos 0
paid_to id ((_, entry) ∷ rows) =
    (if entry.beneficiary_id === id then amount_of entry else pos 0) +ℤ paid_to id rows

abbrev shown : Bool → ℤ → ℤ
shown b n = if b then n else pos 0

-- The last two of three summands change places.
+ℤ_swap : (a b c : ℤ) → a +ℤ b +ℤ c ≡ a +ℤ c +ℤ b
+ℤ_swap a b c = +ℤ_assoc a b c ∙ ap (λ (t : ℤ). a +ℤ t) (+ℤ_comm b c) ∙ sym (+ℤ_assoc a c b)

-- The head of the totals, with what is added to it.
shown_swap :
    (b : Bool) (total amount rest : ℤ)
    → shown b (total +ℤ amount) +ℤ rest ≡ shown b total +ℤ rest +ℤ shown b amount
shown_swap true total amount rest = +ℤ_swap total amount rest
shown_swap false total amount rest = sym (+ℤ_zero (pos 0 +ℤ rest))

total_for-add_total :
    (k id : String) (amount : ℤ) (totals : List (String × ℤ))
    → total_for k (add_total id amount totals) ≡ total_for k totals +ℤ shown (id === k) amount
unfolding add_total
total_for-add_total k id amount [] =
    +ℤ_zero (shown (id === k) amount) ∙ sym (zero_+ℤ (shown (id === k) amount))
total_for-add_total k id amount ((key, total) ∷ totals) = elim (Bool-cases (key === id)) [
  | inl q ↦ rw (q, (===_iff key id).0 q) (shown_swap (id === k) total amount (total_for k totals))
  | inr q ↦ rw q (
      ap (λ (t : ℤ). shown (key === k) total +ℤ t) (total_for-add_total k id amount totals)
      ∙ sym (+ℤ_assoc (shown (key === k) total) (total_for k totals) (shown (id === k) amount)))
]

add_entries_total :
    (k : String) (totals : List (String × ℤ)) (rows : List (String × LedgerEntry))
    {t : List (String × ℤ)}
    → add_entries totals rows ≡ ok t
    → total_for k t ≡ total_for k totals +ℤ paid_to k rows
unfolding add_entries
add_entries_total k totals [] h = ground (arith, +ℤ_zero (total_for k totals))
add_entries_total k totals ((id, entry) ∷ rows) {t} h =
    elim (Result-cases (big_int_text entry.amount_on_chain)) [
      | inr (x, q) ↦ absurd (ground arith)
      | inl (n, q) ↦
          let name = entry.beneficiary_id in
          let rest : add_entries (add_total name n totals) rows ≡ ok t = ground arith in
          let value : amount_of entry ≡ n = ap or_nothing q in
          add_entries_total k (add_total name n totals) rows rest
          ∙ ap (λ (z : ℤ). z +ℤ paid_to k rows) (total_for-add_total k name n totals)
          ∙ +ℤ_assoc (total_for k totals) (shown (name === k) n) (paid_to k rows)
          ∙ ap (λ (z : ℤ). total_for k totals +ℤ (shown (name === k) z +ℤ paid_to k rows))
              (sym value)
    ]

total_for-insert_total :
    (before : String → String → Bool) (k id : String) (n : ℤ) (totals : List (String × ℤ))
    → total_for k (insert_total before (id, n) totals) ≡ shown (id === k) n +ℤ total_for k totals
unfolding insert_total
total_for-insert_total before k id n [] = refl
total_for-insert_total before k id n ((key, m) ∷ totals) = elim (Bool-cases (before id key)) [
  | inl q ↦ rw q refl
  | inr q ↦
      let head = shown (key === k) m in
      let x = shown (id === k) n in
      rw q (
        ap (λ (t : ℤ). head +ℤ t) (total_for-insert_total before k id n totals)
        ∙ sym (+ℤ_assoc head x (total_for k totals))
        ∙ ap (λ (t : ℤ). t +ℤ total_for k totals) (+ℤ_comm head x)
        ∙ +ℤ_assoc x head (total_for k totals))
]

total_for-sort_totals :
    (before : String → String → Bool) (k : String) (totals : List (String × ℤ))
    → total_for k (sort_totals before totals) ≡ total_for k totals
unfolding sort_totals
total_for-sort_totals before k [] = refl
total_for-sort_totals before k ((id, n) ∷ totals) =
    total_for-insert_total before k id n (sort_totals before totals)
    ∙ ap (λ (t : ℤ). shown (id === k) n +ℤ t) (total_for-sort_totals before k totals)

-- The beneficiaries of totals.
abbrev pub names_of : List (String × ℤ) → List String
names_of = map (λ ((id, _) : String × ℤ). id)

names_of-add_total :
    (k id : String) (n : ℤ) (totals : List (String × ℤ))
    → k ≢ id
    → All (λ t. k ≢ t) (names_of totals)
    → All (λ t. k ≢ t) (names_of (add_total id n totals))
unfolding add_total
names_of-add_total k id n [] apart h = (apart, tt)
names_of-add_total k id n ((key, m) ∷ totals) apart (head, tail) = elim (Bool-cases (key === id)) [
  | inl q ↦ rw q (head, tail)
  | inr q ↦ rw q (head, names_of-add_total k id n totals apart tail)
]

add_total-IsDistinct :
    (id : String) (n : ℤ) (totals : List (String × ℤ))
    → IsDistinct (names_of totals)
    → IsDistinct (names_of (add_total id n totals))
unfolding add_total
add_total-IsDistinct id n [] h = (tt, tt)
add_total-IsDistinct id n ((key, m) ∷ totals) (head, tail) = elim (Bool-cases (key === id)) [
  | inl q ↦ rw q (head, tail)
  | inr q ↦
      let apart : key ≢ id = λ e. absurd (ground (arith, (===_iff key id).1 e)) in
      rw q (names_of-add_total key id n totals apart head, add_total-IsDistinct id n totals tail)
]

add_entries-IsDistinct :
    (totals : List (String × ℤ)) (rows : List (String × LedgerEntry)) {t : List (String × ℤ)}
    → add_entries totals rows ≡ ok t
    → IsDistinct (names_of totals)
    → IsDistinct (names_of t)
unfolding add_entries
add_entries-IsDistinct totals [] {t} h d =
    let same : totals ≡ t = ground arith in
    subst (λ (x : List (String × ℤ)). IsDistinct (names_of x)) same d
add_entries-IsDistinct totals ((_, entry) ∷ rows) h d =
    let (n, q, rest) = >>=-eq-ok (big_int_text entry.amount_on_chain) _ h in
    add_entries-IsDistinct (add_total entry.beneficiary_id n totals) rows rest
      (add_total-IsDistinct entry.beneficiary_id n totals d)

names_of-insert_total :
    (before : String → String → Bool) (k id : String) (n : ℤ) (totals : List (String × ℤ))
    → k ≢ id
    → All (λ t. k ≢ t) (names_of totals)
    → All (λ t. k ≢ t) (names_of (insert_total before (id, n) totals))
unfolding insert_total
names_of-insert_total before k id n [] apart h = (apart, tt)
names_of-insert_total before k id n ((key, m) ∷ totals) apart (head, tail) =
    elim (Bool-cases (before id key)) [
      | inl q ↦ rw q (apart, (head, tail))
      | inr q ↦ rw q (head, names_of-insert_total before k id n totals apart tail)
    ]

insert_total-IsDistinct :
    (before : String → String → Bool) (id : String) (n : ℤ) (totals : List (String × ℤ))
    → All (λ t. id ≢ t) (names_of totals)
    → IsDistinct (names_of totals)
    → IsDistinct (names_of (insert_total before (id, n) totals))
unfolding insert_total
insert_total-IsDistinct before id n [] new h = (tt, tt)
insert_total-IsDistinct before id n ((key, m) ∷ totals) (apart, new) (head, tail) =
    elim (Bool-cases (before id key)) [
      | inl q ↦ rw q ((apart, new), (head, tail))
      | inr q ↦ rw q (
        names_of-insert_total before key id n totals (λ e. apart (sym e)) head,
        insert_total-IsDistinct before id n totals new tail,
      )
    ]

names_of-sort_totals :
    (before : String → String → Bool) (k : String) (totals : List (String × ℤ))
    → All (λ t. k ≢ t) (names_of totals)
    → All (λ t. k ≢ t) (names_of (sort_totals before totals))
unfolding sort_totals
names_of-sort_totals before k [] h = tt
names_of-sort_totals before k ((id, n) ∷ totals) (head, tail) =
    names_of-insert_total before k id n (sort_totals before totals) head
      (names_of-sort_totals before k totals tail)

sort_totals-IsDistinct :
    (before : String → String → Bool) (totals : List (String × ℤ))
    → IsDistinct (names_of totals)
    → IsDistinct (names_of (sort_totals before totals))
unfolding sort_totals
sort_totals-IsDistinct before [] h = tt
sort_totals-IsDistinct before ((id, n) ∷ totals) (head, tail) =
    insert_total-IsDistinct before id n (sort_totals before totals)
      (names_of-sort_totals before id totals head) (sort_totals-IsDistinct before totals tail)

-- The balances that the store returns are the decimal texts of totals. No beneficiary stands twice
-- among the totals, and for every beneficiary they are what its ledger entries sum to, whatever
-- order sorts the names.
pub balances_total :
    (before : String → String → Bool) (store : Store) (shown_totals : List (String × String))
    → balances before store ≡ ok shown_totals
    → (totals : List (String × ℤ)) × (shown_totals ≡ as_texts totals)
      × IsDistinct (names_of totals)
      × ((k : String) → total_for k totals ≡ paid_to k store.entries)
unfolding balances
balances_total before store shown_totals h = elim (Result-cases (add_entries [] store.entries)) [
  | inr (x, q) ↦ absurd (ground arith)
  | inl (totals, q) ↦ (
    sort_totals before totals,
    ground arith,
    sort_totals-IsDistinct before totals (add_entries-IsDistinct [] store.entries q tt),
    λ k.
        total_for-sort_totals before k totals
        ∙ add_entries_total k [] store.entries q
        ∙ zero_+ℤ (paid_to k store.entries),
  )
]
