-- ===== src/Ledger/Found.antt =====
-- The search for the transaction that created a record ends, and what it returns settles the event.
use synxed_solana_protocol.Base.{
  ℕ, zero, suc, ◌+◌, ◌-◌, ◌≤◌, ◌<◌, ◌≡◌, refl, ap, inl, inr, Option, none, some, List, ◌++◌, length,
  arith, Bool-cases, ltb, leb, if◌then◌else◌,
}
use synxed_solana_protocol.Base.Int.{pos, negsuc}
use synxed_solana_protocol.Base.Text.{String}
use synxed_solana_protocol.Types.{JsNumber, int, fraction, Result, ok, err, runtime, ◌>>=◌}
use synxed_solana_protocol.Solana.{Solana}
use synxed_solana_protocol.Ledger.Reconcile.{given}
use synxed_solana_protocol.Ledger.History.{
  SettlementTransaction, SignatureInfo, History, SettlesEvent, bad_history, positive_safe,
  with_more, last_signature,
}
use synxed_solana_protocol.Ledger.Search.{read_pages, the_match, find_creating_transaction}
use Prim.Native.Nat.{min}
use mathlib.Core.Option

abbrev Returns {ℓ} : {A : Type ℓ} → Option (Result A) → Type ℓ
Returns {A = A} o = (r : Result A) × (o ≡ some r)

with_more-Returns {ℓ} :
    {A : Type ℓ} (matched : Result (List A)) (more : Option (Result (List A)))
    → Returns more
    → Returns (with_more matched more)
with_more-Returns (err e) more h = (err e, refl)
with_more-Returns (ok m) more (r, e) = (_, ap (Option.map (λ r. r >>= λ rest. ok (m ++ rest))) e)

-- A request that throws ends the search too.
answer-Returns {ℓ κ} :
    {A : Type ℓ} {B : Type κ} (answer : Option B) (f : B → Option (Result A))
    → ((b : B) → Returns (f b))
    → Returns (elim answer [ none ↦ some (err runtime) | some b ↦ f b ])
answer-Returns none f h = (err runtime, refl)
answer-Returns (some b) f h = h b

module _ (w : Solana) where
  open w use {PublicKey}

  -- What follows a page, when later pages return.
  page-Returns :
      (max limit read : ℕ) (page : List SignatureInfo)
      (matched : Result (List SettlementTransaction))
      (more : Option (Result (List SettlementTransaction)))
      → (limit ≤ length page → read + length page < max → Returns more)
      → Returns (
          if ltb (length page) limit
          then some matched
          else if leb max (read + length page)
          then some (matched >>= λ _. err bad_history)
          else with_more matched more)
  page-Returns max limit read page matched more h = elim (Bool-cases (ltb (length page) limit)) [
    | inl e ↦ (matched, rw e refl)
    | inr e ↦ elim (Bool-cases (leb max (read + length page))) [
      | inl f ↦ ((matched >>= λ _. err bad_history), rw (e, f) refl)
      | inr f ↦
          let (r, g) = with_more-Returns matched more (h (ground arith) (ground arith)) in
          (r, rw (e, f) g)
    ]
  ]

  -- Each page but the last has one signature at least.
  read_pages-Returns :
      (history : History PublicKey) (program : PublicKey) (settles : SettlesEvent PublicKey)
      (max fuel read : ℕ) (before : Option String)
      → read < max
      → max - read < fuel
      → Returns (read_pages w history program settles max fuel read before)
  unfolding read_pages
  read_pages-Returns history program settles max zero read before h k = absurd (omega arith)
  read_pages-Returns history program settles max (suc fuel) read before h k =
      answer-Returns (history.page before (min 1000 (max - read))) _ (λ page.
        page-Returns max (min 1000 (max - read)) read page _ _ (λ full more.
          read_pages-Returns history program settles max fuel (read + length page)
            (last_signature page) more (omega arith)))

  the_match-Returns {ℓ} :
      {A : Type ℓ} (o : Option (Result (List A))) (f : List A → Result SettlementTransaction)
      → Returns o
      → Returns (Option.map (λ r. r >>= f) o)
  the_match-Returns o f (r, e) = (r >>= f, ap (Option.map (λ r. r >>= f)) e)

  bound-Returns :
      (bound : Option ℕ) (f : ℕ → Option (Result SettlementTransaction))
      → ((max : ℕ) → 0 < max → Returns (f max))
      → ((max : ℕ) → bound ≡ some max → 0 < max)
      → Returns (elim bound [ none ↦ some (err bad_history) | some max ↦ f max ])
  bound-Returns none f h p = (err bad_history, refl)
  bound-Returns (some max) f h p = h max (p max refl)

  positive_safe-positive : (n : JsNumber) (max : ℕ) → positive_safe n ≡ some max → 0 < max
  positive_safe-positive (int (pos n)) max h = ground arith
  positive_safe-positive (int (negsuc n)) max h = cc
  positive_safe-positive (fraction n) max h = cc

  -- The search for a record's creating transaction ends whatever the connection answers: there is
  -- always a result, a transaction or an error, and the fuel never runs out.
  pub find_creating_transaction-Returns :
      (history : History PublicKey) (program : PublicKey) (max_signatures : Option JsNumber)
      (settles : SettlesEvent PublicKey)
      → (r : Result SettlementTransaction) × (find_creating_transaction w history program
            max_signatures settles
          ≡ some r)
  unfolding find_creating_transaction
  find_creating_transaction-Returns history program max_signatures settles =
      bound-Returns (positive_safe (given max_signatures (int (pos 5000)))) _
        (λ max p.
          the_match-Returns _ (the_match w)
            (read_pages-Returns history program settles max (suc max) 0 none p (omega arith)))
        (positive_safe-positive (given max_signatures (int (pos 5000))))
