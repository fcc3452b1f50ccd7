-- ===== src/Ledger/Pool.antt =====
-- sdk/typescript/src/ledger.ts, `allocatePoolPayout`: a pooled payout divided among beneficiaries.
use synxed_solana_protocol.Base.{
  ◌≡◌, refl, ◌≢◌, ap, ◌∙◌, sym, true, false, not, ◌||◌, Option, none, some, inl, inr, List, [], ◌∷◌,
  map, length, All, arith, ◌==◌,
}
use synxed_solana_protocol.Base.Int.{
  ℤ, pos, ◌+ℤ◌, leb_ℤ, eqb_ℤ, eqb_ℤ_iff, +ℤ_assoc, +ℤ_zero, zero_+ℤ,
}
use synxed_solana_protocol.Base.Text.{String, ◌===◌, ===_iff, trim, has}
use synxed_solana_protocol.Base.Decimal.{show_ℤ, read_ℕ}
use synxed_solana_protocol.Base.Distinct.{IsDistinct, AllNew, AllNew-head, has_not}
use synxed_solana_protocol.Split.Payouts.{sum_ℤ}
use synxed_solana_protocol.Types.{
  Result, ok, ◌>>=◌, ◌>>◌, throw_if, or_throw, Result-cases, Exception, ledger, runtime,
  LedgerErrorCode,
}
use synxed_solana_protocol.Solana.{Solana}
use synxed_solana_protocol.Ledger.Evidence.{PayoutLine, LedgerEntry, LedgerEntryState}
use synxed_solana_protocol.Ledger.Reconcile.{ledger_entry_id, is_pooled}
use mathlib.Core.Path.{subst}

pub record PoolAllocation : Type 0 where
  pub beneficiary_id : String
  pub wallet : Option String
  pub amount_on_chain : ℤ

abbrev pub bad_pool : Exception
bad_pool = ledger LedgerErrorCode.pool_allocation

-- The loop over the allocations, with the ids seen and the total so far.
unfoldable pub total_allocations : List String → ℤ → List PoolAllocation → Result ℤ
total_allocations ids total [] = ok total
total_allocations ids total (a ∷ allocations) = do
  throw_if
      (trim a.beneficiary_id === "" || leb_ℤ a.amount_on_chain (pos 0) || has ids a.beneficiary_id)
      bad_pool
  total_allocations (a.beneficiary_id ∷ ids) (total +ℤ a.amount_on_chain) allocations

-- `BigInt(text)` of the decimal text that a payout line or an entry holds; a text of another form,
-- which no line or entry is given, is an error here.
abbrev pub big_int_text : String → Result ℤ
big_int_text s = or_throw (read_ℕ s) runtime >>= λ n. ok (pos n)

module _ (w : Solana) where
  abbrev pub accrued_entry : PayoutLine → String → PoolAllocation → LedgerEntry
  accrued_entry payout source_signature a = record {
    entry_id = ledger_entry_id w source_signature payout.role a.beneficiary_id;
    beneficiary_id = a.beneficiary_id;
    wallet = a.wallet;
    role = payout.role;
    pool = some payout.recipient;
    amount_on_chain = show_ℤ a.amount_on_chain;
    source_signature = source_signature;
    state = LedgerEntryState.accrued;
    paid_signature = none;
  }

  unfoldable pub allocate_pool_payout :
      PayoutLine → String → List PoolAllocation → Result (List LedgerEntry)
  allocate_pool_payout payout source_signature allocations = do
    throw_if (not (is_pooled payout) || length allocations == 0) bad_pool
    total ← total_allocations [] (pos 0) allocations
    expected ← big_int_text payout.amount_on_chain
    throw_if (not (eqb_ℤ total expected)) bad_pool
    ok (map (accrued_entry payout source_signature) allocations)

abbrev pub ids_of : List PoolAllocation → List String
ids_of = map (λ (a : PoolAllocation). a.beneficiary_id)

abbrev pub amounts_of : List PoolAllocation → List ℤ
amounts_of = map (λ (a : PoolAllocation). a.amount_on_chain)

-- What an allocation must be.
abbrev pub IsAllocation : PoolAllocation → Type 0
IsAllocation a = (trim a.beneficiary_id ≢ "") × (leb_ℤ a.amount_on_chain (pos 0) ≡ false)

total_allocations_inv :
    (ids : List String) (total : ℤ) (allocations : List PoolAllocation) {sum : ℤ}
    → total_allocations ids total allocations ≡ ok sum
    → (sum ≡ total +ℤ sum_ℤ (amounts_of allocations))
      × All IsAllocation allocations
      × IsDistinct (ids_of allocations)
      × AllNew ids (ids_of allocations)
unfolding total_allocations
total_allocations_inv ids total [] h = (ground (arith, +ℤ_zero total), tt, tt, tt)
total_allocations_inv ids total (a ∷ allocations) {sum} h =
    let id = a.beneficiary_id in
    let n = a.amount_on_chain in
    let named : (trim id === "") ≡ false = ground arith in
    let positive : leb_ℤ n (pos 0) ≡ false = ground arith in
    let fresh : has ids id ≡ false = ground arith in
    let rest : total_allocations (id ∷ ids) (total +ℤ n) allocations ≡ ok sum = ground arith in
    let (e, every, distinct, new) =
      total_allocations_inv (id ∷ ids) (total +ℤ n) allocations rest in
    let (apart, others) = AllNew-head id ids (ids_of allocations) new in
    (
      e ∙ +ℤ_assoc total n (sum_ℤ (amounts_of allocations)),
      (((λ q. cc ((===_iff (trim id) "").1 q)), positive), every),
      (apart, distinct),
      (has_not ids id fresh, others),
    )

-- The entry of an allocation: what is due to its beneficiary from the pool, and not paid yet.
pub record IsAccrued (w : Solana) (payout : PayoutLine) (signature : String) (a : PoolAllocation)
    (entry : LedgerEntry) : Type 0 where
  pub named : entry.entry_id ≡ ledger_entry_id w signature payout.role a.beneficiary_id
  pub to_beneficiary : entry.beneficiary_id ≡ a.beneficiary_id
  pub to_wallet : entry.wallet ≡ a.wallet
  pub of_role : entry.role ≡ payout.role
  pub from_pool : entry.pool ≡ some payout.recipient
  pub of_amount : entry.amount_on_chain ≡ show_ℤ a.amount_on_chain
  pub by_signature : entry.source_signature ≡ signature
  pub accrued : entry.state ≡ LedgerEntryState.accrued
  pub unpaid : entry.paid_signature ≡ none

-- One entry for each allocation, in order.
abbrev pub AreAccrued :
    Solana → PayoutLine → String → List PoolAllocation → List LedgerEntry → Type 0
AreAccrued w payout signature (a ∷ allocations) (entry ∷ entries) =
    IsAccrued w payout signature a entry × AreAccrued w payout signature allocations entries
AreAccrued w payout signature [] [] = Unit
AreAccrued w payout signature _ _ = ⊥

accrued_entry-AreAccrued :
    (w : Solana) (payout : PayoutLine) (signature : String) (allocations : List PoolAllocation)
    → AreAccrued w payout signature allocations (map (accrued_entry w payout signature) allocations)
accrued_entry-AreAccrued w payout signature [] = tt
accrued_entry-AreAccrued w payout signature (a ∷ allocations) = (
  record {
    named = refl;
    to_beneficiary = refl;
    to_wallet = refl;
    of_role = refl;
    from_pool = refl;
    of_amount = refl;
    by_signature = refl;
    accrued = refl;
    unpaid = refl;
  },
  accrued_entry-AreAccrued w payout signature allocations,
)

-- What `allocatePoolPayout` promises: the payout was pooled, each allocation is named, positive and
-- of its own beneficiary, together they are the payout, and there is one accrued entry for each.
pub record IsAllocated (w : Solana) (payout : PayoutLine) (signature : String)
    (allocations : List PoolAllocation) (entries : List LedgerEntry) : Type 0 where
  pub pooled : is_pooled payout ≡ true
  pub every : All IsAllocation allocations
  pub distinct : IsDistinct (ids_of allocations)
  pub conserved : big_int_text payout.amount_on_chain ≡ ok (sum_ℤ (amounts_of allocations))
  pub accrued : AreAccrued w payout signature allocations entries

allocate_inv :
    (w : Solana) (payout : PayoutLine) (signature : String) (allocations : List PoolAllocation)
    (entries : List LedgerEntry)
    → allocate_pool_payout w payout signature allocations ≡ ok entries
    → (sum : ℤ) × (total_allocations [] (pos 0) allocations ≡ ok sum)
      × (is_pooled payout ≡ true)
      × (big_int_text payout.amount_on_chain ≡ ok sum)
      × (entries ≡ map (accrued_entry w payout signature) allocations)
unfolding allocate_pool_payout
allocate_inv w payout signature allocations entries h =
    elim (Result-cases (total_allocations [] (pos 0) allocations)) [
      | inr (x, e) ↦ absurd (ground arith)
      | inl (sum, e) ↦ elim (Result-cases (big_int_text payout.amount_on_chain)) [
        | inr (x, f) ↦ absurd (ground arith)
        | inl (n, f) ↦
            let same : eqb_ℤ sum n ≡ true = ground arith in
            (sum, e, ground arith, f ∙ ap ok (sym ((eqb_ℤ_iff sum n).0 same)), ground arith)
      ]
    ]

-- Allocating a pooled payout conserves it: when entries are returned, the payout was pooled, each
-- allocation has a beneficiary that is not blank and a positive amount, no beneficiary stands
-- twice, the amounts sum to the payout's amount, and there is one entry for each allocation, in
-- their order: of its beneficiary, wallet and amount, from the payout's pool, accrued and not paid.
pub allocate_pool_payout-IsAllocated :
    (w : Solana) (payout : PayoutLine) (signature : String) (allocations : List PoolAllocation)
    (entries : List LedgerEntry)
    → allocate_pool_payout w payout signature allocations ≡ ok entries
    → IsAllocated w payout signature allocations entries
allocate_pool_payout-IsAllocated w payout signature allocations entries h =
    let (sum, t, pooled, amount, accrued) = allocate_inv w payout signature allocations entries h in
    let (e, every, distinct, _) = total_allocations_inv [] (pos 0) allocations t in
    record {
      pooled = pooled;
      every = every;
      distinct = distinct;
      conserved = amount ∙ ap ok (e ∙ zero_+ℤ (sum_ℤ (amounts_of allocations)));
      accrued =
          subst (AreAccrued w payout signature allocations) (sym accrued)
            (accrued_entry-AreAccrued w payout signature allocations);
    }
