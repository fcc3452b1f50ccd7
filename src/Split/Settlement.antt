-- ===== src/Split/Settlement.antt =====
-- `computeSettlementN` and `computeSettlement`: labels, payouts in the order of the shares, and the
-- three-way form as a case of the general one.
use synxed_solana_protocol.Base.{
  ◌≡◌, ◌≢◌, refl, sym, ap, ◌∙◌, ◌↔◌, List, [], ◌∷◌, map, length, length-map, arith, All, false, inl,
  inr,
}
use synxed_solana_protocol.Base.Int.{ℤ}
use synxed_solana_protocol.Base.Text.{String, trim, has, ◌===◌, ===_iff}
use synxed_solana_protocol.Base.Distinct.{IsDistinct, AllNew, AllNew-head, has_not}
use synxed_solana_protocol.Types.{
  JsNumber, ok, Result-cases, ShareInput, SettlementRequestN, SplitResultN, ComputedPayoutN,
  SplitShare, SettlementRole,
}
use synxed_solana_protocol.Split.{
  check_labels, bps_of, payouts_n, compute_settlement_n, split_amount_atomic_shares,
  split_amount_atomic, assert_roles, three_parts,
}
use synxed_solana_protocol.Split.Payouts.{sum_ℤ, split_conserves, split_inv}
use mathlib.Core.Path.{subst}

abbrev pub trimmed : List ShareInput → List String
trimmed = map (λ (s : ShareInput). trim s.label)

check_labels_sound :
    (seen : List String) (shares : List ShareInput)
    → check_labels seen shares ≡ ok tt
    → All (λ s. s ≢ "") (trimmed shares)
      × IsDistinct (trimmed shares)
      × AllNew seen (trimmed shares)
unfolding check_labels
check_labels_sound seen [] h = (tt, tt, tt)
check_labels_sound seen (share ∷ shares) h =
    let label = trim share.label in
    let empty : (label === "") ≡ false = ground arith in
    let fresh : has seen label ≡ false = ground arith in
    let (a, b, c) = check_labels_sound (label ∷ seen) shares (ground arith) in
    let (d, e) = AllNew-head label seen (trimmed shares) c in
    (((λ q. cc ((===_iff label "").1 q)), a), (d, b), (has_not seen label fresh, e))

-- The payouts carry the labels, recipients and basis points of the shares, in their order.
abbrev pub Carries : List ShareInput → List ComputedPayoutN → Type 0
Carries [] [] = Unit
Carries (s ∷ ss) (p ∷ ps) =
    (p.label ≡ s.label) × (p.recipient ≡ s.recipient) × (p.bps ≡ s.bps) × Carries ss ps
Carries _ _ = ⊥

abbrev pub amounts_of : List ComputedPayoutN → List ℤ
amounts_of = map (λ (p : ComputedPayoutN). p.amount_atomic)

payouts_n-Carries :
    (shares : List ShareInput) (amounts : List ℤ)
    → length amounts ≡ length shares
    → Carries shares (payouts_n shares amounts) × (amounts_of (payouts_n shares amounts) ≡ amounts)
unfolding payouts_n
payouts_n-Carries [] [] h = (tt, refl)
payouts_n-Carries [] (a ∷ amounts) h = absurd (omega arith)
payouts_n-Carries (s ∷ shares) [] h = absurd (omega arith)
payouts_n-Carries (s ∷ shares) (a ∷ amounts) h =
    let (c, e) = payouts_n-Carries shares amounts (omega arith) in
    ((refl, refl, refl, c), ap (◌∷◌ a) e)

-- What a computed settlement promises of the request it was computed from.
pub record IsSettled (request : SettlementRequestN) (result : SplitResultN) : Type 0 where
  pub same_request : result.request ≡ request
  pub same_total : result.total_atomic ≡ request.amount_atomic
  pub labelled : All (λ s. s ≢ "") (trimmed request.shares)
  pub distinct : IsDistinct (trimmed request.shares)
  pub carried : Carries request.shares result.payouts
  pub conserved : sum_ℤ (amounts_of result.payouts) ≡ request.amount_atomic
  pub split :
      split_amount_atomic_shares request.amount_atomic (bps_of request.shares)
      ≡ ok (amounts_of result.payouts)

abbrev settled_as : SettlementRequestN → List ℤ → SplitResultN
settled_as request amounts = record {
  request = request;
  payouts = payouts_n request.shares amounts;
  total_atomic = request.amount_atomic;
}

compute_settlement_n_inv :
    (request : SettlementRequestN) (result : SplitResultN)
    → compute_settlement_n request ≡ ok result
    → (amounts : List ℤ) × (check_labels [] request.shares ≡ ok tt)
      × (split_amount_atomic_shares request.amount_atomic (bps_of request.shares) ≡ ok amounts)
      × (result ≡ settled_as request amounts)
unfolding compute_settlement_n
compute_settlement_n_inv request result h = elim (Result-cases (check_labels [] request.shares)) [
  | inr (x, e) ↦ absurd (ground arith)
  | inl (_, e) ↦
      elim (Result-cases
        (split_amount_atomic_shares request.amount_atomic (bps_of request.shares))) [
          | inr (x, f) ↦ absurd (ground arith)
          | inl (amounts, f) ↦ (amounts, e, f, ground arith)
        ]
]

settled_as-IsSettled :
    (request : SettlementRequestN) (amounts : List ℤ)
    → check_labels [] request.shares ≡ ok tt
    → split_amount_atomic_shares request.amount_atomic (bps_of request.shares) ≡ ok amounts
    → IsSettled request (settled_as request amounts)
settled_as-IsSettled request amounts l s =
    let (named, distinct, _) = check_labels_sound [] request.shares l in
    let (total, count) = split_conserves request.amount_atomic (bps_of request.shares) amounts s in
    let (c, e) =
      payouts_n-Carries request.shares amounts
        (count ∙ length-map (λ (s : ShareInput). s.bps) request.shares) in
    record {
      same_request = refl;
      same_total = refl;
      labelled = named;
      distinct = distinct;
      carried = c;
      conserved = ap sum_ℤ e ∙ total;
      split = s ∙ ap ok (sym e);
    }

-- A settlement that `computeSettlementN` returns is that of its request: no label is empty and no
-- two are equal after trimming, each payout carries the label, recipient and basis points of its
-- share, and the amounts are those of the split and sum to the amount of the request.
pub compute_settlement_n-IsSettled :
    (request : SettlementRequestN) (result : SplitResultN)
    → compute_settlement_n request ≡ ok result
    → IsSettled request result
compute_settlement_n-IsSettled request result h =
    let (amounts, l, s, e) = compute_settlement_n_inv request result h in
    subst (IsSettled request) (sym e) (settled_as-IsSettled request amounts l s)

abbrev pub HasRoles : SplitShare × SplitShare × SplitShare → Type 0
HasRoles (a, b, c) =
    (a.role ≡ SettlementRole.artist)
    × (b.role ≡ SettlementRole.studio)
    × (c.role ≡ SettlementRole.synxed)

abbrev pub bps_triple : SplitShare × SplitShare × SplitShare → List JsNumber
bps_triple (a, b, c) = a.bps ∷ b.bps ∷ c.bps ∷ []

assert_roles_iff :
    (shares : SplitShare × SplitShare × SplitShare)
    → (assert_roles shares ≡ ok tt) ↔ HasRoles shares
unfolding assert_roles
assert_roles_iff shares = ground arith

three_parts_inv :
    (ps : List ℤ) {x y z : ℤ} → length ps ≡ 3 → three_parts ps ≡ ok (x, y, z) → ps ≡ x ∷ y ∷ z ∷ []
three_parts_inv [] n h = cc
three_parts_inv (p ∷ []) n h = cc
three_parts_inv (p ∷ q ∷ []) n h = cc
three_parts_inv (p ∷ q ∷ r ∷ []) n h = ground arith
three_parts_inv (p ∷ q ∷ r ∷ s ∷ ps) n h = absurd (omega arith)

three_way_inv :
    (amount : ℤ) (shares : SplitShare × SplitShare × SplitShare) {x y z : ℤ}
    → split_amount_atomic amount shares ≡ ok (x, y, z)
    → HasRoles shares
      × (split_amount_atomic_shares amount (bps_triple shares) ≡ ok (x ∷ y ∷ z ∷ []))
unfolding split_amount_atomic
three_way_inv amount shares h =
    elim (Result-cases (split_amount_atomic_shares amount (bps_triple shares))) [
      | inr (e, f) ↦ absurd (ground (arith))
      | inl (ps, f) ↦
          let n = (split_conserves amount (bps_triple shares) ps f).1 in
          let roles : assert_roles shares ≡ ok tt = ground arith in
          ((assert_roles_iff shares).0 roles, f ∙ ap ok (three_parts_inv ps n (ground arith)))
    ]

three_way_of :
    (amount : ℤ) (shares : SplitShare × SplitShare × SplitShare) {x y z : ℤ}
    → HasRoles shares
    → split_amount_atomic_shares amount (bps_triple shares) ≡ ok (x ∷ y ∷ z ∷ [])
    → split_amount_atomic amount shares ≡ ok (x, y, z)
unfolding split_amount_atomic
three_way_of amount shares {x} {y} {z} r h =
    let positive = (split_inv amount (bps_triple shares) (x ∷ y ∷ z ∷ []) h).0 in
    rw (positive, (assert_roles_iff shares).1 r, h)

-- The three-way split pays exactly when the roles stand in their order and the general split of the
-- three shares pays, and then it pays the same amounts.
pub split_amount_atomic_iff :
    (amount : ℤ) (shares : SplitShare × SplitShare × SplitShare) (x y z : ℤ)
    → (split_amount_atomic amount shares ≡ ok (x, y, z)) ↔ (
        HasRoles shares
        × (split_amount_atomic_shares amount (bps_triple shares) ≡ ok (x ∷ y ∷ z ∷ [])))
split_amount_atomic_iff amount shares x y z =
    (three_way_inv amount shares, λ (r, h). three_way_of amount shares r h)
