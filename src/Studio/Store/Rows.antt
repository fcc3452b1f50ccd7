-- ===== src/Studio/Store/Rows.antt =====
-- Rows found again after the tables change.
use synxed_solana_protocol.Base.{
  ◌≡◌, refl, inl, inr, Bool, true, false, none, some, List, [], ◌∷◌, ◌++◌, All, arith, Bool-cases,
}
use synxed_solana_protocol.Base.Text.{String, ◌===◌, ===_iff}
use synxed_solana_protocol.Studio.Store.{
  StoredEvent, StoredAttempt, find_event, update_event, update_attempts,
}
use synxed_solana_protocol.Studio.Store.Write.{has_row, insert_or_ignore, insert_all}

pub ===_refl : (s : String) → (s === s) ≡ true
===_refl s = (===_iff s s).1 refl

pub find_event-append :
    (id : String) (events : List StoredEvent) (x : StoredEvent) {e : StoredEvent}
    → find_event id events ≡ some e
    → find_event id (events ++ (x ∷ [])) ≡ some e
unfolding find_event
find_event-append id [] x h = cc
find_event-append id (y ∷ events) x {e} h = elim (Bool-cases (y.event_id === id)) [
  | inl q ↦ ground arith
  | inr q ↦ ground (arith, find_event-append id events x {e = e} (ground arith))
]

pub find_event-append_new :
    (id : String) (events : List StoredEvent) (x : StoredEvent)
    → find_event id events ≡ none
    → x.event_id ≡ id
    → find_event id (events ++ (x ∷ [])) ≡ some x
unfolding find_event
find_event-append_new id [] x h e = rw (e, ===_refl id) refl
find_event-append_new id (y ∷ events) x h e = elim (Bool-cases (y.event_id === id)) [
  | inl q ↦ absurd (ground arith)
  | inr q ↦ ground (arith, find_event-append_new id events x (ground arith) e)
]

module _ (id : String) (f : StoredEvent → StoredEvent)
    (keeps : (e : StoredEvent) → (f e).event_id ≡ e.event_id) where
  pub find_event-update_event :
      (events : List StoredEvent) {e : StoredEvent}
      → find_event id events ≡ some e
      → find_event id (update_event id f events) ≡ some (f e)
  unfolding find_event update_event
  find_event-update_event [] h = cc
  find_event-update_event (y ∷ events) {e} h = elim (Bool-cases (y.event_id === id)) [
    | inl q ↦ ground (arith, keeps y)
    | inr q ↦ ground (arith, find_event-update_event events {e = e} (ground arith))
  ]

  pub find_event-update_event_other :
      (k : String) (events : List StoredEvent)
      → (k === id) ≡ false
      → find_event k (update_event id f events) ≡ find_event k events
  unfolding find_event update_event
  find_event-update_event_other k [] h = refl
  find_event-update_event_other k (y ∷ events) h = elim (Bool-cases (y.event_id === id)) [
    | inl q ↦
        let other : (y.event_id === k) ≡ false =
          ground (arith, ===_iff y.event_id id, ===_iff y.event_id k, ===_iff k id) in
        ground (arith, keeps y, find_event-update_event_other k events h)
    | inr q ↦ ground (arith, find_event-update_event_other k events h)
  ]

  pub update_event-update_event :
      (events : List StoredEvent)
      → ((e : StoredEvent) → f (f e) ≡ f e)
      → update_event id f (update_event id f events) ≡ update_event id f events
  unfolding update_event
  update_event-update_event [] same = refl
  update_event-update_event (y ∷ events) same = elim (Bool-cases (y.event_id === id)) [
    | inl q ↦ ground (arith, keeps y, same y, update_event-update_event events same)
    | inr q ↦ ground (arith, update_event-update_event events same)
  ]

pub update_attempts-update_attempts :
    (p : StoredAttempt → Bool) (f : StoredAttempt → StoredAttempt) (rows : List StoredAttempt)
    → ((a : StoredAttempt) → f (f a) ≡ f a)
    → ((a : StoredAttempt) → p (f a) ≡ p a)
    → update_attempts p f (update_attempts p f rows) ≡ update_attempts p f rows
unfolding update_attempts
update_attempts-update_attempts p f [] same keeps = refl
update_attempts-update_attempts p f (a ∷ rows) same keeps =
    ground (arith, keeps a, same a, update_attempts-update_attempts p f rows same keeps)

-- Rows that stand already are left out when they are inserted again.
module _ {ℓ} {A : Type ℓ} (same : A → A → Bool) (same_refl : (a : A) → same a a ≡ true) where
  has_row-append : (row : A) (rows : List A) → has_row same row (rows ++ (row ∷ [])) ≡ true
  unfolding has_row
  has_row-append row [] = ground (arith, same_refl row)
  has_row-append row (r ∷ rows) = ground (arith, has_row-append row rows)

  has_row-append_more :
      (row x : A) (rows : List A)
      → has_row same row rows ≡ true
      → has_row same row (rows ++ (x ∷ [])) ≡ true
  unfolding has_row
  has_row-append_more row x [] h = cc
  has_row-append_more row x (r ∷ rows) h = elim (Bool-cases (same r row)) [
    | inl q ↦ ground arith
    | inr q ↦ ground (arith, has_row-append_more row x rows (ground arith))
  ]

  has_row-insert_or_ignore :
      (row : A) (rows : List A) → has_row same row (insert_or_ignore same row rows) ≡ true
  unfolding insert_or_ignore
  has_row-insert_or_ignore row rows = ground (arith, has_row-append row rows)

  has_row-insert_or_ignore_more :
      (row x : A) (rows : List A)
      → has_row same row rows ≡ true
      → has_row same row (insert_or_ignore same x rows) ≡ true
  unfolding insert_or_ignore
  has_row-insert_or_ignore_more row x rows h = ground (arith, has_row-append_more row x rows h)

  has_row-insert_all :
      (row : A) (more rows : List A)
      → has_row same row rows ≡ true
      → has_row same row (insert_all same more rows) ≡ true
  unfolding insert_all
  has_row-insert_all row [] rows h = h
  has_row-insert_all row (x ∷ more) rows h =
      has_row-insert_all row more (insert_or_ignore same x rows)
        (has_row-insert_or_ignore_more row x rows h)

  pub insert_or_ignore-insert_or_ignore :
      (row : A) (rows : List A)
      → insert_or_ignore same row (insert_or_ignore same row rows) ≡ insert_or_ignore same row rows
  unfolding insert_or_ignore
  insert_or_ignore-insert_or_ignore row rows = ground (arith, has_row-append row rows)

  abbrev Holds : List A → List A → Type 0
  Holds more rows = All (λ row. has_row same row rows ≡ true) more

  insert_all-Holds : (more rows : List A) → Holds more (insert_all same more rows)
  unfolding insert_all
  insert_all-Holds [] rows = tt
  insert_all-Holds (x ∷ more) rows = (
    has_row-insert_all x more (insert_or_ignore same x rows) (has_row-insert_or_ignore x rows),
    insert_all-Holds more (insert_or_ignore same x rows),
  )

  insert_all-of_held : (more rows : List A) → Holds more rows → insert_all same more rows ≡ rows
  unfolding insert_all insert_or_ignore
  insert_all-of_held [] rows h = refl
  insert_all-of_held (x ∷ more) rows (h, hs) = rw h (insert_all-of_held more rows hs)

  pub insert_all-insert_all :
      (more rows : List A)
      → insert_all same more (insert_all same more rows) ≡ insert_all same more rows
  insert_all-insert_all more rows =
      insert_all-of_held more (insert_all same more rows) (insert_all-Holds more rows)
