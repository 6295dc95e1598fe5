-- ===== src/Store/Recovery/Journal.antt =====
-- A whole journal replayed by recovery.rs, against its true balances.
use ledgerfs.Prelude.{
  ℕ, ◌+◌, ◌≡◌, ◌≤◌, refl, sym, ◌∙◌, ap, Bool, true, false, Option, none, some, List, [], ◌∷◌, ok,
  err, arith, Bool-cases, Option-cases, Result-cases, inl, inr, if◌then◌else◌,
}
use ledgerfs.Prelude.Int.{ℤ, ◌+ℤ◌, ◌-ℤ◌}
use ledgerfs.Core.Types.{AccountId, Amount, account_id_eq, account_id_eq_iff}
use ledgerfs.Core.Amount.{add, subtract}
use ledgerfs.Core.Amount.Laws.{add_exact, subtract_exact}
use ledgerfs.Core.Errors.{LedgerError, LedgerResult}
use ledgerfs.Core.Events.{
  EventEnvelope, LedgerEvent, TransactionProcessedEvent, account_created, account_status_changed,
  account_metadata_updated, transaction_processed, balance_updated, merkle_root_generated,
  digest_published,
}
use ledgerfs.Store.Recovery.Laws.{post_found, balance_of_other, balance_of_same}
use ledgerfs.Store.Recovery.{
  Balances, balance_of, post, post_option, replay_transaction, replay_event, replay,
}

abbrev pub value_of : Option Amount → Option ℤ
value_of none = none
value_of (some a) = some (a.value)

abbrev pub moved : (ℤ → ℤ) → Option ℤ → Option ℤ
moved g none = none
moved g (some x) = some (g x)

abbrev pub concerns : AccountId → Option AccountId → Bool
concerns id none = false
concerns id (some a) = account_id_eq a id

-- The balance of an account after one event, in integers without bounds.
unfoldable pub true_event : AccountId → LedgerEvent → Option ℤ → Option ℤ
true_event id (account_created e) b =
    if account_id_eq e.account_id id then some (e.initial_balance.value) else b
true_event id (balance_updated e) b =
    if account_id_eq e.account_id id then some (e.new_balance.value) else b
true_event id (transaction_processed e) b =
    let paid = if concerns id e.from_account then moved (λ x. x -ℤ e.amount.value) b else b in
    if concerns id e.to_account then moved (λ x. x +ℤ e.amount.value) paid else paid
true_event id (account_status_changed e) b = b
true_event id (account_metadata_updated e) b = b
true_event id (merkle_root_generated e) b = b
true_event id (digest_published e) b = b

unfoldable pub true_balance : AccountId → List EventEnvelope → Option ℤ → Option ℤ
true_balance id [] b = b
true_balance id (e ∷ es) b = true_balance id es (true_event id e.event_data b)

balance_of-eq :
    (a id : AccountId) (balances : Balances)
    → account_id_eq a id ≡ true
    → balance_of balances a ≡ balance_of balances id
balance_of-eq a id balances h = ap (balance_of balances) ((account_id_eq_iff a id).0 h)

post-grows :
    (f : Amount → LedgerResult Amount) (a : AccountId) (balances : Balances) (n : ℕ)
    → n ≤ (post f a (balances, n)).1
unfolding post
post-grows f a balances n = ground arith

post_unknown :
    (f : Amount → LedgerResult Amount) (a : AccountId) (balances : Balances) (n : ℕ)
    → balance_of balances a ≡ none
    → post f a (balances, n) ≡ (balances, n)
unfolding post
post_unknown f a balances n h = rw (h, post) refl

post_failed :
    (f : Amount → LedgerResult Amount) (a : AccountId) (balances : Balances) (n : ℕ) (x : Amount)
    (e : LedgerError)
    → balance_of balances a ≡ some x
    → f x ≡ err e
    → post f a (balances, n) ≡ (balances, n + 1)
unfolding post
post_failed f a balances n x e h k = rw (h, post) (rw k refl)

-- A posting that counts no error posts exactly.
post_exact :
    (f : Amount → LedgerResult Amount) (g : ℤ → ℤ) (a id : AccountId) (balances : Balances) (n : ℕ)
    → ((x y : Amount) → f x ≡ ok y → y.value ≡ g (x.value))
    → (post f a (balances, n)).1 ≡ n
    → value_of (balance_of (post f a (balances, n)).0 id) ≡ (
        if account_id_eq a id
        then moved g (value_of (balance_of balances id))
        else value_of (balance_of balances id))
post_exact f g a id balances n exact h = elim (Option-cases (balance_of balances a)) [
  | inl unknown ↦
      let p = post_unknown f a balances n unknown in
      elim (Bool-cases (account_id_eq a id)) [
        | inl same ↦ rw p (rw same (rw (sym (balance_of-eq a id balances same) ∙ unknown) refl))
        | inr other ↦ rw p (rw other refl)
      ]
  | inr (x, known) ↦ elim (Result-cases (f x)) [
    | inl (y, done) ↦
        let p = post_found f a balances x y n known done in
        elim (Bool-cases (account_id_eq a id)) [
          | inl same ↦
              let here = sym (balance_of-eq a id balances same) ∙ known in
              rw p (
                rw same (
                  rw here (
                    ap value_of (
                      sym (balance_of-eq a id ((a, y) ∷ balances) same)
                      ∙ balance_of_same a y balances)
                    ∙ ap some (exact x y done))))
          | inr other ↦ rw p (
              rw other (
                ap value_of
                  (balance_of_other a id y balances (λ e. ground (arith, account_id_eq_iff a id)))))
        ]
    | inr (e, failed) ↦
        absurd (omega (arith, ap (λ r. r.1) (post_failed f a balances n x e known failed), h))
  ]
]

post_option-grows :
    (f : Amount → LedgerResult Amount) (o : Option AccountId) (state : Balances × ℕ)
    → state.1 ≤ (post_option f o state).1
post_option-grows f none state = omega arith
post_option-grows f (some a) (balances, n) = post-grows f a balances n

post_option_exact :
    (f : Amount → LedgerResult Amount) (g : ℤ → ℤ) (o : Option AccountId) (id : AccountId)
    (state : Balances × ℕ)
    → ((x y : Amount) → f x ≡ ok y → y.value ≡ g (x.value))
    → (post_option f o state).1 ≡ state.1
    → value_of (balance_of (post_option f o state).0 id) ≡ (
        if concerns id o
        then moved g (value_of (balance_of state.0 id))
        else value_of (balance_of state.0 id))
post_option_exact f g none id state exact h = refl
post_option_exact f g (some a) id (balances, n) exact h = post_exact f g a id balances n exact h

replay_event-grows :
    (event : LedgerEvent) (state : Balances × ℕ) → state.1 ≤ (replay_event event state).1
unfolding replay_event replay_transaction
replay_event-grows (transaction_processed e) state =
    let paid = post_option (λ current. subtract current e.amount) e.from_account state in
    omega (
      arith,
      post_option-grows (λ current. subtract current e.amount) e.from_account state,
      post_option-grows (λ current. add current e.amount) e.to_account paid,
    )
replay_event-grows (account_created e) (balances, n) = omega arith
replay_event-grows (balance_updated e) (balances, n) = omega arith
replay_event-grows (account_status_changed e) state = omega arith
replay_event-grows (account_metadata_updated e) state = omega arith
replay_event-grows (merkle_root_generated e) state = omega arith
replay_event-grows (digest_published e) state = omega arith

-- The errors counted never decrease.
replay-grows : (es : List EventEnvelope) (state : Balances × ℕ) → state.1 ≤ (replay es state).1
unfolding replay
replay-grows [] state = omega arith
replay-grows (e ∷ es) state = omega (
  arith,
  replay_event-grows e.event_data state,
  replay-grows es (replay_event e.event_data state),
)

set_exact :
    (a id : AccountId) (x : Amount) (balances : Balances)
    → value_of (balance_of ((a, x) ∷ balances) id)
      ≡ (if account_id_eq a id then some (x.value) else value_of (balance_of balances id))
unfolding balance_of
set_exact a id x balances = elim (Bool-cases (account_id_eq a id)) [
  | inl same ↦ rw same refl
  | inr other ↦ rw other refl
]

replay_transaction_exact :
    (e : TransactionProcessedEvent) (id : AccountId) (state : Balances × ℕ)
    → (replay_transaction e state).1 ≡ state.1
    → value_of (balance_of (replay_transaction e state).0 id)
      ≡ true_event id (transaction_processed e) (value_of (balance_of state.0 id))
unfolding replay_transaction true_event
replay_transaction_exact e id state h =
    let sub : Amount → LedgerResult Amount = λ current. subtract current e.amount in
    let plus : Amount → LedgerResult Amount = λ current. add current e.amount in
    let paid = post_option sub e.from_account state in
    let grows = post_option-grows sub e.from_account state in
    let grows' = post_option-grows plus e.to_account paid in
    let first =
      post_option_exact sub (λ x. x -ℤ e.amount.value) e.from_account id state
        (λ x y k. ap (λ (a : Amount). a.value) ((subtract_exact x e.amount y).0 k).1)
        (omega arith) in
    let second =
      post_option_exact plus (λ x. x +ℤ e.amount.value) e.to_account id paid
        (λ x y k. ap (λ (a : Amount). a.value) ((add_exact x e.amount y).0 k).1) (omega arith) in
    second ∙ rw first refl

replay_event_exact :
    (event : LedgerEvent) (id : AccountId) (state : Balances × ℕ)
    → (replay_event event state).1 ≡ state.1
    → value_of (balance_of (replay_event event state).0 id)
      ≡ true_event id event (value_of (balance_of state.0 id))
unfolding replay_event true_event
replay_event_exact (transaction_processed e) id state h = replay_transaction_exact e id state h
replay_event_exact (account_created e) id (balances, n) h =
    set_exact e.account_id id e.initial_balance balances
replay_event_exact (balance_updated e) id (balances, n) h =
    set_exact e.account_id id e.new_balance balances
replay_event_exact (account_status_changed e) id state h = refl
replay_event_exact (account_metadata_updated e) id state h = refl
replay_event_exact (merkle_root_generated e) id state h = refl
replay_event_exact (digest_published e) id state h = refl

-- A replay that counts no error ends with the true balance of every account: the balance of the journal
-- in integers without bounds, known exactly for the accounts that it sets.
pub replay_exact :
    (es : List EventEnvelope) (id : AccountId) (state : Balances × ℕ)
    → (replay es state).1 ≡ state.1
    → value_of (balance_of (replay es state).0 id)
      ≡ true_balance id es (value_of (balance_of state.0 id))
unfolding replay true_balance
replay_exact [] id state h = refl
replay_exact (e ∷ es) id state h =
    let next = replay_event e.event_data state in
    let a = replay_event-grows e.event_data state in
    let b = replay-grows es next in
    replay_exact es id next (omega arith)
    ∙ ap (true_balance id es) (replay_event_exact e.event_data id state (omega arith))
