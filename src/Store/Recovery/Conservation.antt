-- ===== src/Store/Recovery/Conservation.antt =====
-- Transfers replayed by recovery.rs keep the sum of the balances.
use ledgerfs.Prelude.{
  All, ◌∙◌, ℕ, ◌≡◌, refl, ap, Option, none, some, List, [], ◌∷◌, arith, count, Bool-cases, inl, inr,
  if◌then◌else◌,
}
use ledgerfs.Prelude.Int.{ℤ, pos, ◌+ℤ◌, ◌-ℤ◌, -ℤ-cancel, int_laws}
use ledgerfs.Core.Types.{AccountId, account_id_eq}
use ledgerfs.Core.Events.{
  EventEnvelope, LedgerEvent, TransactionProcessedEvent, account_created, account_status_changed,
  account_metadata_updated, transaction_processed, balance_updated, merkle_root_generated,
  digest_published,
}
use ledgerfs.Store.Recovery.{Balances, balance_of, replay}
use ledgerfs.Store.Recovery.Journal.{value_of, true_event, true_balance, replay_exact}

abbrev sum_over : (AccountId → ℤ) → List AccountId → ℤ
sum_over f [] = pos 0
sum_over f (id ∷ ids) = f id +ℤ sum_over f ids

abbrev known : Option ℤ → ℤ
known none = pos 0
known (some x) = x

-- The sum of the balances of the accounts.
abbrev pub total : List AccountId → Balances → ℤ
total ids balances = sum_over (λ id. known (value_of (balance_of balances id))) ids

abbrev pub IsKnown : Option ℤ → Type 0
IsKnown none = ⊥
IsKnown (some x) = Unit

-- A transfer between two of the accounts, or an event that sets no balance.
abbrev pub StaysWithin : List AccountId → LedgerEvent → Type 0
StaysWithin ids (transaction_processed e) =
    (from to : AccountId) × (e.from_account ≡ some from)
    × (e.to_account ≡ some to)
    × (count (λ id. account_id_eq from id) ids ≡ 1)
    × (count (λ id. account_id_eq to id) ids ≡ 1)
StaysWithin ids (account_created e) = ⊥
StaysWithin ids (balance_updated e) = ⊥
StaysWithin ids (account_status_changed e) = Unit
StaysWithin ids (account_metadata_updated e) = Unit
StaysWithin ids (merkle_root_generated e) = Unit
StaysWithin ids (digest_published e) = Unit

-- The amount, once for each of the accounts that is this one.
abbrev share : AccountId → ℤ → List AccountId → ℤ
share a m ids = sum_over (λ id. if account_id_eq a id then m else pos 0) ids

share_none :
    (a : AccountId) (m : ℤ) (ids : List AccountId)
    → count (λ id. account_id_eq a id) ids ≡ 0
    → share a m ids ≡ pos 0
share_none a m [] h = refl
share_none a m (id ∷ ids) h = elim (Bool-cases (account_id_eq a id)) [
  | inl same ↦ absurd (omega (arith, h, ap {B = ℕ} (λ b. if b then 1 else 0) same))
  | inr other ↦
      let rest =
        share_none a m ids (omega (arith, h, ap {B = ℕ} (λ b. if b then 1 else 0) other)) in
      rw other (rw rest (omega int_laws))
]

share_one :
    (a : AccountId) (m : ℤ) (ids : List AccountId)
    → count (λ id. account_id_eq a id) ids ≡ 1
    → share a m ids ≡ m
share_one a m [] h = absurd (omega (arith, h))
share_one a m (id ∷ ids) h = elim (Bool-cases (account_id_eq a id)) [
  | inl same ↦
      let rest = share_none a m ids (omega (arith, h, ap {B = ℕ} (λ b. if b then 1 else 0) same)) in
      rw same (rw rest (omega int_laws))
  | inr other ↦
      let rest = share_one a m ids (omega (arith, h, ap {B = ℕ} (λ b. if b then 1 else 0) other)) in
      rw other (rw rest (omega int_laws))
]

-- What a transfer makes of one balance that is known.
after_transfer :
    (e : TransactionProcessedEvent) (from to id : AccountId) (x : ℤ)
    → e.from_account ≡ some from
    → e.to_account ≡ some to
    → true_event id (transaction_processed e) (some x)
      ≡ some (
          (x -ℤ (if account_id_eq from id then e.amount.value else pos 0))
          +ℤ (if account_id_eq to id then e.amount.value else pos 0))
unfolding true_event
after_transfer e from to id x hf ht = rw hf (
    rw ht (elim (Bool-cases (account_id_eq from id)) [
      | inl pays ↦ elim (Bool-cases (account_id_eq to id)) [
        | inl gets ↦ rw pays (rw gets refl)
        | inr other ↦ rw pays (rw other (ap some (omega int_laws)))
      ]
      | inr apart ↦ elim (Bool-cases (account_id_eq to id)) [
        | inl gets ↦ rw apart (rw gets (ap some (omega int_laws)))
        | inr other ↦ rw apart (rw other (ap some (omega int_laws)))
      ]
    ]))

some-known : (o : Option ℤ) → IsKnown o → o ≡ some (known o)
some-known none h = absurd h
some-known (some x) h = refl

IsKnown-some : (o : Option ℤ) (x : ℤ) → o ≡ some x → IsKnown o
IsKnown-some none x h = absurd (cc h)
IsKnown-some (some y) x h = tt

sum_over_ext :
    (f g : AccountId → ℤ) (ids : List AccountId)
    → ((id : AccountId) → f id ≡ g id)
    → sum_over f ids ≡ sum_over g ids
sum_over_ext f g [] h = refl
sum_over_ext f g (id ∷ ids) h = rw (h id) (rw (sum_over_ext f g ids h) refl)

shift : (a b c x y z : ℤ) → a -ℤ b +ℤ c +ℤ (x -ℤ y +ℤ z) ≡ a +ℤ x -ℤ (b +ℤ y) +ℤ (c +ℤ z)
shift a b c x y z = omega int_laws

-- The sum of the balances after a transfer.
sum_transferred :
    (e : TransactionProcessedEvent) (from to : AccountId) (b : AccountId → Option ℤ)
    (ids : List AccountId)
    → e.from_account ≡ some from
    → e.to_account ≡ some to
    → All (λ id. IsKnown (b id)) ids
    → let after = λ (id : AccountId). true_event id (transaction_processed e) (b id) in
      All (λ id. IsKnown (after id)) ids
      × (sum_over (λ id. known (after id)) ids
          ≡ sum_over (λ id. known (b id)) ids
            -ℤ share from e.amount.value ids
            +ℤ share to e.amount.value ids)
sum_transferred e from to b [] hf ht k = (tt, omega int_laws)
sum_transferred e from to b (id ∷ ids) hf ht k =
    let (rest, sums) = sum_transferred e from to b ids hf ht k.1 in
    let here =
      ap (true_event id (transaction_processed e)) (some-known (b id) k.0)
      ∙ after_transfer e from to id (known (b id)) hf ht in
    ((IsKnown-some _ _ here, rest), rw sums (rw (ap known here) (shift _ _ _ _ _ _)))

-- An event that stays within the accounts keeps the sum.
sum_event :
    (event : LedgerEvent) (b : AccountId → Option ℤ) (ids : List AccountId)
    → StaysWithin ids event
    → All (λ id. IsKnown (b id)) ids
    → All (λ id. IsKnown (true_event id event (b id))) ids
      × (sum_over (λ id. known (true_event id event (b id))) ids
          ≡ sum_over (λ id. known (b id)) ids)
sum_event (transaction_processed e) b ids (from, to, hf, ht, one, one') k =
    let (all, sums) = sum_transferred e from to b ids hf ht k in
    (
      all,
      sums
          ∙ rw (share_one from e.amount.value ids one)
              (rw (share_one to e.amount.value ids one') (-ℤ-cancel _ _)),
    )
sum_event (account_created e) b ids h k = absurd h
sum_event (balance_updated e) b ids h k = absurd h
sum_event (account_status_changed e) b ids h k = unfold true_event in (k, refl)
sum_event (account_metadata_updated e) b ids h k = unfold true_event in (k, refl)
sum_event (merkle_root_generated e) b ids h k = unfold true_event in (k, refl)
sum_event (digest_published e) b ids h k = unfold true_event in (k, refl)

sum_journal :
    (es : List EventEnvelope) (b : AccountId → Option ℤ) (ids : List AccountId)
    → All (λ (e : EventEnvelope). StaysWithin ids e.event_data) es
    → All (λ id. IsKnown (b id)) ids
    → sum_over (λ id. known (true_balance id es (b id))) ids ≡ sum_over (λ id. known (b id)) ids
unfolding true_balance
sum_journal [] b ids h k = refl
sum_journal (e ∷ es) b ids h k =
    let (known', same) = sum_event e.event_data b ids h.0 k in
    sum_journal es (λ id. true_event id e.event_data (b id)) ids h.1 known' ∙ same

-- A replay that counts no error, of transfers between accounts whose balances are known, each listed
-- once, and of events that set no balance, keeps the sum of the balances.
pub replay-total :
    (es : List EventEnvelope) (ids : List AccountId) (state : Balances × ℕ)
    → All (λ (e : EventEnvelope). StaysWithin ids e.event_data) es
    → All (λ id. IsKnown (value_of (balance_of state.0 id))) ids
    → (replay es state).1 ≡ state.1
    → total ids (replay es state).0 ≡ total ids state.0
replay-total es ids state within k h =
    sum_over_ext (λ id. known (value_of (balance_of (replay es state).0 id)))
      (λ id. known (true_balance id es (value_of (balance_of state.0 id)))) ids
      (λ id. ap known (replay_exact es id state h))
    ∙ sum_journal es (λ id. value_of (balance_of state.0 id)) ids within k
