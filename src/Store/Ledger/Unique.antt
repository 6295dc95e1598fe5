-- ===== src/Store/Ledger/Unique.antt =====
-- A list of events in the order of their keys is determined by the events it holds.
use Prim.Native.Nat.{Ordering}
use ledgerfs.Prelude.{
  ℕ, ◌≡◌, ◌≤◌, refl, sym, ap, Bool, true, false, List, [], ◌∷◌, arith, All, count, inl, inr, ◌⊎◌,
  Bool-cases, if◌then◌else◌,
}
use ledgerfs.Prelude.Bytes.{Bytes, compare_bytes, compare_bytes_flip}
use ledgerfs.Core.Events.{EventEnvelope}
use ledgerfs.Core.Equality.{Envelope-discrete}
use ledgerfs.Store.Ledger.Records.{InKeyOrder}

is : EventEnvelope → EventEnvelope → Bool
is e f = elim (Envelope-discrete e f) [ yes same ↦ true | no apart ↦ false ]

is_refl : (e : EventEnvelope) → is e e ≡ true
unfolding is
is_refl e =
    elim (Envelope-discrete e e) as (λ d. elim d [ yes same ↦ true | no apart ↦ false ] ≡ true) [
      | yes same ↦ refl
      | no apart ↦ absurd (apart refl)
    ]

is-eq : (e f : EventEnvelope) → is e f ≡ true → e ≡ f
unfolding is
is-eq e f =
    elim (Envelope-discrete e f)
      as (λ d. elim d [ yes same ↦ true | no apart ↦ false ] ≡ true → e ≡ f) [
        | yes same ↦ λ h. same
        | no apart ↦ λ h. absurd (cc h)
      ]

-- What holds of all events of a list holds of an event that it counts.
counted-All :
    (P : EventEnvelope → Type 0) (e : EventEnvelope) (l : List EventEnvelope)
    → 1 ≤ count (is e) l
    → All P l
    → P e
counted-All P e [] h a = absurd (omega (arith, h))
counted-All P e (f ∷ l) h a = elim (Bool-cases (is e f)) [
  | inl same ↦ rw (is-eq e f same) a.0
  | inr apart ↦ counted-All P e l (omega (arith, h, ap {B = ℕ} (λ b. if b then 1 else 0) apart)) a.1
]

module _ (key : EventEnvelope → Bytes) where
  -- An event that a list holds is its first or follows it.
  head-or_after :
      (e f : EventEnvelope) (l : List EventEnvelope)
      → 1 ≤ count (is e) (f ∷ l)
      → InKeyOrder key (f ∷ l)
      → (e ≡ f) ⊎ (compare_bytes (key f) (key e) ≡ Ordering.lt)
  head-or_after e f l h o = elim (Bool-cases (is e f)) [
    | inl same ↦ inl (is-eq e f same)
    | inr apart ↦ inr (
        counted-All (λ g. compare_bytes (key f) (key g) ≡ Ordering.lt) e l
          (omega (arith, h, ap {B = ℕ} (λ b. if b then 1 else 0) apart)) o.0)
  ]

  counted-first : (e : EventEnvelope) (l : List EventEnvelope) → 1 ≤ count (is e) (e ∷ l)
  counted-first e l = omega (arith, ap {B = ℕ} (λ b. if b then 1 else 0) (is_refl e))

  -- Lists of the same events start alike.
  heads-agree :
      (e f : EventEnvelope) (l m : List EventEnvelope)
      → InKeyOrder key (e ∷ l)
      → InKeyOrder key (f ∷ m)
      → ((q : EventEnvelope → Bool) → count q (e ∷ l) ≡ count q (f ∷ m))
      → e ≡ f
  heads-agree e f l m a b same =
      elim (head-or_after e f m (omega (arith, counted-first e l, same (is e))) b) [
        | inl agree ↦ agree
        | inr above ↦ elim (head-or_after f e l (omega (arith, counted-first f m, same (is f))) a) [
          | inl agree ↦ sym agree
          | inr below ↦ cc (below, compare_bytes_flip (key f) (key e) above)
        ]
      ]

  pub InKeyOrder-unique :
      (l m : List EventEnvelope)
      → InKeyOrder key l
      → InKeyOrder key m
      → ((q : EventEnvelope → Bool) → count q l ≡ count q m)
      → l ≡ m
  InKeyOrder-unique [] [] a b same = refl
  InKeyOrder-unique [] (f ∷ m) a b same = absurd (omega (arith, same (λ e. true)))
  InKeyOrder-unique (e ∷ l) [] a b same = absurd (omega (arith, same (λ e. true)))
  InKeyOrder-unique (e ∷ l) (f ∷ m) a b same =
      let agree = heads-agree e f l m a b same in
      let rest =
        InKeyOrder-unique l m a.1 b.1
          (λ q. omega (arith, same q, ap {B = ℕ} (λ g. if q g then 1 else 0) agree)) in
      cc (agree, rest)
