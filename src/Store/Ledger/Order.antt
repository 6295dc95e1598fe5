-- ===== src/Store/Ledger/Order.antt =====
-- The ledger holds what was recorded, whatever the order.
use Prim.Native.Nat.{Ordering}
use mathlib.Core.List.{Permᴰ}
use mathlib.Core.List.Permᴰ
use ledgerfs.Prelude.{◌≡◌, ◌≢◌, refl, sym, List, [], ◌∷◌, ◌++◌, All}
use ledgerfs.Prelude.Bytes.{Bytes, compare_bytes, compare_bytes-eq}
use ledgerfs.Core.Events.{EventEnvelope}
use ledgerfs.Store.Ledger.{insert_event, insert_events}

module _ (key : EventEnvelope → Bytes) where
  -- No event of the list has the event's key.
  abbrev pub NewTo : List EventEnvelope → EventEnvelope → Type 0
  NewTo l e = All (λ f. key e ≢ key f) l

  -- The keys of the list differ.
  abbrev pub Distinct : List EventEnvelope → Type 0
  Distinct [] = Unit
  Distinct (e ∷ es) = NewTo es e × Distinct es

  pub All-insert_event :
      (P : EventEnvelope → Type 0) (e : EventEnvelope) (l : List EventEnvelope)
      → P e
      → All P l
      → All P (insert_event key e l)
  unfolding insert_event
  All-insert_event P e [] h a = (h, tt)
  All-insert_event P e (f ∷ l) h a =
      elim (compare_bytes (key e) (key f))
        as (λ o. All P (elim o [
          | Ordering.lt ↦ e ∷ f ∷ l
          | Ordering.eq ↦ e ∷ l
          | Ordering.gt ↦ f ∷ insert_event key e l
        ])) [
          | Ordering.lt ↦ (h, a)
          | Ordering.eq ↦ (h, a.1)
          | Ordering.gt ↦ (a.0, All-insert_event P e l h a.1)
        ]

  insert_event-place :
      (e f : EventEnvelope) (l : List EventEnvelope) (o : Ordering)
      → compare_bytes (key e) (key f) ≡ o
      → key e ≢ key f
      → Permᴰ (insert_event key e l) (e ∷ l)
      → Permᴰ (insert_event key e (f ∷ l)) (e ∷ f ∷ l)
  unfolding insert_event
  insert_event-place e f l Ordering.lt h n rest = rw (h, insert_event) (Permᴰ.refl (e ∷ f ∷ l))
  insert_event-place e f l Ordering.eq h n rest = absurd (n (compare_bytes-eq (key e) (key f) h))
  insert_event-place e f l Ordering.gt h n rest =
      rw (h, insert_event) (Permᴰ.trans (Permᴰ.cons refl rest) (Permᴰ.swap refl refl))

  insert_event-Perm :
      (e : EventEnvelope) (l : List EventEnvelope)
      → NewTo l e
      → Permᴰ (insert_event key e l) (e ∷ l)
  insert_event-Perm e [] a = unfold insert_event in Permᴰ.refl (e ∷ [])
  insert_event-Perm e (f ∷ l) a =
      insert_event-place e f l (compare_bytes (key e) (key f)) refl a.0 (insert_event-Perm e l a.1)

  NewTo-insert_event :
      (e f : EventEnvelope) (l : List EventEnvelope)
      → key e ≢ key f
      → NewTo l f
      → NewTo (insert_event key e l) f
  NewTo-insert_event e f l n a = All-insert_event (λ g. key f ≢ key g) e l (λ h. n (sym h)) a

  NewTo-insert_events :
      (e : EventEnvelope) (es l : List EventEnvelope)
      → NewTo es e
      → All (λ f. NewTo l f) es
      → All (λ f. NewTo (insert_event key e l) f) es
  NewTo-insert_events e [] l d a = tt
  NewTo-insert_events e (f ∷ es) l d a =
      (NewTo-insert_event e f l d.0 a.0, NewTo-insert_events e es l d.1 a.1)

  -- New events of different keys are added to the ledger, and nothing else is.
  pub insert_events-Perm :
      (es l : List EventEnvelope)
      → Distinct es
      → All (λ e. NewTo l e) es
      → Permᴰ (insert_events key es l) (es ++ l)
  unfolding insert_events
  insert_events-Perm [] l d a = Permᴰ.refl l
  insert_events-Perm (e ∷ es) l d a =
      Permᴰ.trans
        (insert_events-Perm es (insert_event key e l) d.1 (NewTo-insert_events e es l d.0 a.1))
        (Permᴰ.trans (Permᴰ.append_left es (insert_event-Perm e l a.0)) (Permᴰ.middle e es l))

  pub All-insert_events :
      (P : EventEnvelope → Type 0) (es l : List EventEnvelope)
      → All P es
      → All P l
      → All P (insert_events key es l)
  unfolding insert_events
  All-insert_events P [] l h a = a
  All-insert_events P (e ∷ es) l h a =
      All-insert_events P es (insert_event key e l) h.1 (All-insert_event P e l h.0 a)
