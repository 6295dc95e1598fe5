-- ===== src/Store/Query/Window.antt =====
-- What the loop of `query_events` returns, as operations on the list of the stored events.
use ledgerfs.Prelude.{
  ℕ, zero, suc, ◌+◌, ◌-◌, ◌≤◌, ◌<◌, ◌≡◌, refl, sym, not, List, [], ◌∷◌, ◌++◌, arith, length,
  length-append, take, drop, filter, take_while, Bool-cases, inl, inr,
}
use mathlib.Core.List.{append-nil, append_assoc}
use ledgerfs.Core.Events.{EventEnvelope}
use ledgerfs.Store.EventStore.{
  EventQuery, verdict, skip, stop, accept, of_account, past_end, of_type,
}

-- The events that a query is about: of its account, up to its end time, of its types.
abbrev pub matching : EventQuery → List EventEnvelope → List EventEnvelope
matching query events =
    filter (of_type query)
      (take_while (λ e. not (past_end query e)) (filter (of_account query) events))

-- What the loop still adds to the events that it holds.
abbrev pub window : ℕ → ℕ → ℕ → List EventEnvelope → List EventEnvelope → List EventEnvelope
window limit offset count events rest =
    events ++ take (limit - length events) (drop (offset - count) rest)

pub matching-cons :
    (query : EventQuery) (e : EventEnvelope) (es : List EventEnvelope)
    → matching query (e ∷ es) ≡ elim (verdict query e) [
      | skip ↦ matching query es
      | stop ↦ []
      | accept ↦ e ∷ matching query es
    ]
unfolding verdict
matching-cons query e es = elim (Bool-cases (of_account query e)) [
  | inl a ↦ elim (Bool-cases (past_end query e)) [
    | inl b ↦ rw a (rw b refl)
    | inr b ↦ elim (Bool-cases (of_type query e)) [
      | inl c ↦ rw a (rw b (rw c refl))
      | inr c ↦ rw a (rw b (rw c refl))
    ]
  ]
  | inr a ↦ rw a refl
]

pub window_skip :
    (limit offset count : ℕ) (events rest : List EventEnvelope) (e : EventEnvelope)
    → count < offset
    → window limit offset count events (e ∷ rest) ≡ window limit offset (count + 1) events rest
window_skip limit offset count events rest e h =
    let s : offset - count ≡ suc (offset - (count + 1)) = omega arith in rw s refl

pub window_full :
    (limit offset count : ℕ) (events rest : List EventEnvelope)
    → limit ≤ length events
    → window limit offset count events rest ≡ events
window_full limit offset count events rest h =
    let s : limit - length events ≡ 0 = omega arith in rw s (append-nil events)

pub window_push :
    (limit offset count : ℕ) (events rest : List EventEnvelope) (e : EventEnvelope)
    → offset ≤ count
    → length events < limit
    → window limit offset count events (e ∷ rest)
      ≡ window limit offset (count + 1) (events ++ e ∷ []) rest
window_push limit offset count events rest e h k =
    let s : limit - length events ≡ suc (limit - length (events ++ e ∷ [])) =
      omega (arith, length-append events (e ∷ [])) in
    let z : offset - count ≡ 0 = omega arith in
    let z' : offset - (count + 1) ≡ 0 = omega arith in
    rw s (rw z (rw z' (sym (append_assoc events (e ∷ []) _))))

pub window_start :
    (limit offset : ℕ) (rest : List EventEnvelope)
    → window limit offset 0 [] rest ≡ take limit (drop offset rest)
window_start limit offset rest =
    let s : limit - 0 ≡ limit = omega arith in
    let z : offset - 0 ≡ offset = omega arith in rw s (rw z refl)

take_nil : (n : ℕ) → take {A = EventEnvelope} n [] ≡ []
take_nil zero = refl
take_nil (suc n) = refl

drop_nil : (n : ℕ) → drop {A = EventEnvelope} n [] ≡ []
drop_nil zero = refl
drop_nil (suc n) = refl

pub window_nil :
    (limit offset count : ℕ) (events : List EventEnvelope)
    → window limit offset count events [] ≡ events
window_nil limit offset count events = rw drop_nil (rw take_nil (append-nil events))
