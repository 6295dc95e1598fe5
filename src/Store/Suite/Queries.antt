-- ===== src/Store/Suite/Queries.antt =====
-- `test_query_events` of crates/ledgerfs-event-store/src/store.rs.
use ledgerfs.Prelude.{
  ℕ, ◌≡◌, refl, ap, ◌∙◌, Bool, true, ◌&&◌, none, some, List, [], ◌∷◌, Result, ok, err, arith, All,
  filter, take, length, map, Result-cases, inl, inr, ◌+◌, ◌==◌, suc,
}
use ledgerfs.Prelude.Perm.{All-Perm, length-Perm}
use ledgerfs.Core.Types.{AccountId, account_id_eq_iff}
use ledgerfs.Core.Events.{EventEnvelope, new_envelope}
use ledgerfs.Store.Table.{Table}
use ledgerfs.Store.Rocks.{start}
use ledgerfs.Store.Platform.{Platform, IsPlatform}
use ledgerfs.Store.EventStore.{EventStore, EventQuery, Outcome, event_matches_account}
use ledgerfs.Store.Append.{append_event}
use ledgerfs.Store.Append.History.{single, perform, perform_all}
use ledgerfs.Store.Query.{query_events, query_mode}
use ledgerfs.Store.Query.Window.{matching}
use ledgerfs.Store.Query.Range.{filter_all}
use ledgerfs.Store.Query.Answer.{query_events_answer}
use ledgerfs.Store.Ledger.{accepted, recorded, ledger_all}
use ledgerfs.Store.Ledger.Records.{DistinctAll}
use ledgerfs.Store.Ledger.Reads.{Kept-Decodes, history, take_while_all}
use ledgerfs.Store.Suite.{Drawn, unwrapped, create_event, create_from}

-- The rounds of the loop draw for one account.
abbrev for_account : AccountId → List Drawn → List Drawn
for_account id ds = map (λ (d : Drawn). record d { account_id = id }) ds

abbrev three_of : AccountId → EventQuery
three_of id = record {
  account_id = some id;
  start_time = none;
  end_time = none;
  limit = some 3;
  offset = none;
  event_types = none;
}

module _ {Db Error : Type 0} (p : Platform Db Error) where
  -- The appends of the loop, up to the first that fails.
  append_each : EventStore Db → List EventEnvelope → Outcome p (Unit {0}) × EventStore Db
  append_each self [] = (ok tt, self)
  append_each self (e ∷ es) =
      let (appended, after) = append_event p self e in
      elim appended [ err failure ↦ (err failure, after) | ok _ ↦ append_each after es ]

  test_query_events : EventStore Db → AccountId → List Drawn → Bool
  test_query_events store account_id ds =
      let (appended, after) = append_each store (create_from 0 (for_account account_id ds)) in
      unwrapped appended (λ _.
        unwrapped (query_events p after (three_of account_id))
          (λ result. length result.events == 3 && result.has_more))

  never_ok : {E A : Type 0} {a : A} {e : E} (r : Result E A) → r ≡ err e → r ≡ ok a → ⊥
  never_ok r h k = cc

  append_each-recorded :
      (self : EventStore Db) (es : List EventEnvelope)
      → (append_each self es).0 ≡ ok tt
      → ((append_each self es).1 ≡ perform_all p self (map single es))
        × (recorded p self (map single es) ≡ es)
  unfolding append_each perform_all recorded accepted perform
  append_each-recorded self [] h = (refl, refl)
  append_each-recorded self (e ∷ es) h = elim (Result-cases (append_event p self e).0) [
    | inl (u, good) ↦
        let (same, all) =
          append_each-recorded (append_event p self e).1 es (rw (good, append_each) at h) in
        (rw (good, append_each) same, rw good (ap (λ (l : List EventEnvelope). e ∷ l) all))
    | inr (failure, bad) ↦ absurd (never_ok _ refl (rw (bad, append_each) at h))
  ]

filter_own :
    (f : EventEnvelope → Bool) (l : List EventEnvelope) → All (λ e. f e ≡ true) l → filter f l ≡ l
filter_own f [] a = refl
filter_own f (e ∷ l) a =
    rw (a.0) (ap (λ (rest : List EventEnvelope). e ∷ rest) (filter_own f l a.1))

matching-three_of :
    (id : AccountId) (l : List EventEnvelope)
    → All (λ e. event_matches_account e id ≡ true) l
    → matching (three_of id) l ≡ l
matching-three_of id l a = rw filter_all (
    take_while_all (filter (λ e. event_matches_account e id) l)
    ∙ filter_own (λ e. event_matches_account e id) l a)

All-create_from :
    (id : AccountId) (i : ℕ) (ds : List Drawn)
    → All (λ e. event_matches_account e id ≡ true) (create_from i (for_account id ds))
unfolding create_from create_event new_envelope event_matches_account
All-create_from id i [] = tt
All-create_from id i (d ∷ ds) = ((account_id_eq_iff id id).1 refl, All-create_from id (i + 1) ds)

length-create_from :
    (id : AccountId) (i : ℕ) (ds : List Drawn)
    → length (create_from i (for_account id ds)) ≡ length ds
unfolding create_from
length-create_from id i [] = refl
length-create_from id i (d ∷ ds) = ap suc (length-create_from id (i + 1) ds)

module _ {Db Error : Type 0} (p : Platform Db Error) (contents : Db → Table)
    (documented : IsPlatform p contents) where
  DistinctAll-single : (es : List EventEnvelope) → DistinctAll p contents documented (map single es)
  DistinctAll-single [] = tt
  DistinctAll-single (e ∷ es) = ((tt, tt), DistinctAll-single es)

  three_taken : (l : List EventEnvelope) → length l ≡ 5 → length (take 3 l) ≡ 3
  three_taken (a ∷ b ∷ c ∷ l) h = refl
  three_taken [] h = absurd (omega (arith, h))
  three_taken (a ∷ []) h = absurd (omega (arith, h))
  three_taken (a ∷ b ∷ []) h = absurd (omega (arith, h))

  test_query_events_passes :
      (store : EventStore Db) (id : AccountId) (ds : List Drawn)
      → length ds ≡ 5
      → contents store.db ≡ []
      → (append_each p store (create_from 0 (for_account id ds))).0 ≡ ok tt
      → (p.rocks.iterator
          (append_each p store (create_from 0 (for_account id ds))).1.db
          start).fault
        ≡ none
      → test_query_events p store id ds ≡ true
  unfolding test_query_events query_mode
  test_query_events_passes store id ds five empty good quiet =
      let es = create_from 0 (for_account id ds) in
      let operations = map single es in
      let (same, all) = append_each-recorded p store es good in
      let after = perform_all p store operations in
      let l = ledger_all p store operations [] in
      let (held, perm, order) =
        history p contents documented store operations empty (DistinctAll-single es) in
      let own =
        All-Perm (λ e. event_matches_account e id ≡ true) perm (rw all (All-create_from id 0 ds)) in
      let long : length l ≡ 5 =
        length-Perm perm ∙ ap length all ∙ length-create_from id 0 ds ∙ five in
      let answer =
        query_events_answer p contents documented after (three_of id) l (rw (same) at quiet)
          (Kept-Decodes p after (contents after.db) l held) in
      rw good (rw same (rw answer (rw (matching-three_of id l own) (rw (three_taken l long) refl))))
