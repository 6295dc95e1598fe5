-- ===== src/Store/Ledger/Latest.antt =====
-- `get_latest_events` and `get_account_events` of crates/ledgerfs-event-store/src/store.rs on a
-- ledger.
use Prim.Native.Nat.{min}
use mathlib.Core.List.{reverse-append, reverse-reverse}
use ledgerfs.Prelude.{
  ℕ, ◌≡◌, refl, sym, ◌∙◌, ap, Bool, true, false, none, some, zero, suc, List, [], ◌∷◌, ◌++◌, ok,
  arith, take, drop, filter, length, reverse, length-append, take-append-drop, length-take,
  if◌then◌else◌, ltb, Option,
}
use ledgerfs.Core.Types.{AccountId}
use ledgerfs.Core.Events.{EventEnvelope}
use ledgerfs.Store.Table.{Table, Entry}
use ledgerfs.Store.Rocks.{start, end}
use ledgerfs.Store.Platform.{Platform, IsPlatform}
use ledgerfs.Store.EventStore.{EventStore, EventQuery, event_matches_account}
use ledgerfs.Store.Query.{query_mode, decode_entries, get_latest_events, get_account_events}
use ledgerfs.Store.Query.Answer.{Decodes, query_events_answer}
use ledgerfs.Store.Query.Range.{filter_all}
use ledgerfs.Store.Query.Window.{matching}
use ledgerfs.Store.Ledger.Refinement.{Holds}
use ledgerfs.Store.Ledger.Reads.{Kept-Decodes, take_while_all}

length-reverse : {A : Type 0} (xs : List A) → length (reverse xs) ≡ length xs
length-reverse [] = refl
length-reverse (x ∷ xs) =
    rw (reverse-append (x ∷ []) xs)
      (omega (arith, length-append (reverse xs) (x ∷ []), length-reverse xs))

parted :
    (n : ℕ) (l : List EventEnvelope)
    → l ≡ reverse (drop n (reverse l)) ++ reverse (take n (reverse l))
parted n l =
    sym (reverse-reverse l)
    ∙ ap reverse (sym (take-append-drop n (reverse l)))
    ∙ reverse-append (take n (reverse l)) (drop n (reverse l))

no_fault : {E : Type 0} (b : Bool) → (if b then (let x : Option E = none in x) else none) ≡ none
no_fault true = refl
no_fault false = refl

abbrev account_query : AccountId → EventQuery
account_query account_id = record {
  account_id = some account_id;
  start_time = none;
  end_time = none;
  limit = none;
  offset = none;
  event_types = none;
}

matching_account :
    (account_id : AccountId) (l : List EventEnvelope)
    → matching (account_query account_id) l ≡ filter (λ e. event_matches_account e account_id) l
matching_account account_id l =
    rw filter_all (take_while_all (filter (λ e. event_matches_account e account_id) l))

module _ {Db Error : Type 0} (p : Platform Db Error) (self : EventStore Db) where
  Decodes-append :
      (s t : List Entry) (k l : List EventEnvelope)
      → Decodes p self s k
      → Decodes p self t l
      → Decodes p self (s ++ t) (k ++ l)
  Decodes-append [] t [] l h d = d
  Decodes-append [] t (e ∷ k) l h d = absurd h
  Decodes-append (entry ∷ s) t [] l h d = absurd h
  Decodes-append ((i, v) ∷ s) t (e ∷ k) l h d = (h.0, Decodes-append s t k l h.1 d)

  Decodes-reverse :
      (t : List Entry) (l : List EventEnvelope)
      → Decodes p self t l
      → Decodes p self (reverse t) (reverse l)
  Decodes-reverse [] [] h = tt
  Decodes-reverse [] (e ∷ l) h = absurd h
  Decodes-reverse (entry ∷ t) [] h = absurd h
  Decodes-reverse ((i, v) ∷ t) (e ∷ l) h =
      rw (reverse-append ((i, v) ∷ []) t, reverse-append (e ∷ []) l)
        (Decodes-append (reverse t) ((i, v) ∷ []) (reverse l) (e ∷ []) (Decodes-reverse t l h.1)
          (h.0, tt))

  Decodes-take :
      (n : ℕ) (t : List Entry) (l : List EventEnvelope)
      → Decodes p self t l
      → Decodes p self (take n t) (take n l)
  Decodes-take zero t l h = tt
  Decodes-take (suc n) [] [] h = tt
  Decodes-take (suc n) [] (e ∷ l) h = absurd h
  Decodes-take (suc n) (entry ∷ t) [] h = absurd h
  Decodes-take (suc n) ((i, v) ∷ t) (e ∷ l) h = (h.0, Decodes-take n t l h.1)

  decode_entries_answer :
      (t : List Entry) (l : List EventEnvelope)
      → Decodes p self t l
      → decode_entries p self none t ≡ ok l
  unfolding decode_entries
  decode_entries_answer [] [] h = refl
  decode_entries_answer [] (e ∷ l) h = absurd h
  decode_entries_answer (entry ∷ t) [] h = absurd h
  decode_entries_answer ((i, v) ∷ t) (e ∷ l) h = rw h.0 (rw (decode_entries_answer t l h.1) refl)

module _ {Db Error : Type 0} (p : Platform Db Error) (contents : Db → Table)
    (documented : IsPlatform p contents) where
  -- On a store that holds a ledger, `get_latest_events` whose iteration meets no error returns the
  -- last `limit` events of the ledger, or all of them where it has fewer, the oldest first.
  pub get_latest_events_answer :
      (self : EventStore Db) (l : List EventEnvelope) (limit : ℕ)
      → Holds p contents documented self l
      → (p.rocks.iterator self.db end).fault ≡ none
      → (older latest : List EventEnvelope) × (l ≡ older ++ latest)
        × (length latest ≡ min limit (length l))
        × (get_latest_events p self limit ≡ ok latest)
  unfolding get_latest_events
  get_latest_events_answer self l limit held quiet =
      let scan = p.rocks.iterator self.db end in
      let latest = take limit (reverse l) in
      let decodes = Decodes-take p self limit (reverse (contents self.db)) (reverse l) (
        Decodes-reverse p self (contents self.db) l
          (Kept-Decodes p self (contents self.db) l held)) in
      let listed =
        decode_entries_answer p self (take limit (reverse (contents self.db))) latest decodes in
      (
        reverse (drop limit (reverse l)),
        reverse latest,
        parted limit l,
        length-reverse latest ∙ length-take limit (reverse l) ∙ ap (min limit) (length-reverse l),
        rw (documented.is_rocks.iterator_all self.db end quiet) (
            rw quiet
              (rw (no_fault (ltb (length (reverse (contents self.db))) limit)) (rw listed refl))),
      )

  -- On a store that holds a ledger, `get_account_events` whose iteration meets no error returns the
  -- events that name the account, in the order of the ledger, but no more than the first 1000.
  pub get_account_events_answer :
      (self : EventStore Db) (account_id : AccountId) (l : List EventEnvelope)
      → Holds p contents documented self l
      → (p.rocks.iterator self.db start).fault ≡ none
      → get_account_events p self account_id
        ≡ ok (take 1000 (filter (λ e. event_matches_account e account_id) l))
  unfolding get_account_events query_mode
  get_account_events_answer self account_id l held quiet =
      let query = account_query account_id in
      rw
        (query_events_answer p contents documented self query l quiet
          (Kept-Decodes p self (contents self.db) l held))
        (ap (λ (xs : List EventEnvelope). ok (take 1000 xs)) (matching_account account_id l))
