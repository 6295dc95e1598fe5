-- ===== src/Store/Suite/Outcomes.antt =====
-- What becomes of the tests of crates/ledgerfs-event-store/src on every platform that is as
-- documented.
use ledgerfs.Prelude.{
  ℕ, suc, ◌+◌, ◌≡◌, refl, ap, true, false, none, List, [], ◌∷◌, ok, arith, length,
}
use ledgerfs.Prelude.Bytes.{bytes_eq_refl}
use ledgerfs.Core.Types.{DateTime, account_id_eq_iff}
use ledgerfs.Core.Events.{new_envelope}
use ledgerfs.Store.Table.{Table}
use ledgerfs.Store.Rocks.{start, end}
use ledgerfs.Store.Platform.{Platform, IsPlatform}
use ledgerfs.Store.EventStore.{EventStore, key_of, event_matches_account}
use ledgerfs.Store.Append.{append_event, append_events}
use ledgerfs.Store.Query.{query_mode}
use ledgerfs.Store.Query.Answer.{query_events_answer}
use ledgerfs.Store.Ledger.Latest.{get_account_events_answer, get_latest_events_answer}
use ledgerfs.Store.Ledger.Reads.{Kept-Decodes}
use ledgerfs.Store.Ledger.Single.{append_event-Holds, append_events-Holds}
use ledgerfs.Store.Ledger.Order.{Distinct}
use ledgerfs.Store.Recovery.{RecoveryStats, default_options, everything, recover}
use ledgerfs.Store.Recovery.Laws.{recover-total}
use ledgerfs.Store.Suite.{
  Drawn, create_event, create_test_event, create_from, test_batch_append, test_batch_creation,
  test_append_and_retrieve_event, test_recovery_with_events,
}

test_batch_creation_passes : (now : ℕ) (d : Drawn) → test_batch_creation now d ≡ true
unfolding test_batch_creation
test_batch_creation_passes now d = refl

length-create_from : (i : ℕ) (ds : List Drawn) → length (create_from i ds) ≡ length ds
unfolding create_from
length-create_from i [] = refl
length-create_from i (d ∷ ds) = ap suc (length-create_from (i + 1) ds)

matches_own : (d : Drawn) → event_matches_account (create_test_event d) d.account_id ≡ true
unfolding create_event new_envelope event_matches_account
matches_own d = (account_id_eq_iff d.account_id d.account_id).1 refl

module _ {Db Error : Type 0} (p : Platform Db Error) (contents : Db → Table)
    (documented : IsPlatform p contents) where
  test_append_and_retrieve_event_passes :
      (store : EventStore Db) (d : Drawn)
      → contents store.db ≡ []
      → (append_event p store (create_test_event d)).0 ≡ ok tt
      → (p.rocks.iterator (append_event p store (create_test_event d)).1.db start).fault ≡ none
      → test_append_and_retrieve_event p store d ≡ true
  unfolding test_append_and_retrieve_event
  test_append_and_retrieve_event_passes store d empty good quiet =
      let e = create_test_event d in
      let after = (append_event p store e).1 in
      let held = append_event-Holds p contents documented store e empty good in
      let answer =
        get_account_events_answer p contents documented after d.account_id (e ∷ []) held quiet in
      rw good (rw answer (rw (matches_own d) (bytes_eq_refl e.event_id.uuid.bytes)))

  test_batch_append_passes :
      (store : EventStore Db) (ds : List Drawn)
      → length ds ≡ 10
      → Distinct (key_of p) (create_from 0 ds)
      → contents store.db ≡ []
      → (append_events p store (create_from 0 ds)).0 ≡ ok tt
      → (p.rocks.iterator (append_events p store (create_from 0 ds)).1.db end).fault ≡ none
      → test_batch_append p store ds ≡ true
  unfolding test_batch_append
  test_batch_append_passes store ds ten distinct empty good quiet =
      let es = create_from 0 ds in
      let after = (append_events p store es).1 in
      let (l, held, long) =
        append_events-Holds p contents documented store es empty distinct good in
      let (_, latest, _, counted, answer) =
        get_latest_events_answer p contents documented after l 20 held quiet in
      let ten_latest : length latest ≡ 10 =
        omega (arith, counted, long, ten, length-create_from 0 ds) in
      rw good (rw answer (rw ten_latest refl))

  -- The test of the recovery of one event fails: on every platform that is as documented, where the
  -- store is empty, the append succeeds and the iteration meets no error, the recovery that it runs
  -- succeeds with 2 events checked, where its first assertion expects 1.
  pub test_recovery_with_events_fails :
      (clock : ℕ → DateTime) (elapsed_ms : ℕ) (store : EventStore Db) (d : Drawn)
      → contents store.db ≡ []
      → (append_event p store (create_test_event d)).0 ≡ ok tt
      → (p.rocks.iterator (append_event p store (create_test_event d)).1.db start).fault ≡ none
      → (stats : RecoveryStats) × (recover p clock
            (append_event p store (create_test_event d)).1
            default_options
            elapsed_ms
          ≡ ok stats)
        × (stats.total_events_checked ≡ 2)
        × (test_recovery_with_events p clock elapsed_ms store d ≡ false)
  unfolding test_recovery_with_events query_mode
  test_recovery_with_events_fails clock elapsed_ms store d empty good quiet =
      let e = create_test_event d in
      let after = (append_event p store e).1 in
      let held = append_event-Holds p contents documented store e empty good in
      let answer =
        query_events_answer p contents documented after (everything none) (e ∷ []) quiet
          (Kept-Decodes p after (contents after.db) (e ∷ []) held) in
      let (stats, recovered, total) =
        recover-total p clock after default_options elapsed_ms _ refl refl answer in
      (stats, recovered, total, rw good (rw recovered (rw total refl)))
