-- ===== src/Store/Suite/Tests.antt =====
-- The suite on the database in memory.
use ledgerfs.Prelude.{◌≡◌, refl, false, ok, [], ◌∷◌}
use ledgerfs.Prelude.Int.{pos}
use ledgerfs.Core.Types.{event_id_of}
use ledgerfs.Core.Events.{new_envelope, event_type_of}
use ledgerfs.Store.Tests.Memory.{memory, held, memory-IsPlatform, empty_store, account, first}
use ledgerfs.Store.Append.{append_event}
use ledgerfs.Store.Append.Tests.{first_appended}
use ledgerfs.Store.Recovery.{RecoveryStats, default_options, recover}
use ledgerfs.Store.Suite.{Drawn, create_event, create_test_event, test_recovery_with_events}
use ledgerfs.Store.Suite.Samples.{tags_from}
use ledgerfs.Store.Suite.Outcomes.{test_recovery_with_events_fails}

abbrev drawn : Drawn
drawn = record {
  account_id = account;
  account_text = "7";
  event_id = event_id_of (1 ∷ []);
  created_at = pos 5;
  now = pos 300;
}

drawn-first : create_test_event drawn ≡ first
unfolding create_event new_envelope event_type_of
drawn-first = refl

test_recovery_with_events_fails_example :
    (stats : RecoveryStats) × (recover memory
        (λ i. pos 1000)
        (append_event memory empty_store (create_test_event drawn)).1
        default_options
        12
      ≡ ok stats)
    × (stats.total_events_checked ≡ 2)
    × (test_recovery_with_events memory (λ i. pos 1000) 12 empty_store drawn ≡ false)
unfolding create_event new_envelope event_type_of
test_recovery_with_events_fails_example =
    test_recovery_with_events_fails memory held memory-IsPlatform (λ i. pos 1000) 12 empty_store
      drawn refl first_appended refl

tags_from_test : tags_from 2 9 ≡ ("key_9", "value_9") ∷ ("key_10", "value_10") ∷ []
unfolding tags_from
tags_from_test = refl
