-- ===== src/Resume/Examples.antt =====
-- A concrete journal of crates/k10s-server/src/resume.rs.
use k10s.Base.{String, ℕ, ◌≡◌, ◌↔◌, refl, true, false, List, ok, [], ◌∷◌, some, none, arith}
use k10s.Resume.Journal.{
  JournalEntry, SessionJournal, replay_from, journal_frame, empty, prune, prune_entries, aged,
  collect, expected_after,
}
use k10s.Base.Maps.{lookup}
use k10s.Resume.Registry.{
  SessionState, ResumeState, SessionClaim, ClaimRequest, claim_with_profile,
  prune as prune_registry, pruned_session, kept_session, make_room, resumable, same_profile,
  same_texts, resume, leased,
}
use k10s.Resume.Rooms.{Remains, IsRegistry, MakesRoom, make_room-MakesRoom}
use k10s.Resume.Leases.{
  LeaseCall, claims, records, releases, lease_run, is_current_lease, record_frame, release_lease,
}
use k10s.Resume.Claims.{Claims, claim-Claims}
use k10s.Resume.Fencing.{resumption_replays, resumption_fences}
use k10s.Resume.History.{lease_run-IsRegistry}
use k10s.Resume.Replays.{IsReplay, replay_from_iff}

abbrev third : JournalEntry
third = record { sequence = 3; sent_at = 10; message = "c" }

abbrev fourth : JournalEntry
fourth = record { sequence = 4; sent_at = 12; message = "d" }

abbrev journal : SessionJournal
journal = record { entries = third ∷ fourth ∷ []; last_sequence = 4 }

-- Four frames on a journal of two entries.
journal_of_four :
    journal_frame 4 "d" 2 100 12 (
      journal_frame 3 "c" 2 100 10
        (journal_frame 2 "b" 2 100 9 (journal_frame 1 "a" 2 100 9 empty)))
    ≡ journal
unfolding empty journal_frame prune prune_entries aged
journal_of_four = refl

replayed_from_two : replay_from 2 100 20 journal ≡ some (third ∷ fourth ∷ [])
unfolding replay_from collect aged expected_after
replayed_from_two = refl

evicted : replay_from 1 100 20 journal ≡ none
unfolding replay_from collect aged expected_after
evicted = refl

replay_from_iff_example :
    (replay_from 2 100 20 journal ≡ some (third ∷ fourth ∷ []))
    ↔ IsReplay 2 100 20 journal (third ∷ fourth ∷ [])
replay_from_iff_example =
    replay_from_iff 2 100 20 journal (omega arith) (omega arith, (omega arith, tt))
      (third ∷ fourth ∷ [])

abbrev held_session : SessionState
held_session = record {
  journal = journal;
  lease_generation = 1;
  takeover_tx = some 7;
  profile = some (record { protocol_minor = 2; capabilities = [] });
  last_activity = 12;
}

abbrev registry : ResumeState
registry = record {
  sessions = ("s", held_session) ∷ [];
  max_entries = 2;
  max_sessions = 1;
  max_age = 100;
}

registry-IsRegistry : IsRegistry registry
registry-IsRegistry = record {
  keys = (refl, tt);
  capped = omega arith;
  journals =
      (record { rising = (omega arith, (omega arith, omega arith)); short = omega arith }, tt);
}

-- A client that saw the frames up to 2 comes back over the channel 8.
abbrev returning : ClaimRequest
returning = record {
  hello_server_instance = some "srv";
  claimed_session = some "s";
  last_acked_sequence = some 2;
  fresh_session_id = "t";
  takeover_tx = 8;
  replay_capacity = 10;
  profile = record { protocol_minor = 2; capabilities = [] };
}

abbrev claimed : SessionClaim
claimed = record {
  session_id = "s";
  resumed = true;
  replay = third ∷ fourth ∷ [];
  previous_transport = some 7;
  lease_generation = 2;
  last_sequence = 4;
}

abbrev calls : List (ℕ × LeaseCall)
calls = (20, claims returning) ∷ (21, records "s" 2 5 "e") ∷ (22, releases "s" 1) ∷ []

abbrev resumed_registry : ResumeState
resumed_registry = (claim_with_profile "srv" returning 20 registry).0

claimed_again : claim_with_profile "srv" returning 20 registry ≡ (resumed_registry, ok claimed)
unfolding claim_with_profile prune_registry kept_session pruned_session prune prune_entries aged
    resumable same_profile same_texts replay_from collect expected_after resume leased
claimed_again = refl

lease_run-IsRegistry_example : IsRegistry (lease_run "srv" registry calls)
lease_run-IsRegistry_example =
    lease_run-IsRegistry "srv" registry calls (tt, ((λ e. omega arith), (tt, tt)))
      registry-IsRegistry

claim-Claims_example :
    ((id : String)
      → Remains registry 20
          (lookup id registry.sessions)
          (lookup id (prune_registry 20 registry).sessions))
    × Claims "srv" returning 20
        (prune_registry 20 registry)
        (claim_with_profile "srv" returning 20 registry)
claim-Claims_example = claim-Claims "srv" returning 20 registry registry-IsRegistry

make_room-MakesRoom_example : MakesRoom registry (make_room registry)
make_room-MakesRoom_example = make_room-MakesRoom registry registry-IsRegistry

resumption_replays_example :
    (cursor : ℕ) × (v : SessionState) × (some 2 ≡ some cursor)
    × (lookup "s" (prune_registry 20 registry).sessions ≡ some v)
    × IsReplay cursor 100 20 v.journal (third ∷ fourth ∷ [])
resumption_replays_example =
    resumption_replays "srv" returning 20 registry registry-IsRegistry resumed_registry claimed
      claimed_again refl (omega arith)

resumption_fences_example :
    (is_current_lease "s" 2 resumed_registry ≡ true)
    × (is_current_lease "s" 1 resumed_registry ≡ false)
    × (record_frame "s" 1 5 "e" 22 resumed_registry ≡ resumed_registry)
    × (release_lease "s" 1 22 resumed_registry ≡ resumed_registry)
resumption_fences_example =
    resumption_fences "srv" returning 20 registry registry-IsRegistry resumed_registry claimed
      held_session claimed_again refl refl (λ e. omega arith) (omega arith) 5 "e" 22
