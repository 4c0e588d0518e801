-- ===== src/Resume/Registry.antt =====
-- `ResumeState` of crates/k10s-server/src/resume.rs, the sessions that a client may resume. The sender of
-- a takeover channel is a number, the arguments of `claim_with_profile` are a record, and the error of
-- a claim is `err tt`.
use k10s.Base.{
  ℕ, zero, suc, ◌+◌, ◌-◌, ◌%◌, ◌^◌, max, String, Bool, true, false, ◌&&◌, ◌||◌, Option, none, some,
  List, [], ◌∷◌, ltb, leb, ◌==◌, if◌then◌else◌, if_some, is_some, length, Reply, ok, err, panic,
  string_eq,
}
use Prim.Native.Nat.{Ordering}
use Prim.Native.String.{compare}
use k10s.Base.Maps.{Map, lookup, insert, remove, retain_values}
use k10s.Base.Values.{map_values}
use k10s.Resume.Journal as Journal
use k10s.Resume.Journal.{JournalEntry, SessionJournal, journal_frame, replay_from}

pub record ResumeProfile : Type 0 where
  pub protocol_minor : ℕ
  pub capabilities : List String

pub record SessionState : Type 0 where
  pub journal : SessionJournal
  pub lease_generation : ℕ
  pub takeover_tx : Option ℕ
  pub profile : Option ResumeProfile
  pub last_activity : ℕ

pub record ResumeState : Type 0 where
  pub sessions : Map SessionState
  pub max_entries : ℕ
  pub max_sessions : ℕ
  pub max_age : ℕ

pub record SessionClaim : Type 0 where
  pub session_id : String
  pub resumed : Bool
  pub replay : List JournalEntry
  pub previous_transport : Option ℕ
  pub lease_generation : ℕ
  pub last_sequence : ℕ

pub record ClaimRequest : Type 0 where
  pub hello_server_instance : Option String
  pub claimed_session : Option String
  pub last_acked_sequence : Option ℕ
  pub fresh_session_id : String
  pub takeover_tx : ℕ
  pub replay_capacity : ℕ
  pub profile : ResumeProfile

unfoldable pub same_texts : List String → List String → Bool
same_texts [] [] = true
same_texts [] (b ∷ t) = false
same_texts (a ∷ s) [] = false
same_texts (a ∷ s) (b ∷ t) = string_eq.beq a b && same_texts s t

unfoldable pub same_profile : Option ResumeProfile → ResumeProfile → Bool
same_profile none q = false
same_profile (some p) q =
    (p.protocol_minor == q.protocol_minor) && same_texts p.capabilities q.capabilities

unfoldable pub new : ℕ → ℕ → ℕ → ResumeState
new max_entries max_sessions max_age = record {
  sessions = [];
  max_entries = max_entries;
  max_sessions = max max_sessions 1;
  max_age = max_age;
}

unfoldable pub default : ℕ → SessionState
default now = record {
  journal = Journal.empty;
  lease_generation = 0;
  takeover_tx = none;
  profile = none;
  last_activity = now;
}

unfoldable pub pruned_session : ℕ → ℕ → ℕ → SessionState → SessionState
pruned_session max_entries max_age now v = record v {
  journal = Journal.prune max_entries max_age now v.journal;
}

unfoldable pub kept_session : ℕ → ℕ → SessionState → Bool
kept_session max_age now v = is_some v.takeover_tx || ltb (now - v.last_activity) max_age

unfoldable pub prune : ℕ → ResumeState → ResumeState
prune now s = record s {
  sessions =
      retain_values (kept_session s.max_age now)
        (map_values (pruned_session s.max_entries s.max_age now) s.sessions);
}

-- The order of the iteration of a `BTreeMap` settles a tie.
abbrev pub earlier : String × SessionState → String × SessionState → Bool
earlier (id, v) (jd, w) =
    ltb v.last_activity w.last_activity
    || ((v.last_activity == w.last_activity)
        && (elim (compare id jd) [ Ordering.gt ↦ false | _ ↦ true ]))

-- `filter(..).min_by_key(..)` of `make_room`.
unfoldable pub oldest : Map SessionState → Option (String × SessionState)
oldest [] = none
oldest ((id, v) ∷ m) =
    let rest = oldest m in
    if is_some v.takeover_tx
    then rest
    else if_some rest (λ w. if earlier (id, v) w then some (id, v) else some w) (some (id, v))

-- The `while` of `make_room`, on fuel.
unfoldable pub evict_loop : ℕ → ResumeState → ResumeState × Reply (Unit {0}) (Unit {0})
evict_loop zero s = (s, panic)
evict_loop (suc fuel) s =
    if leb s.max_sessions (length s.sessions)
    then if_some (oldest s.sessions)
        (λ w. evict_loop fuel (record s { sessions = remove w.0 s.sessions })) (s, err tt)
    else (s, ok tt)

unfoldable pub make_room : ResumeState → ResumeState × Reply (Unit {0}) (Unit {0})
make_room s = evict_loop (suc (length s.sessions)) s

-- The session and the replay that pass the guards of the `if` of `claim_with_profile`.
unfoldable pub resumable :
    String → ClaimRequest → ℕ → ResumeState → Option (String × SessionState × List JournalEntry)
resumable server_instance_id r now s =
    if_some r.hello_server_instance
      (λ instance_id.
        if_some r.claimed_session
          (λ id.
            if_some r.last_acked_sequence
              (λ cursor.
                if string_eq.beq instance_id server_instance_id
                then if_some (lookup id s.sessions)
                    (λ v.
                      if same_profile v.profile r.profile
                      then if_some (replay_from cursor s.max_age now v.journal)
                          (λ l. if leb (length l) r.replay_capacity then some (id, v, l) else none)
                          none
                      else none)
                    none
                else none)
              none)
          none)
      none

unfoldable pub leased : ClaimRequest → ℕ → SessionState → SessionState
leased r now v = record v {
  lease_generation = (v.lease_generation + 1) % 2 ^ 64;
  last_activity = now;
  takeover_tx = some r.takeover_tx;
}

unfoldable pub resume :
    ClaimRequest
    → ℕ
    → ResumeState
    → String × SessionState × List JournalEntry
    → ResumeState × Reply (Unit {0}) SessionClaim
resume r now s (id, v, l) =
    let w = leased r now v in
    (
      record s { sessions = insert id w s.sessions },
      ok (record {
        session_id = id;
        resumed = true;
        replay = l;
        previous_transport = v.takeover_tx;
        lease_generation = w.lease_generation;
        last_sequence = v.journal.last_sequence;
      }),
    )

unfoldable pub fresh_session : ClaimRequest → ℕ → SessionState
fresh_session r now = record (default now) {
  lease_generation = 1;
  takeover_tx = some r.takeover_tx;
  profile = some r.profile;
}

unfoldable pub open_session :
    ClaimRequest
    → ℕ
    → ResumeState × Reply (Unit {0}) (Unit {0})
    → ResumeState × Reply (Unit {0}) SessionClaim
open_session r now (s, err e) = (s, err e)
open_session r now (s, panic) = (s, panic)
open_session r now (s, ok u) = (
  record s { sessions = insert r.fresh_session_id (fresh_session r now) s.sessions },
  ok (record {
    session_id = r.fresh_session_id;
    resumed = false;
    replay = [];
    previous_transport = none;
    lease_generation = 1;
    last_sequence = 0;
  }),
)

unfoldable pub claim_with_profile :
    String → ClaimRequest → ℕ → ResumeState → ResumeState × Reply (Unit {0}) SessionClaim
claim_with_profile server_instance_id r now s =
    let s = prune now s in
    if_some (resumable server_instance_id r now s) (resume r now s)
      (open_session r now (make_room s))
