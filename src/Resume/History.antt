-- ===== src/Resume/History.antt =====
-- Histories of the calls of `ResumeState`: crates/k10s-server/src/resume.rs.
use k10s.Base.{
  ℕ, ◌≡◌, ◌≢◌, String, false, some, List, [], ◌∷◌, arith, All, ◌==◌, if_cases, if_some_cases, Reply,
  ok, err, panic,
}
use k10s.Base.Maps.{lookup, insert-IsMap, length-overwrite}
use k10s.Base.Values.{AllValues-lookup, AllValues-insert}
use k10s.Resume.Soundness.{IsJournal, journal_frame-IsJournal}
use k10s.Resume.Registry.{SessionState, ResumeState, SessionClaim, ClaimRequest, new, prune}
use k10s.Resume.Rooms.{IsRegistry}
use k10s.Resume.Leases.{
  with_session, recorded, record_leased, record_frame, release_lease, LeaseCall, claims, records,
  releases, lease_step, lease_run,
}
use k10s.Resume.Claims.{Claims, claim-Claims}

pub new-IsRegistry :
    (max_entries max_sessions max_age : ℕ) → IsRegistry (new max_entries max_sessions max_age)
unfolding new
new-IsRegistry max_entries max_sessions max_age = record {
  keys = tt;
  capped = omega arith;
  journals = tt;
}

overwrite-IsRegistry :
    (id : String) (v w : SessionState) (s : ResumeState)
    → IsRegistry s
    → lookup id s.sessions ≡ some v
    → IsJournal s.max_entries w.journal
    → IsRegistry (with_session id w s)
unfolding with_session
overwrite-IsRegistry id v w s h e j = record {
  keys = insert-IsMap id w s.sessions h.keys;
  capped = ground (arith, length-overwrite id w s.sessions, h.capped);
  journals = AllValues-insert _ id w s.sessions j h.journals;
}

record_leased-IsRegistry :
    (id : String) (generation sequence : ℕ) (message : String) (now : ℕ) (s : ResumeState)
    → IsRegistry s
    → IsRegistry (record_leased id generation sequence message now s)
unfolding record_leased recorded
record_leased-IsRegistry id generation sequence message now s h =
    if_some_cases IsRegistry (lookup id s.sessions)
      (λ v e.
        if_cases IsRegistry (v.lease_generation == generation)
          (λ _. overwrite-IsRegistry id v (recorded sequence message now s v) s h e (
            journal_frame-IsJournal sequence message s.max_entries s.max_age now v.journal
              (AllValues-lookup _ id s.sessions v h.journals e)))
          (λ _. h))
      (λ _. h)

record_frame-IsRegistry :
    (id : String) (generation sequence : ℕ) (message : String) (now : ℕ) (s : ResumeState)
    → generation ≢ 0
    → IsRegistry s
    → IsRegistry (record_frame id generation sequence message now s)
unfolding record_frame
record_frame-IsRegistry id generation sequence message now s n h =
    let leased : (generation == 0) ≡ false = ground arith in
    rw leased (record_leased-IsRegistry id generation sequence message now s h)

release_lease-IsRegistry :
    (id : String) (generation now : ℕ) (s : ResumeState)
    → IsRegistry s
    → IsRegistry (release_lease id generation now s)
unfolding release_lease
release_lease-IsRegistry id generation now s h =
    if_some_cases IsRegistry (lookup id s.sessions)
      (λ v e.
        if_cases IsRegistry (v.lease_generation == generation)
          (λ _. overwrite-IsRegistry id v _ s h e (AllValues-lookup _ id s.sessions v h.journals e))
          (λ _. h))
      (λ _. h)

claimed-IsRegistry :
    (server : String) (r : ClaimRequest) (now : ℕ) (s : ResumeState)
    (o : ResumeState × Reply (Unit {0}) SessionClaim)
    → Claims server r now s o
    → IsRegistry o.0
claimed-IsRegistry server r now s (t, ok c) h = h.0
claimed-IsRegistry server r now s (t, err e) h = h.0.registry
claimed-IsRegistry server r now s (t, panic) h = absurd h

-- The writer has a lease: claims hand out generations from 1 on.
abbrev pub IsLeaseCall : ℕ × LeaseCall → Type 0
IsLeaseCall (now, records id generation sequence message) = generation ≢ 0
IsLeaseCall (now, claims r) = Unit
IsLeaseCall (now, releases id generation) = Unit

step-IsRegistry :
    (server : String) (s : ResumeState) (c : ℕ × LeaseCall)
    → IsLeaseCall c
    → IsRegistry s
    → IsRegistry (lease_step server s c)
unfolding lease_step
step-IsRegistry server s (now, claims r) g h =
    claimed-IsRegistry server r now (prune now s) _ (claim-Claims server r now s h).1
step-IsRegistry server s (now, records id generation sequence message) g h =
    record_frame-IsRegistry id generation sequence message now s g h
step-IsRegistry server s (now, releases id generation) g h =
    release_lease-IsRegistry id generation now s h

-- From a sound registry, every history of claims, releases and frames of writers with a lease ends in
-- a sound one: the sessions stay within their cap, and each journal is within its own, in rising
-- order, with no entry above its last sequence.
pub lease_run-IsRegistry :
    (server : String) (s : ResumeState) (cs : List (ℕ × LeaseCall))
    → All IsLeaseCall cs
    → IsRegistry s
    → IsRegistry (lease_run server s cs)
unfolding lease_run
lease_run-IsRegistry server s [] g h = h
lease_run-IsRegistry server s (c ∷ cs) g h =
    lease_run-IsRegistry server (lease_step server s c) cs g.1 (step-IsRegistry server s c g.0 h)
