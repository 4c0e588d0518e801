-- ===== src/Resume/Fencing.antt =====
-- A transport that lost its session: crates/k10s-server/src/resume.rs.
use k10s.Base.{ℕ, ◌^◌, ◌<◌, ◌≡◌, ◌≢◌, sym, subst, inl, inr, String, true, false, some, arith, ok}
use k10s.Base.Maps.{lookup, IsMap, lookup-retain}
use k10s.Base.Values.{map_values, lookup-map_values, map_values-IsMap, AllValues-lookup}
use k10s.Resume.Journal.{max_u64}
use k10s.Resume.Replays.{IsReplay, replay_from_iff}
use k10s.Resume.Soundness.{IsJournal-below}
use k10s.Resume.Registry.{
  SessionState, ResumeState, SessionClaim, ClaimRequest, pruned_session, kept_session, prune,
  claim_with_profile,
}
use k10s.Resume.Rooms.{IsRegistry, prune-IsRegistry}
use k10s.Resume.Leases.{record_frame, record_leased, is_current_lease, release_lease}
use k10s.Resume.Claims.{Claims, claim-Claims, IsResumed, IsHeld}

-- A prune leaves the generation of the sessions that it keeps.
prune-generation :
    (now : ℕ) (s : ResumeState) (id : String) (v w : SessionState)
    → IsMap s.sessions
    → lookup id s.sessions ≡ some v
    → lookup id (prune now s).sessions ≡ some w
    → w.lease_generation ≡ v.lease_generation
unfolding prune kept_session pruned_session
prune-generation now s id v w h e f =
    let m = map_values (pruned_session s.max_entries s.max_age now) s.sessions in
    let at_id = lookup-retain (kept_session s.max_age now) id m (map_values-IsMap _ s.sessions h) in
    let at_v = lookup-map_values (pruned_session s.max_entries s.max_age now) id s.sessions in
    ground (arith, at_id, at_v)

record_stale :
    (id : String) (generation sequence : ℕ) (message : String) (now : ℕ) (s : ResumeState)
    → generation ≢ 0
    → is_current_lease id generation s ≡ false
    → record_frame id generation sequence message now s ≡ s
unfolding record_frame record_leased is_current_lease
record_stale id generation sequence message now s n h = ground (arith, n)

release_stale :
    (id : String) (generation now : ℕ) (s : ResumeState)
    → is_current_lease id generation s ≡ false
    → release_lease id generation now s ≡ s
unfolding release_lease is_current_lease
release_stale id generation now s h = ground arith

module _ (server : String) (r : ClaimRequest) (now : ℕ) (s : ResumeState) (h : IsRegistry s) where
  outcome :
      (t : ResumeState) (c : SessionClaim)
      → claim_with_profile server r now s ≡ (t, ok c)
      → Claims server r now (prune now s) (t, ok c)
  outcome t c e = subst (Claims server r now (prune now s)) e (claim-Claims server r now s h).1

  current :
      (t : ResumeState) (c : SessionClaim)
      → IsHeld r c t
      → is_current_lease c.session_id c.lease_generation t ≡ true
  unfolding is_current_lease
  current t c i = ground (arith, i.held, i.generation)

  superseded :
      (t : ResumeState) (c : SessionClaim) (generation : ℕ)
      → IsHeld r c t
      → c.lease_generation ≢ generation
      → is_current_lease c.session_id generation t ≡ false
  unfolding is_current_lease
  superseded t c generation i n = ground (arith, i.held, i.generation, n)

  resumption :
      (t : ResumeState) (c : SessionClaim)
      → claim_with_profile server r now s ≡ (t, ok c)
      → c.resumed ≡ true
      → IsHeld r c t × IsResumed server r now (prune now s) c
  resumption t c e f =
      let o = outcome t c e in
      (o.1, elim o.3 [ inl g ↦ g | inr g ↦ absurd (let n = g.not_resumed in cc) ])

  -- A resumed session replays what its client has not seen, complete and fresh and without a gap, as
  -- long as its last sequence is below the largest.
  pub resumption_replays :
      (t : ResumeState) (c : SessionClaim)
      → claim_with_profile server r now s ≡ (t, ok c)
      → c.resumed ≡ true
      → c.last_sequence < max_u64
      → (cursor : ℕ) × (v : SessionState) × (r.last_acked_sequence ≡ some cursor)
        × (lookup c.session_id (prune now s).sessions ≡ some v)
        × IsReplay cursor s.max_age now v.journal c.replay
  unfolding prune
  resumption_replays t c e f l =
      let g = (resumption t c e f).1 in
      let p = prune-IsRegistry now s h in
      let j =
        AllValues-lookup _ c.session_id (prune now s).sessions g.before p.journals g.grounds.held in
      (
        g.grounds.cursor,
        g.before,
        g.grounds.acked,
        g.grounds.held,
        (replay_from_iff g.grounds.cursor s.max_age now g.before.journal (rw (sym g.watermark) l)
              (IsJournal-below s.max_entries g.before.journal j) c.replay).0
            g.grounds.answered,
      )

  -- After a resumption the transport that had the session is no longer current: the new one is, and
  -- the frames that the old one still records, and its release, change nothing.
  pub resumption_fences :
      (t : ResumeState) (c : SessionClaim) (v : SessionState)
      → claim_with_profile server r now s ≡ (t, ok c)
      → c.resumed ≡ true
      → lookup c.session_id s.sessions ≡ some v
      → v.lease_generation ≢ 0
      → v.lease_generation < 2 ^ 64
      → (sequence : ℕ) (message : String) (later : ℕ)
      → (is_current_lease c.session_id c.lease_generation t ≡ true)
        × (is_current_lease c.session_id v.lease_generation t ≡ false)
        × (record_frame c.session_id v.lease_generation sequence message later t ≡ t)
        × (release_lease c.session_id v.lease_generation later t ≡ t)
  resumption_fences t c v e f g n l sequence message later =
      let (held, resumed) = resumption t c e f in
      let same =
        prune-generation now s c.session_id v resumed.before h.keys g resumed.grounds.held in
      let stale =
        superseded t c v.lease_generation held (rw (resumed.bumped, same) (omega arith)) in
      (
        current t c held,
        stale,
        record_stale c.session_id v.lease_generation sequence message later t n stale,
        release_stale c.session_id v.lease_generation later t stale,
      )
