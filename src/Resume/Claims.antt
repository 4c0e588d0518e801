-- ===== src/Resume/Claims.antt =====
-- What a claim of crates/k10s-server/src/resume.rs does.
use k10s.Base.{
  ℕ, ◌+◌, ◌%◌, ◌^◌, ◌≤◌, ◌≡◌, ◌≢◌, refl, inl, inr, ◌⊎◌, String, true, false, Option, none, some,
  List, [], ◌∷◌, arith, length, leb, if_cases, if_some_cases, is_some, Reply, ok, err, panic,
  string_eq,
}
use text.Mathlib.TextEquality.{eq_iff}
use k10s.Base.Maps.{lookup, lookup-insert, insert-IsMap, length-insert-le, length-overwrite}
use k10s.Base.Values.{AllValues, AllValues-lookup, AllValues-insert}
use k10s.Resume.Journal.{JournalEntry, replay_from}
use k10s.Resume.Soundness.{empty-IsJournal}
use k10s.Resume.Registry.{
  ResumeProfile, SessionState, ResumeState, SessionClaim, ClaimRequest, same_texts, same_profile,
  default, prune, resumable, leased, resume, fresh_session, open_session, make_room,
  claim_with_profile,
}
use k10s.Resume.Rooms.{
  IsRegistry, KeepsLeases, MakesRoom, IsLeased, Remains, prune-Remains, make_room-MakesRoom,
  prune-IsRegistry,
}

eq_of_same_texts : (s t : List String) → same_texts s t ≡ true → s ≡ t
unfolding same_texts
eq_of_same_texts [] [] h = refl
eq_of_same_texts [] (b ∷ t) h = cc
eq_of_same_texts (a ∷ s) [] h = cc
eq_of_same_texts (a ∷ s) (b ∷ t) h = ground (arith, eq_of_same_texts s t, eq_iff a b)

eq_of_same_profile :
    (o : Option ResumeProfile) (q : ResumeProfile) → same_profile o q ≡ true → o ≡ some q
unfolding same_profile
eq_of_same_profile none q h = cc
eq_of_same_profile (some p) q h =
    let minor : p.protocol_minor ≡ q.protocol_minor = ground arith in
    let texts = eq_of_same_texts p.capabilities q.capabilities (ground arith) in
    grind (arith, minor, texts)

-- The grounds on which the session `id` is resumed from the pruned registry `s` with the replay `l`.
pub record IsResumable (server : String) (r : ClaimRequest) (now : ℕ) (s : ResumeState)
    (id : String) (v : SessionState) (l : List JournalEntry) : Type 0 where
  pub cursor : ℕ
  pub instance_id : r.hello_server_instance ≡ some server
  pub session : r.claimed_session ≡ some id
  pub acked : r.last_acked_sequence ≡ some cursor
  pub held : lookup id s.sessions ≡ some v
  pub profile : v.profile ≡ some r.profile
  pub answered : replay_from cursor s.max_age now v.journal ≡ some l
  pub fits : length l ≤ r.replay_capacity

module _ (server : String) (r : ClaimRequest) (now : ℕ) (s : ResumeState) where
  abbrev pub Resumable : Option (String × SessionState × List JournalEntry) → Type 0
  Resumable none = Unit
  Resumable (some (id, v, l)) = IsResumable server r now s id v l

  pub resumable-Resumable : Resumable (resumable server r now s)
  unfolding resumable
  resumable-Resumable =
      if_some_cases Resumable r.hello_server_instance
        (λ instance_id i.
          if_some_cases Resumable r.claimed_session
            (λ id c.
              if_some_cases Resumable r.last_acked_sequence
                (λ cursor a.
                  if_cases Resumable (string_eq.beq instance_id server)
                    (λ e.
                      if_some_cases Resumable (lookup id s.sessions)
                        (λ v h.
                          if_cases Resumable (same_profile v.profile r.profile)
                            (λ p.
                              if_some_cases Resumable (replay_from cursor s.max_age now v.journal)
                                (λ l b.
                                  if_cases Resumable (leb (length l) r.replay_capacity)
                                    (λ f. record {
                                      cursor = cursor;
                                      instance_id = ground (arith, eq_iff instance_id server);
                                      session = c;
                                      acked = a;
                                      held = h;
                                      profile = eq_of_same_profile v.profile r.profile p;
                                      answered = b;
                                      fits = ground arith;
                                    })
                                    (λ _. tt))
                                (λ _. tt))
                            (λ _. tt))
                        (λ _. tt))
                    (λ _. tt))
                (λ _. tt))
            (λ _. tt))
        (λ _. tt)

-- The transport of the request has the session of the claim, on the claim's generation.
pub record IsHeld (r : ClaimRequest) (c : SessionClaim) (t : ResumeState) : Type 0 where
  pub holder : SessionState
  pub held : lookup c.session_id t.sessions ≡ some holder
  pub generation : holder.lease_generation ≡ c.lease_generation
  pub transport : holder.takeover_tx ≡ some r.takeover_tx

-- A session that was resumed: on good grounds, with the replay that they give, and on the next
-- generation.
pub record IsResumed (server : String) (r : ClaimRequest) (now : ℕ) (s : ResumeState)
    (c : SessionClaim) : Type 0 where
  pub resumed : c.resumed ≡ true
  pub before : SessionState
  pub grounds : IsResumable server r now s c.session_id before c.replay
  pub previous : c.previous_transport ≡ before.takeover_tx
  pub bumped : c.lease_generation ≡ (before.lease_generation + 1) % 2 ^ 64
  pub watermark : c.last_sequence ≡ before.journal.last_sequence

pub record IsFresh (r : ClaimRequest) (c : SessionClaim) : Type 0 where
  pub not_resumed : c.resumed ≡ false
  pub session : c.session_id ≡ r.fresh_session_id
  pub nothing : c.replay ≡ []
  pub first : c.lease_generation ≡ 1

pub record KeepsOthers (id : String) (s t : ResumeState) : Type 0 where
  pub max_sessions : t.max_sessions ≡ s.max_sessions
  pub others :
      (j : String) (v : SessionState)
      → id ≢ j
      → lookup j s.sessions ≡ some v
      → is_some v.takeover_tx ≡ true
      → lookup j t.sessions ≡ some v

-- The outcome of a claim on the pruned registry `s`.
abbrev pub Claims :
    String → ClaimRequest → ℕ → ResumeState → ResumeState × Reply (Unit {0}) SessionClaim → Type 0
Claims server r now s (t, ok c) =
    IsRegistry t
    × IsHeld r c t
    × KeepsOthers c.session_id s t
    × (IsResumed server r now s c ⊎ IsFresh r c)
Claims server r now s (t, err e) =
    KeepsLeases s t × (t.max_sessions ≤ length t.sessions) × AllValues IsLeased t.sessions
Claims server r now s (t, panic) = ⊥

module _ (server : String) (r : ClaimRequest) (now : ℕ) (s : ResumeState) (h : IsRegistry s) where
  resume-Claims :
      (x : String × SessionState × List JournalEntry)
      → Resumable server r now s (some x)
      → Claims server r now s (resume r now s x)
  unfolding resume leased
  resume-Claims (id, v, l) g = (
    record {
      keys = insert-IsMap id _ s.sessions h.keys;
      capped = ground (arith, length-overwrite id (leased r now v) s.sessions, h.capped, g.held);
      journals =
          AllValues-insert _ id _ s.sessions (AllValues-lookup _ id s.sessions v h.journals g.held)
            h.journals;
    },
    record {
      holder = leased r now v;
      held = ground (arith, lookup-insert id id (leased r now v) s.sessions, eq_iff id id);
      generation = refl;
      transport = refl;
    },
    record {
      max_sessions = refl;
      others =
          λ j w n e t. ground (arith, lookup-insert id j (leased r now v) s.sessions, eq_iff id j);
    },
    inl (record {
      resumed = refl;
      before = v;
      grounds = g;
      previous = refl;
      bumped = refl;
      watermark = refl;
    }),
  )

  open_session-Claims :
      (o : ResumeState × Reply (Unit {0}) (Unit {0}))
      → MakesRoom s o
      → Claims server r now s (open_session r now o)
  unfolding open_session fresh_session default
  open_session-Claims (t, err e) m = m
  open_session-Claims (t, panic) m = m
  open_session-Claims (t, ok u) m =
      let id = r.fresh_session_id in
      (
        record {
          keys = insert-IsMap id _ t.sessions m.0.registry.keys;
          capped = omega (arith, length-insert-le id (fresh_session r now) t.sessions, m.1);
          journals =
              AllValues-insert _ id _ t.sessions (empty-IsJournal t.max_entries)
                m.0.registry.journals;
        },
        record {
          holder = fresh_session r now;
          held = ground (arith, lookup-insert id id (fresh_session r now) t.sessions, eq_iff id id);
          generation = refl;
          transport = refl;
        },
        record {
          max_sessions = m.0.max_sessions;
          others = λ j w n e l.
              let kept = m.0.leases j w e l in
              ground
                (arith, kept, lookup-insert id j (fresh_session r now) t.sessions, eq_iff id j);
        },
        inr (record { not_resumed = refl; session = refl; nothing = refl; first = refl }),
      )

-- Every claim on a sound registry first drops the sessions whose transport is gone for the maximal age,
-- and only those, and ages the journals of the others. It then succeeds or is refused, and the registry
-- stays sound. A claim that succeeds gives the session to the new transport, either resumed on its
-- grounds or fresh, and takes no other session from its transport. A refusal comes only where all
-- places are leased.
pub claim-Claims :
    (server : String) (r : ClaimRequest) (now : ℕ) (s : ResumeState)
    → IsRegistry s
    → ((id : String) → Remains s now (lookup id s.sessions) (lookup id (prune now s).sessions))
      × Claims server r now (prune now s) (claim_with_profile server r now s)
unfolding claim_with_profile
claim-Claims server r now s h =
    let p = prune now s in
    let g = prune-IsRegistry now s h in
    let found = resumable-Resumable server r now p in
    (
      λ id. prune-Remains now s id h.keys,
      if_some_cases (Claims server r now p) (resumable server r now p)
          (λ x e. resume-Claims server r now p g x (rw e at found))
          (λ _. open_session-Claims server r now p g (make_room p) (make_room-MakesRoom p g)),
    )
