-- ===== src/Resume/Rooms.antt =====
-- What `prune` and `make_room` of `ResumeState` keep: crates/k10s-server/src/resume.rs.
use k10s.Base.{
  ℕ, zero, suc, ◌-◌, ◌⊎◌, inl, inr, ◌≤◌, ◌<◌, ◌≡◌, refl, String, true, false, Option, none, some,
  [], ◌∷◌, arith, length, leb, if◌then◌else◌, if_some, if_cases, if_some_cases, is_some, Reply, ok,
  err, panic, string_eq,
}
use text.Mathlib.TextEquality.{eq_iff}
use k10s.Base.Maps.{
  Map, lookup, remove, IsMap, lookup-remove, lookup-retain, passes, remove-IsMap,
  retain_values-IsMap, length-remove-lt, length-remove-le, length-retain_values-le,
}
use k10s.Base.Values.{
  map_values, mapped, lookup-map_values, length-map_values, map_values-IsMap, AllValues,
  AllValues-remove, AllValues-retain_values, AllValues-map_values,
}
use k10s.Resume.Journal
use k10s.Resume.Soundness.{IsJournal, prune-IsJournal}
use k10s.Resume.Registry.{
  SessionState, ResumeState, pruned_session, kept_session, prune, earlier, oldest, evict_loop,
  make_room,
}

-- Distinct sessions, no more than the cap, each with a sound journal.
pub record IsRegistry (s : ResumeState) : Type 0 where
  pub keys : IsMap s.sessions
  pub capped : length s.sessions ≤ s.max_sessions
  pub journals : AllValues (λ v. IsJournal s.max_entries v.journal) s.sessions

pub prune-IsRegistry : (now : ℕ) (s : ResumeState) → IsRegistry s → IsRegistry (prune now s)
unfolding prune pruned_session
prune-IsRegistry now s h =
    let f = pruned_session s.max_entries s.max_age now in
    let m = map_values f s.sessions in
    record {
      keys = retain_values-IsMap _ m (map_values-IsMap f s.sessions h.keys);
      capped = omega (
        arith,
        length-retain_values-le (kept_session s.max_age now) m,
        length-map_values f s.sessions,
        h.capped,
      );
      journals = AllValues-retain_values _ _ m (
          AllValues-map_values _ f s.sessions
            (λ v j. prune-IsJournal s.max_entries s.max_age now v.journal j.rising) h.journals);
    }

-- A live lease survives a prune.
pub prune-lookup :
    (now : ℕ) (s : ResumeState) (id : String) (v : SessionState)
    → IsMap s.sessions
    → lookup id s.sessions ≡ some v
    → is_some v.takeover_tx ≡ true
    → lookup id (prune now s).sessions ≡ some (pruned_session s.max_entries s.max_age now v)
unfolding prune kept_session pruned_session
prune-lookup now s id v h e l =
    let f = pruned_session s.max_entries s.max_age now in
    rw
      (
        lookup-retain (kept_session s.max_age now) id (map_values f s.sessions)
            (map_values-IsMap f s.sessions h),
        lookup-map_values f id s.sessions,
        e,
      )
      (ground (arith, l))

-- What a prune leaves of a session: one with a transport, or whose transport is gone for less than the
-- age, stays with all but the aged entries of its journal; any other goes, and none appears.
abbrev pub Remains : ResumeState → ℕ → Option SessionState → Option SessionState → Type 0
Remains s now none after = after ≡ none
Remains s now (some v) after =
    ((is_some v.takeover_tx ≡ true) ⊎ (now - v.last_activity < s.max_age)
      → after ≡ some (record v { journal = Journal.prune s.max_entries s.max_age now v.journal }))
    × (is_some v.takeover_tx ≡ false → s.max_age ≤ now - v.last_activity → after ≡ none)

remains_lem :
    (now : ℕ) (s : ResumeState) (o : Option SessionState)
    → Remains s now o (
        passes (kept_session s.max_age now) (mapped (pruned_session s.max_entries s.max_age now) o))
unfolding kept_session pruned_session
remains_lem now s none = refl
remains_lem now s (some v) = (
  (λ k. elim k [ inl t ↦ ground (arith, t) | inr l ↦ ground (arith, l) ]),
  (λ t a. ground (arith, t, a)),
)

pub prune-Remains :
    (now : ℕ) (s : ResumeState) (id : String)
    → IsMap s.sessions
    → Remains s now (lookup id s.sessions) (lookup id (prune now s).sessions)
unfolding prune kept_session pruned_session
prune-Remains now s id h =
    let f = pruned_session s.max_entries s.max_age now in
    rw
      (
        lookup-retain (kept_session s.max_age now) id (map_values f s.sessions)
            (map_values-IsMap f s.sessions h),
        lookup-map_values f id s.sessions,
      )
      (remains_lem now s (lookup id s.sessions))

-- A session without a lease is no older than this.
abbrev NoOlder : ℕ → SessionState → Type 0
NoOlder n v = is_some v.takeover_tx ≡ false → n ≤ v.last_activity

abbrev pub IsLeased : SessionState → Type 0
IsLeased v = is_some v.takeover_tx ≡ true

-- The session that has been without a transport for longest, or none where each has its transport.
abbrev Oldest : Map SessionState → Option (String × SessionState) → Type 0
Oldest m none = AllValues IsLeased m
Oldest m (some w) =
    (lookup w.0 m ≡ some w.1)
    × (is_some w.1.takeover_tx ≡ false)
    × AllValues (NoOlder w.1.last_activity) m

lookup-later :
    (id j : String) (v w : SessionState) (m : Map SessionState)
    → lookup id m ≡ none
    → lookup j m ≡ some w
    → lookup j ((id, v) ∷ m) ≡ some w
lookup-later id j v w m h e = ground (arith, eq_iff id j)

AllValues-weaken :
    (n k : ℕ) (m : Map SessionState) → k ≤ n → AllValues (NoOlder n) m → AllValues (NoOlder k) m
AllValues-weaken n k [] l h = tt
AllValues-weaken n k ((j, v) ∷ m) l h = (λ f. omega (arith, h.0 f), AllValues-weaken n k m l h.1)

none_older : (n : ℕ) (m : Map SessionState) → AllValues IsLeased m → AllValues (NoOlder n) m
none_older n [] h = tt
none_older n ((j, v) ∷ m) h = (λ f. cc, none_older n m h.1)

Oldest-choice :
    (id : String) (v : SessionState) (m : Map SessionState) (o : Option (String × SessionState))
    → lookup id m ≡ none
    → is_some v.takeover_tx ≡ false
    → Oldest m o
    → Oldest
        ((id, v) ∷ m)
        (if_some o (λ w. if earlier (id, v) w then some (id, v) else some w) (some (id, v)))
Oldest-choice id v m none n f h =
    (ground (arith, eq_iff id id), f, ((λ g. omega arith), none_older v.last_activity m h))
Oldest-choice id v m (some w) n f h =
    if_cases (Oldest ((id, v) ∷ m)) (earlier (id, v) w)
      (λ c. (
        ground (arith, eq_iff id id),
        f,
        (
          (λ g. omega arith),
          AllValues-weaken w.1.last_activity v.last_activity m (ground arith) h.2,
        ),
      ))
      (λ c. (lookup-later id w.0 v w.1 m n h.0, h.1, ((λ g. ground arith), h.2)))

Oldest-leased :
    (id : String) (v : SessionState) (m : Map SessionState) (o : Option (String × SessionState))
    → lookup id m ≡ none
    → is_some v.takeover_tx ≡ true
    → Oldest m o
    → Oldest ((id, v) ∷ m) o
Oldest-leased id v m none n l h = (l, h)
Oldest-leased id v m (some w) n l h = (lookup-later id w.0 v w.1 m n h.0, h.1, ((λ g. cc), h.2))

oldest-Oldest : (m : Map SessionState) → IsMap m → Oldest m (oldest m)
unfolding oldest
oldest-Oldest [] h = tt
oldest-Oldest ((id, v) ∷ m) h =
    if_cases (Oldest ((id, v) ∷ m)) (is_some v.takeover_tx)
      (λ c. Oldest-leased id v m (oldest m) h.0 c (oldest-Oldest m h.1))
      (λ c. Oldest-choice id v m (oldest m) h.0 c (oldest-Oldest m h.1))

-- `t` is a sound registry with the limits of `s` and all the sessions of `s` that have a transport.
pub record KeepsLeases (s t : ResumeState) : Type 0 where
  pub registry : IsRegistry t
  pub max_sessions : t.max_sessions ≡ s.max_sessions
  pub leases :
      (id : String) (v : SessionState)
      → lookup id s.sessions ≡ some v
      → is_some v.takeover_tx ≡ true
      → lookup id t.sessions ≡ some v

abbrev pub MakesRoom : ResumeState → ResumeState × Reply (Unit {0}) (Unit {0}) → Type 0
MakesRoom s (t, ok u) = KeepsLeases s t × (length t.sessions < t.max_sessions)
MakesRoom s (t, err e) =
    KeepsLeases s t × (t.max_sessions ≤ length t.sessions) × AllValues IsLeased t.sessions
MakesRoom s (t, panic) = ⊥

removed-KeepsLeases :
    (s t : ResumeState) (w : String × SessionState)
    → KeepsLeases s t
    → lookup w.0 t.sessions ≡ some w.1
    → is_some w.1.takeover_tx ≡ false
    → KeepsLeases s (record t { sessions = remove w.0 t.sessions })
removed-KeepsLeases s t w h e f = record {
  registry = record {
    keys = remove-IsMap w.0 t.sessions h.registry.keys;
    capped = omega (arith, length-remove-le w.0 t.sessions, h.registry.capped);
    journals = AllValues-remove _ w.0 t.sessions h.registry.journals;
  };
  max_sessions = h.max_sessions;
  leases = λ id v g l.
      let kept : lookup id t.sessions ≡ some v = h.leases id v g l in
      ground (arith, lookup-remove w.0 id t.sessions, eq_iff w.0 id);
}

evict_loop-MakesRoom :
    (fuel : ℕ) (s t : ResumeState)
    → length t.sessions < fuel
    → KeepsLeases s t
    → MakesRoom s (evict_loop fuel t)
unfolding evict_loop
evict_loop-MakesRoom zero s t f h = absurd (omega arith)
evict_loop-MakesRoom (suc fuel) s t f h =
    let found = oldest-Oldest t.sessions h.registry.keys in
    if_cases (MakesRoom s) (leb t.max_sessions (length t.sessions))
      (λ c.
        if_some_cases (MakesRoom s) (oldest t.sessions)
          (λ w e.
            let at_w = rw e at found in
            evict_loop-MakesRoom fuel s (record t { sessions = remove w.0 t.sessions })
              (omega (arith, length-remove-lt w.0 t.sessions (rw at_w.0 refl)))
              (removed-KeepsLeases s t w h at_w.0 at_w.1))
          (λ e. (h, ground arith, rw e at found)))
      (λ c. (h, ground arith))

-- `make_room` ends, with room for one session more or with a refusal, and a refusal comes only where
-- every session has a transport. Either way no session with a transport is lost.
pub make_room-MakesRoom : (s : ResumeState) → IsRegistry s → MakesRoom s (make_room s)
unfolding make_room
make_room-MakesRoom s h =
    evict_loop-MakesRoom (suc (length s.sessions)) s s (omega arith)
      (record { registry = h; max_sessions = refl; leases = λ id v e l. e })
