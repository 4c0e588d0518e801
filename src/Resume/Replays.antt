-- ===== src/Resume/Replays.antt =====
-- What `replay_from` of crates/k10s-server/src/resume.rs returns.
use k10s.Base.{
  ℕ, ◌+◌, ◌≤◌, ◌<◌, ◌≡◌, ◌↔◌, refl, inl, inr, true, false, Option, none, some, List, [], ◌∷◌, map,
  arith, All, retain, Upto, Upto-le, ltb, leb, ◌==◌, if_some, if_cases, if_some_cases, Bool-cases,
}
use k10s.Resume.Journal.{
  JournalEntry, SessionJournal, max_u64, saturating_next, aged, collect, expected_after,
  replay_from,
}

abbrev pub sequences : List JournalEntry → List ℕ
sequences = map (λ e. e.sequence)

-- The entries that a client at the cursor has not seen.
abbrev pub unseen : ℕ → List JournalEntry → List JournalEntry
unseen cursor = retain (λ e. ltb cursor e.sequence)

-- All that the client has not seen, fresh, and without a gap up to the last sequence.
pub record IsReplay (cursor max_age now : ℕ) (j : SessionJournal) (r : List JournalEntry)
    : Type 0 where
  pub complete : r ≡ unseen cursor j.entries
  pub fresh : All (λ e. aged max_age now e ≡ false) r
  pub contiguous : Upto cursor j.last_sequence (sequences r)

abbrev Collected : ℕ → ℕ → ℕ → List JournalEntry → Option (List JournalEntry) → Type 0
Collected cursor max_age now es none = Unit
Collected cursor max_age now es (some r) =
    (r ≡ unseen cursor es) × All (λ e. aged max_age now e ≡ false) r

Collected-seen :
    (cursor max_age now : ℕ) (e : JournalEntry) (es : List JournalEntry)
    (o : Option (List JournalEntry))
    → leb e.sequence cursor ≡ true
    → Collected cursor max_age now es o
    → Collected cursor max_age now (e ∷ es) o
Collected-seen cursor max_age now e es none c h = tt
Collected-seen cursor max_age now e es (some r) c h = (ground (arith, h.0), h.1)

Collected-new :
    (cursor max_age now : ℕ) (e : JournalEntry) (es : List JournalEntry)
    (o : Option (List JournalEntry))
    → leb e.sequence cursor ≡ false
    → aged max_age now e ≡ false
    → Collected cursor max_age now es o
    → Collected cursor max_age now (e ∷ es) (if_some o (λ r. some (e ∷ r)) none)
Collected-new cursor max_age now e es none c a h = tt
Collected-new cursor max_age now e es (some r) c a h = (ground (arith, h.0), (a, h.1))

collect-Collected :
    (cursor max_age now : ℕ) (es : List JournalEntry)
    → Collected cursor max_age now es (collect cursor max_age now es)
unfolding collect
collect-Collected cursor max_age now [] = (refl, tt)
collect-Collected cursor max_age now (e ∷ es) =
    let rest = collect-Collected cursor max_age now es in
    if_cases (Collected cursor max_age now (e ∷ es)) (leb e.sequence cursor)
      (λ c. Collected-seen cursor max_age now e es (collect cursor max_age now es) c rest)
      λ c.
        if_cases (Collected cursor max_age now (e ∷ es)) (aged max_age now e) (λ _. tt)
          (λ a. Collected-new cursor max_age now e es (collect cursor max_age now es) c a rest)

collect_fresh :
    (cursor max_age now : ℕ) (es : List JournalEntry)
    → All (λ e. aged max_age now e ≡ false) (unseen cursor es)
    → collect cursor max_age now es ≡ some (unseen cursor es)
unfolding collect
collect_fresh cursor max_age now [] h = refl
collect_fresh cursor max_age now (e ∷ es) h = ground (arith, collect_fresh cursor max_age now es)

expected_run :
    (cursor last : ℕ) (r : List JournalEntry)
    → last < max_u64
    → Upto cursor last (sequences r)
    → expected_after (cursor + 1) r ≡ some (last + 1)
unfolding expected_after
expected_run cursor last [] b h = rw h
expected_run cursor last (e ∷ r) b h =
    ground
      (arith, Upto-le (cursor + 1) last (sequences r) h.1, expected_run (cursor + 1) last r b h.1)

run_expected :
    (cursor last : ℕ) (r : List JournalEntry)
    → cursor ≤ last
    → last < max_u64
    → All (λ e. e.sequence ≤ last) r
    → expected_after (saturating_next cursor) r ≡ some (saturating_next last)
    → Upto cursor last (sequences r)
unfolding expected_after
run_expected cursor last [] b c a h = ground arith
run_expected cursor last (e ∷ r) b c a h =
    elim (Bool-cases (e.sequence == saturating_next cursor)) [
      | inl m ↦
          let next : e.sequence ≡ cursor + 1 = ground (arith, a.0) in
          (next, run_expected (cursor + 1) last r (omega (arith, a.0)) c a.1 (ground (arith, a.0)))
      | inr m ↦ absurd (ground arith)
    ]

All-unseen :
    (P : JournalEntry → Type 0) (cursor : ℕ) (es : List JournalEntry)
    → All P es
    → All P (unseen cursor es)
All-unseen P cursor [] h = tt
All-unseen P cursor (e ∷ es) h = elim (Bool-cases (ltb cursor e.sequence)) [
  | inl c ↦ rw c (h.0, All-unseen P cursor es h.1)
  | inr c ↦ rw c (All-unseen P cursor es h.1)
]

module _ (cursor max_age now : ℕ) (j : SessionJournal) (issued : j.last_sequence < max_u64)
    (below : All (λ e. e.sequence ≤ j.last_sequence) j.entries) where
  abbrev Answer : Option (List JournalEntry) → Type 0
  Answer none = Unit
  Answer (some r) = IsReplay cursor max_age now j r

  replay_from-Answer : Answer (replay_from cursor max_age now j)
  unfolding replay_from
  replay_from-Answer =
      let all = collect-Collected cursor max_age now j.entries in
      if_cases Answer (ltb j.last_sequence cursor) (λ _. tt)
        λ reached.
          if_some_cases Answer (collect cursor max_age now j.entries)
            (λ r got.
              if_some_cases Answer (expected_after (saturating_next cursor) r)
                (λ n counted.
                  if_cases Answer (n == saturating_next j.last_sequence)
                    (λ last. checked r n (rw got at all) (ground arith) counted (ground arith))
                    (λ _. tt))
                (λ _. tt))
            (λ _. tt)
    where
      checked :
          (r : List JournalEntry) (n : ℕ)
          → Collected cursor max_age now j.entries (some r)
          → cursor ≤ j.last_sequence
          → expected_after (saturating_next cursor) r ≡ some n
          → n ≡ saturating_next j.last_sequence
          → IsReplay cursor max_age now j r
      checked r n all reached counted last = record {
        complete = all.0;
        fresh = all.1;
        contiguous =
            run_expected cursor j.last_sequence r reached issued
              (rw all.0 (All-unseen _ cursor j.entries below)) (rw last at counted);
      }

  Answer_some :
      (r : List JournalEntry)
      → replay_from cursor max_age now j ≡ some r
      → IsReplay cursor max_age now j r
  Answer_some r h = rw h at replay_from-Answer

  answers :
      (r : List JournalEntry)
      → IsReplay cursor max_age now j r
      → replay_from cursor max_age now j ≡ some r
  unfolding replay_from
  answers r h =
      let reached : cursor ≤ j.last_sequence = Upto-le cursor j.last_sequence _ h.contiguous in
      let behind : ltb j.last_sequence cursor ≡ false = ground arith in
      let got : collect cursor max_age now j.entries ≡ some r =
        rw h.complete (collect_fresh cursor max_age now j.entries (rw h.complete at h.fresh)) in
      let next : saturating_next cursor ≡ cursor + 1 = omega arith in
      let last : saturating_next j.last_sequence ≡ j.last_sequence + 1 = omega arith in
      let counted = expected_run cursor j.last_sequence r issued h.contiguous in
      rw (behind, got, next, counted, last) (ground arith)

  -- A replay is answered exactly where it fills the gap: it is then all that the journal holds after
  -- the cursor, none of it aged, numbered without a gap from the cursor to the last sequence sent.
  pub replay_from_iff :
      (r : List JournalEntry)
      → (replay_from cursor max_age now j ≡ some r) ↔ IsReplay cursor max_age now j r
  replay_from_iff r = (Answer_some r, answers r)
