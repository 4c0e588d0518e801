-- ===== src/Resume/Journal.antt =====
-- `SessionJournal` of crates/k10s-server/src/resume.rs. An `Instant` is a number of time units since some
-- origin, and the time of a call is its argument `now`.
use k10s.Base.{
  ℕ, ◌+◌, ◌-◌, ◌^◌, min, String, Bool, ◌||◌, Option, none, some, List, [], ◌∷◌, ◌++◌, ltb, leb,
  ◌==◌, if◌then◌else◌, if_some, length,
}

pub record JournalEntry : Type 0 where
  pub sequence : ℕ
  pub sent_at : ℕ
  pub message : String

pub record SessionJournal : Type 0 where
  pub entries : List JournalEntry
  pub last_sequence : ℕ

abbrev pub max_u64 : ℕ
max_u64 = 2 ^ 64 - 1

-- `u64::saturating_add(1)`.
abbrev pub saturating_next : ℕ → ℕ
saturating_next n = min (n + 1) max_u64

unfoldable pub empty : SessionJournal
empty = record { entries = []; last_sequence = 0 }

-- `sent_at.elapsed() >= max_age`.
unfoldable pub aged : ℕ → ℕ → JournalEntry → Bool
aged max_age now e = leb max_age (now - e.sent_at)

-- The `while let` of `prune`.
unfoldable pub prune_entries : ℕ → ℕ → ℕ → List JournalEntry → List JournalEntry
prune_entries max_entries max_age now [] = []
prune_entries max_entries max_age now (e ∷ es) =
    let rest = prune_entries max_entries max_age now es in
    if ltb max_entries (length (e ∷ es)) || aged max_age now e then rest else e ∷ es

unfoldable pub prune : ℕ → ℕ → ℕ → SessionJournal → SessionJournal
prune max_entries max_age now j = record j {
  entries = prune_entries max_entries max_age now j.entries;
}

unfoldable pub journal_frame : ℕ → String → ℕ → ℕ → ℕ → SessionJournal → SessionJournal
journal_frame sequence message max_entries max_age now j =
    if leb sequence j.last_sequence
    then j
    else prune max_entries max_age now (record {
      entries = j.entries ++ record { sequence = sequence; sent_at = now; message = message } ∷ [];
      last_sequence = sequence;
    })

-- The first loop of `replay_from`: the entries after the cursor, or `none` if one of them is aged.
unfoldable pub collect : ℕ → ℕ → ℕ → List JournalEntry → Option (List JournalEntry)
collect cursor max_age now [] = some []
collect cursor max_age now (e ∷ es) =
    let rest = collect cursor max_age now es in
    if leb e.sequence cursor
    then rest
    else if aged max_age now e
    then none
    else if_some rest (λ r. some (e ∷ r)) none

-- The second loop: the sequence that is expected behind the replayed entries.
unfoldable pub expected_after : ℕ → List JournalEntry → Option ℕ
expected_after expected [] = some expected
expected_after expected (e ∷ es) =
    let rest = expected_after (saturating_next expected) es in
    if e.sequence == expected then rest else none

unfoldable pub replay_from : ℕ → ℕ → ℕ → SessionJournal → Option (List JournalEntry)
replay_from cursor max_age now j =
    if ltb j.last_sequence cursor
    then none
    else if_some (collect cursor max_age now j.entries)
        (λ replayed.
          if_some (expected_after (saturating_next cursor) replayed)
            (λ expected.
              if expected == saturating_next j.last_sequence then some replayed else none)
            none)
        none
