-- ===== src/Resume/Soundness.antt =====
-- The journals of crates/k10s-server/src/resume.rs stay rising and bounded.
use k10s.Base.{
  ℕ, ◌≤◌, ◌<◌, ◌≡◌, refl, String, ◌||◌, List, [], ◌∷◌, ◌++◌, arith, All, length, ltb, leb, if_cases,
}
use k10s.Resume.Journal.{
  JournalEntry, SessionJournal, empty, aged, prune_entries, prune, journal_frame,
}
use k10s.Resume.Replays.{sequences}

-- Each number is above the one before it, the first is above `lo`, and none is above `hi`.
abbrev pub Rising : ℕ → ℕ → List ℕ → Type 0
Rising lo hi [] = lo ≤ hi
Rising lo hi (n ∷ ns) = (lo < n) × Rising n hi ns

pub record IsJournal (max_entries : ℕ) (j : SessionJournal) : Type 0 where
  pub rising : Rising 0 j.last_sequence (sequences j.entries)
  pub short : length j.entries ≤ max_entries

Rising-le : (lo hi : ℕ) (ns : List ℕ) → Rising lo hi ns → lo ≤ hi
Rising-le lo hi [] h = h
Rising-le lo hi (n ∷ ns) h = omega (arith, Rising-le n hi ns h.1, h.0)

Rising-lower : (lo mid hi : ℕ) (ns : List ℕ) → lo ≤ mid → Rising mid hi ns → Rising lo hi ns
Rising-lower lo mid hi [] l h = omega arith
Rising-lower lo mid hi (n ∷ ns) l h = (omega (arith, h.0), h.1)

Rising-append :
    (lo hi n : ℕ) (es : List JournalEntry) (e : JournalEntry)
    → e.sequence ≡ n
    → hi < n
    → Rising lo hi (sequences es)
    → Rising lo n (sequences (es ++ e ∷ []))
Rising-append lo hi n [] e s l h = (omega arith, omega arith)
Rising-append lo hi n (x ∷ es) e s l h = (h.0, Rising-append x.sequence hi n es e s l h.1)

Rising-below :
    (lo hi : ℕ) (es : List JournalEntry)
    → Rising lo hi (sequences es)
    → All (λ e. e.sequence ≤ hi) es
Rising-below lo hi [] h = tt
Rising-below lo hi (e ∷ es) h = (Rising-le e.sequence hi _ h.1, Rising-below e.sequence hi es h.1)

pub IsJournal-below :
    (max_entries : ℕ) (j : SessionJournal)
    → IsJournal max_entries j
    → All (λ e. e.sequence ≤ j.last_sequence) j.entries
IsJournal-below max_entries j h = Rising-below 0 j.last_sequence j.entries h.rising

prune_entries-Rising :
    (max_entries max_age now lo hi : ℕ) (es : List JournalEntry)
    → Rising lo hi (sequences es)
    → Rising lo hi (sequences (prune_entries max_entries max_age now es))
unfolding prune_entries
prune_entries-Rising max_entries max_age now lo hi [] h = h
prune_entries-Rising max_entries max_age now lo hi (e ∷ es) h =
    if_cases (λ l. Rising lo hi (sequences l))
      (ltb max_entries (length (e ∷ es)) || aged max_age now e)
      (λ _.
        prune_entries-Rising max_entries max_age now lo hi es
          (Rising-lower lo e.sequence hi (sequences es) (omega (arith, h.0)) h.1))
      (λ _. h)

length-prune_entries-le :
    (max_entries max_age now : ℕ) (es : List JournalEntry)
    → length (prune_entries max_entries max_age now es) ≤ max_entries
unfolding prune_entries
length-prune_entries-le max_entries max_age now [] = omega arith
length-prune_entries-le max_entries max_age now (e ∷ es) =
    ground (arith, length-prune_entries-le max_entries max_age now es)

pub prune-IsJournal :
    (max_entries max_age now : ℕ) (j : SessionJournal)
    → Rising 0 j.last_sequence (sequences j.entries)
    → IsJournal max_entries (prune max_entries max_age now j)
unfolding prune
prune-IsJournal max_entries max_age now j h = record {
  rising = prune_entries-Rising max_entries max_age now 0 j.last_sequence j.entries h;
  short = length-prune_entries-le max_entries max_age now j.entries;
}

pub journal_frame-IsJournal :
    (sequence : ℕ) (message : String) (max_entries max_age now : ℕ) (j : SessionJournal)
    → IsJournal max_entries j
    → IsJournal max_entries (journal_frame sequence message max_entries max_age now j)
unfolding journal_frame
journal_frame-IsJournal sequence message max_entries max_age now j h =
    if_cases (IsJournal max_entries) (leb sequence j.last_sequence) (λ _. h)
      λ c.
        prune-IsJournal max_entries max_age now _
          (Rising-append 0 j.last_sequence sequence j.entries _ refl (ground arith) h.rising)

pub empty-IsJournal : (max_entries : ℕ) → IsJournal max_entries empty
unfolding empty
empty-IsJournal max_entries = record { rising = omega arith; short = omega arith }
