-- ===== src/Resume/Leases.antt =====
-- The writers of a session and their leases: `record_frame`, `is_current_lease` and `release_lease` of
-- crates/k10s-server/src/resume.rs.
use k10s.Base.{
  ℕ, ◌==◌, String, Bool, false, none, some, if◌then◌else◌, if_some, or_else, List, [], ◌∷◌,
}
use k10s.Base.Maps.{lookup, insert}
use k10s.Resume.Journal.{journal_frame}
use k10s.Resume.Registry.{
  ResumeProfile, SessionState, ResumeState, default, ClaimRequest, claim_with_profile,
}

unfoldable pub with_session : String → SessionState → ResumeState → ResumeState
with_session id v s = record s { sessions = insert id v s.sessions }

abbrev default_profile : ResumeProfile
default_profile = record { protocol_minor = 0; capabilities = [] }

-- The first `if` of `record_frame`, for a writer without a lease.
unfoldable pub ensure_session : String → ℕ → ResumeState → ResumeState
ensure_session id now s =
    let v = if_some (lookup id s.sessions) (λ v. v) (default now) in
    with_session id (record v { profile = or_else v.profile (some default_profile) }) s

unfoldable pub recorded : ℕ → String → ℕ → ResumeState → SessionState → SessionState
recorded sequence message now s v = record v {
  last_activity = now;
  journal = journal_frame sequence message s.max_entries s.max_age now v.journal;
}

unfoldable pub record_leased : String → ℕ → ℕ → String → ℕ → ResumeState → ResumeState
record_leased id generation sequence message now s =
    if_some (lookup id s.sessions)
      (λ v.
        if v.lease_generation == generation
        then with_session id (recorded sequence message now s v) s
        else s)
      s

unfoldable pub record_frame : String → ℕ → ℕ → String → ℕ → ResumeState → ResumeState
record_frame id generation sequence message now s =
    record_leased id generation sequence message now
      (if generation == 0 then ensure_session id now s else s)

unfoldable pub is_current_lease : String → ℕ → ResumeState → Bool
is_current_lease id generation s =
    if_some (lookup id s.sessions) (λ v. v.lease_generation == generation) false

unfoldable pub release_lease : String → ℕ → ℕ → ResumeState → ResumeState
release_lease id generation now s =
    if_some (lookup id s.sessions)
      (λ v.
        if v.lease_generation == generation
        then with_session id (record v { takeover_tx = none; last_activity = now }) s
        else s)
      s

pub data LeaseCall : Type 0 where
  claims : ClaimRequest → LeaseCall
  records : String → ℕ → ℕ → String → LeaseCall
  releases : String → ℕ → LeaseCall

-- One call at the time `now`, and a history of calls.
unfoldable pub lease_step : String → ResumeState → ℕ × LeaseCall → ResumeState
lease_step server s (now, claims r) = (claim_with_profile server r now s).0
lease_step server s (now, records id generation sequence message) =
    record_frame id generation sequence message now s
lease_step server s (now, releases id generation) = release_lease id generation now s

unfoldable pub lease_run : String → ResumeState → List (ℕ × LeaseCall) → ResumeState
lease_run server s [] = s
lease_run server s (c ∷ cs) = lease_run server (lease_step server s c) cs
