-- ===== src/Client/Forwards.antt =====
-- The port-forward sessions that a client retains: `apply_session`, `apply_session_event` and
-- `apply_port_forward_list` of crates/k10s-ui/src/client/state.rs. What a session says beside its ID
-- and its revision is of any type `D`. `Forwards` holds the three fields of the state.
use k10s.Base.{
  ℕ, String, Bool, true, false, ◌||◌, List, [], ◌∷◌, any, max, leb, ltb, if◌then◌else◌, if_some,
  string_eq,
}
use k10s.Base.Maps.{Map, lookup, insert}

pub record PortForwardSession (D : Type 0) : Type 0 where
  pub id : String
  pub revision : ℕ
  pub detail : D

pub record PortForwardSessionEvent (D : Type 0) : Type 0 where
  pub revision : ℕ
  pub session : PortForwardSession D

pub record PortForwardListResponse (D : Type 0) : Type 0 where
  pub revision : ℕ
  pub sessions : List (PortForwardSession D)

pub record Forwards (D : Type 0) : Type 0 where
  pub port_forward_sessions : Map (PortForwardSession D)
  pub port_forward_list_revision : ℕ
  pub port_forward_feed_revision : ℕ

module _ {D : Type 0} where
  -- What `invalidate_server_state` leaves of the sessions.
  unfoldable pub no_forwards : Forwards D
  no_forwards = record {
    port_forward_sessions = [];
    port_forward_list_revision = 0;
    port_forward_feed_revision = 0;
  }

  unfoldable pub apply_session : PortForwardSession D → Forwards D → Forwards D
  apply_session session s =
      let is_newer =
        if_some (lookup session.id s.port_forward_sessions)
          (λ current. ltb current.revision session.revision)
          (ltb s.port_forward_list_revision session.revision) in
      record s {
        port_forward_sessions =
            if is_newer
            then insert session.id session s.port_forward_sessions
            else s.port_forward_sessions;
        port_forward_feed_revision = max s.port_forward_feed_revision session.revision;
      }

  unfoldable pub apply_session_event : PortForwardSessionEvent D → Forwards D → Forwards D
  apply_session_event event s =
      if leb event.revision s.port_forward_feed_revision
      then s
      else let session = event.session in
        let snapshot_is_newer =
          if_some (lookup session.id s.port_forward_sessions)
            (λ current. ltb current.revision session.revision) true in
        record s {
          port_forward_sessions =
              if snapshot_is_newer
              then insert session.id session s.port_forward_sessions
              else s.port_forward_sessions;
          port_forward_feed_revision = event.revision;
        }

  -- `listed_ids.contains`.
  unfoldable pub is_listed : String → List (PortForwardSession D) → Bool
  is_listed id sessions = any (λ session. string_eq.beq session.id id) sessions

  -- The `retain` of the list.
  unfoldable pub retain_sessions :
      PortForwardListResponse D → Map (PortForwardSession D) → Map (PortForwardSession D)
  unfolding is_listed
  retain_sessions response [] = []
  retain_sessions response ((id, session) ∷ m) =
      let rest = retain_sessions response m in
      if is_listed id response.sessions || ltb response.revision session.revision
      then (id, session) ∷ rest
      else rest

  -- The loop over the listed sessions.
  unfoldable pub replace_sessions :
      List (PortForwardSession D) → Map (PortForwardSession D) → Map (PortForwardSession D)
  replace_sessions [] m = m
  replace_sessions (session ∷ sessions) m =
      let should_replace =
        if_some (lookup session.id m) (λ current. leb current.revision session.revision) true in
      replace_sessions sessions (if should_replace then insert session.id session m else m)

  unfoldable pub apply_port_forward_list :
      PortForwardListResponse D → Forwards D → Forwards D × Bool
  unfolding retain_sessions replace_sessions
  apply_port_forward_list response s =
      if ltb response.revision s.port_forward_feed_revision then (s, false) else (
        record {
          port_forward_sessions =
              replace_sessions response.sessions (retain_sessions response s.port_forward_sessions);
          port_forward_list_revision = response.revision;
          port_forward_feed_revision = response.revision;
        },
        true,
      )
