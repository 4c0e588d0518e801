-- ===== src/Client/ForwardHistory.antt =====
-- Histories of the port-forward sessions of crates/k10s-ui/src/client/state.rs: responses of one
-- session, events of the feed and lists, in any order.
use k10s.Base.{
  ℕ, ◌≤◌, ◌≡◌, refl, subst, ◌∙◌, inl, inr, String, Bool, true, ◌||◌, Option, none, some, List, [],
  ◌∷◌, arith, leb, ltb, if◌then◌else◌, if_some, if_cases, Bool-cases, string_eq,
}
use k10s.Base.Maps.{Map, lookup, insert, IsMap, insert-IsMap}
use k10s.Client.Forwards.{
  PortForwardSession, PortForwardSessionEvent, PortForwardListResponse, Forwards, no_forwards,
  apply_session, apply_session_event, is_listed, retain_sessions, replace_sessions,
  apply_port_forward_list,
}
use k10s.Client.ForwardOrder.{
  NotOlder, not_older_self, kept, reconciled, kept_NotOlder, insert_NotOlder,
  lookup-retain_sessions, replace_one, lookup-replace_one, unlisted, lookup-retain_none,
}

pub data ForwardCall (D : Type 0) : Type 0 where
  responds : PortForwardSession D → ForwardCall D
  hears : PortForwardSessionEvent D → ForwardCall D
  relists : PortForwardListResponse D → ForwardCall D
  -- The transport is lost, or the client connects again.
  invalidates : ForwardCall D

module _ {D : Type 0} where
  unfoldable pub step : Forwards D → ForwardCall D → Forwards D
  unfolding no_forwards
  step s (responds session) = apply_session session s
  step s (hears event) = apply_session_event event s
  step s (relists response) = (apply_port_forward_list response s).0
  step s invalidates = no_forwards

  -- The marks are in order, and each session has one entry.
  pub record IsOrdered (s : Forwards D) : Type 0 where
    pub marks : s.port_forward_list_revision ≤ s.port_forward_feed_revision
    pub is_map : IsMap s.port_forward_sessions

  -- No mark falls, and no session that is retained is older than before.
  pub record IsLater (s t : Forwards D) : Type 0 where
    pub list : s.port_forward_list_revision ≤ t.port_forward_list_revision
    pub feed : s.port_forward_feed_revision ≤ t.port_forward_feed_revision
    pub sessions :
        (id : String)
        → NotOlder (lookup id s.port_forward_sessions) (lookup id t.port_forward_sessions)

  abbrev Grows : Option (PortForwardSession D) → Option (PortForwardSession D) → Type 0
  Grows none b = Unit
  Grows (some x) b = (y : PortForwardSession D) × (b ≡ some y) × (x.revision ≤ y.revision)

  Grows_trans : (a b c : Option (PortForwardSession D)) → Grows a b → Grows b c → Grows a c
  Grows_trans none b c h k = tt
  Grows_trans (some x) b c (y, e, l) k =
      let (z, f, m) = subst (λ o. Grows o c) e k in (z, f, omega arith)

  Grows-NotOlder : (a b : Option (PortForwardSession D)) → Grows a b → NotOlder a b
  Grows-NotOlder none b h = tt
  Grows-NotOlder (some x) b (y, e, l) = rw e l

  reconciled-Grows :
      (session : PortForwardSession D) (a : Option (PortForwardSession D))
      → Grows a (reconciled 0 (some session) a)
  reconciled-Grows session none = tt
  reconciled-Grows session (some x) =
      if_cases (Grows (some x)) (leb x.revision session.revision)
        (λ c. (session, refl, ground arith)) (λ _. (x, refl, omega arith))

  Grows_self : (a : Option (PortForwardSession D)) → Grows a a
  Grows_self none = tt
  Grows_self (some x) = (x, refl, omega arith)

  replace_one-Grows :
      (session : PortForwardSession D) (j : String) (m : Map (PortForwardSession D))
      → Grows (lookup j m) (lookup j (replace_one session m))
  replace_one-Grows session j m = rw (lookup-replace_one session j m 0) (
      if_cases (Grows (lookup j m)) (string_eq.beq session.id j)
        (λ _. reconciled-Grows session (lookup j m)) (λ _. Grows_self (lookup j m)))

  replace_sessions-Grows :
      (sessions : List (PortForwardSession D)) (j : String) (m : Map (PortForwardSession D))
      → Grows (lookup j m) (lookup j (replace_sessions sessions m))
  unfolding replace_sessions replace_one
  replace_sessions-Grows [] j m = Grows_self (lookup j m)
  replace_sessions-Grows (x ∷ xs) j m =
      Grows_trans (lookup j m) (lookup j (replace_one x m)) _ (replace_one-Grows x j m)
        (replace_sessions-Grows xs j (replace_one x m))

  replace_sessions-IsMap :
      (sessions : List (PortForwardSession D)) (m : Map (PortForwardSession D))
      → IsMap m
      → IsMap (replace_sessions sessions m)
  unfolding replace_sessions replace_one
  replace_sessions-IsMap [] m h = h
  replace_sessions-IsMap (x ∷ xs) m h = replace_sessions-IsMap xs (replace_one x m) (
      if_cases IsMap (if_some (lookup x.id m) (λ current. leb current.revision x.revision) true)
        (λ _. insert-IsMap x.id x m h) (λ _. h))

  retain_sessions-IsMap :
      (response : PortForwardListResponse D) (m : Map (PortForwardSession D))
      → IsMap m
      → IsMap (retain_sessions response m)
  unfolding retain_sessions
  retain_sessions-IsMap response [] h = tt
  retain_sessions-IsMap response ((id, x) ∷ m) h =
      if_cases IsMap (is_listed id response.sessions || ltb response.revision x.revision)
        (λ _. (lookup-retain_none response id m h.0, retain_sessions-IsMap response m h.1))
        (λ _. retain_sessions-IsMap response m h.1)

  kept_listed : (revision : ℕ) (a : Option (PortForwardSession D)) → kept true revision a ≡ a
  kept_listed revision none = refl
  kept_listed revision (some x) = refl

  list_NotOlder :
      (response : PortForwardListResponse D) (j : String) (m : Map (PortForwardSession D))
      → IsMap m
      → NotOlder
          (lookup j m)
          (lookup j (replace_sessions response.sessions (retain_sessions response m)))
  list_NotOlder response j m h =
      let left = lookup-retain_sessions response j m h in
      elim (Bool-cases (is_listed j response.sessions)) [
        | inl c ↦
            let whole : lookup j (retain_sessions response m) ≡ lookup j m =
              left ∙ rw c (kept_listed response.revision (lookup j m)) in
            Grows-NotOlder _ _ (
              subst
                (λ o.
                  Grows o
                    (lookup j (replace_sessions response.sessions (retain_sessions response m))))
                whole (replace_sessions-Grows response.sessions j (retain_sessions response m)))
        | inr c ↦
            rw (unlisted j response.sessions (retain_sessions response m) c, left)
              (kept_NotOlder (is_listed j response.sessions) response.revision (lookup j m))
      ]

  -- A session that is written where the test allows it.
  written_NotOlder :
      (session : PortForwardSession D) (m : Map (PortForwardSession D)) (otherwise : Bool)
      (j : String)
      → NotOlder (lookup j m) (
          lookup j (
            if if_some
              (lookup session.id m)
              (λ current. ltb current.revision session.revision)
              otherwise
            then insert session.id session m
            else m))
  written_NotOlder session m otherwise j =
      if_cases (λ (n : Map (PortForwardSession D)). NotOlder (lookup j m) (lookup j n))
        (if_some (lookup session.id m) (λ current. ltb current.revision session.revision) otherwise)
        (λ c. insert_NotOlder session j m (λ x e. ground arith)) (λ _. not_older_self (lookup j m))

  written-IsMap :
      (session : PortForwardSession D) (m : Map (PortForwardSession D)) (b : Bool)
      → IsMap m
      → IsMap (if b then insert session.id session m else m)
  written-IsMap session m b h = if_cases IsMap b (λ _. insert-IsMap session.id session m h) (λ _. h)

  IsLater-self : (s : Forwards D) → IsLater s s
  IsLater-self s = record {
    list = omega arith;
    feed = omega arith;
    sessions = λ id. not_older_self (lookup id s.port_forward_sessions);
  }

  -- A new beginning, in which nothing is known of the server's sessions.
  abbrev pub IsForgotten : Forwards D → Type 0
  IsForgotten t =
      (t.port_forward_list_revision ≡ 0)
      × (t.port_forward_feed_revision ≡ 0)
      × ((id : String) → lookup id t.port_forward_sessions ≡ none)

  -- What a call does: an invalidation forgets all, and any other leaves a later state.
  abbrev pub Follows : ForwardCall D → Forwards D → Forwards D → Type 0
  Follows invalidates s t = IsForgotten t
  Follows (responds session) s t = IsLater s t
  Follows (hears event) s t = IsLater s t
  Follows (relists response) s t = IsLater s t

  abbrev Stepped : Forwards D → Forwards D → Type 0
  Stepped s t = IsLater s t × IsOrdered t

  step-Follows :
      (s : Forwards D) (c : ForwardCall D)
      → IsOrdered s
      → Follows c s (step s c) × IsOrdered (step s c)
  unfolding step no_forwards apply_session apply_session_event apply_port_forward_list
  step-Follows s (responds session) h = (
    record {
      list = omega arith;
      feed = ground arith;
      sessions = written_NotOlder session s.port_forward_sessions _;
    },
    record {
      marks = ground (arith, h.marks);
      is_map = written-IsMap session s.port_forward_sessions _ h.is_map;
    },
  )
  step-Follows s (hears event) h =
      if_cases (Stepped s) (leb event.revision s.port_forward_feed_revision)
        (λ _. (IsLater-self s, h))
        (λ c. (
          record {
            list = omega arith;
            feed = ground arith;
            sessions = written_NotOlder event.session s.port_forward_sessions true;
          },
          record {
            marks = ground (arith, h.marks);
            is_map = written-IsMap event.session s.port_forward_sessions _ h.is_map;
          },
        ))
  step-Follows s (relists response) h =
      if_cases (λ (r : Forwards D × Bool). Stepped s r.0)
        (ltb response.revision s.port_forward_feed_revision) (λ _. (IsLater-self s, h))
        (λ c. (
          record {
            list = ground (arith, h.marks);
            feed = ground arith;
            sessions = λ j. list_NotOlder response j s.port_forward_sessions h.is_map;
          },
          record {
            marks = omega arith;
            is_map =
                replace_sessions-IsMap response.sessions _
                  (retain_sessions-IsMap response s.port_forward_sessions h.is_map);
          },
        ))
  step-Follows s invalidates h =
      ((refl, refl, λ id. refl), record { marks = omega arith; is_map = tt })

  -- Each call leaves the marks in order, and what it says of the state before.
  abbrev pub Rises : Forwards D → List (ForwardCall D) → Type 0
  Rises s [] = IsOrdered s
  Rises s (c ∷ cs) = IsOrdered s × Follows c s (step s c) × Rises (step s c) cs

  -- Over any history of responses, events, lists and invalidations, whatever their order and their
  -- revisions: at every step the mark of the lists is not above that of the feed, and, but for an
  -- invalidation, which forgets all sessions and both marks, neither mark falls, and no session that
  -- stays retained is replaced by an older one.
  pub history-Rises : (s : Forwards D) (cs : List (ForwardCall D)) → IsOrdered s → Rises s cs
  history-Rises s [] h = h
  history-Rises s (c ∷ cs) h =
      let one = step-Follows s c h in (h, one.0, history-Rises (step s c) cs one.1)
