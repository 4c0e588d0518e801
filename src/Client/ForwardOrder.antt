-- ===== src/Client/ForwardOrder.antt =====
-- How the revisions order the port-forward sessions of crates/k10s-ui/src/client/state.rs.
use k10s.Base.{
  ℕ, ◌≤◌, ◌≡◌, ◌∙◌, refl, subst, inl, inr, String, Bool, true, false, ◌||◌, Option, none, some,
  List, [], ◌∷◌, arith, find, leb, ltb, if◌then◌else◌, if_some, is_some, if_cases, Bool-cases,
  string_eq,
}
use text.Mathlib.TextEquality.{eq_iff}
use k10s.Base.Maps.{Map, lookup, insert, IsMap, lookup-insert}
use k10s.Client.Forwards.{
  PortForwardSession, PortForwardListResponse, Forwards, is_listed, retain_sessions,
  replace_sessions, apply_port_forward_list,
}

module _ {D : Type 0} where
  -- What is retained after is no older than what was retained before, if both are.
  abbrev pub NotOlder : Option (PortForwardSession D) → Option (PortForwardSession D) → Type 0
  NotOlder none b = Unit
  NotOlder (some x) none = Unit
  NotOlder (some x) (some y) = x.revision ≤ y.revision

  pub not_older_self : (a : Option (PortForwardSession D)) → NotOlder a a
  not_older_self none = tt
  not_older_self (some x) = omega arith

  -- A listed session beside the one that is retained, by the revision of the list.
  abbrev pub reconciled :
      ℕ
      → Option (PortForwardSession D)
      → Option (PortForwardSession D)
      → Option (PortForwardSession D)
  reconciled revision none none = none
  reconciled revision none (some current) =
      if ltb revision current.revision then some current else none
  reconciled revision (some x) none = some x
  reconciled revision (some x) (some current) =
      if leb current.revision x.revision then some x else some current

  abbrev pub listed_session : String → List (PortForwardSession D) → Option (PortForwardSession D)
  listed_session id = find (λ session. string_eq.beq session.id id)

  -- Each session is listed once.
  abbrev pub IsDistinct : List (PortForwardSession D) → Type 0
  IsDistinct [] = Unit
  IsDistinct (x ∷ xs) = (is_listed x.id xs ≡ false) × IsDistinct xs

  pub lookup-retain_none :
      (response : PortForwardListResponse D) (j : String) (m : Map (PortForwardSession D))
      → lookup j m ≡ none
      → lookup j (retain_sessions response m) ≡ none
  unfolding retain_sessions
  lookup-retain_none response j [] h = refl
  lookup-retain_none response j ((id, x) ∷ m) h = ground (arith, lookup-retain_none response j m)

  -- What the `retain` leaves of the session `j`.
  abbrev pub kept : Bool → ℕ → Option (PortForwardSession D) → Option (PortForwardSession D)
  kept listed revision none = none
  kept listed revision (some x) = if listed || ltb revision x.revision then some x else none

  pub lookup-retain_sessions :
      (response : PortForwardListResponse D) (j : String) (m : Map (PortForwardSession D))
      → IsMap m
      → lookup j (retain_sessions response m)
        ≡ kept (is_listed j response.sessions) response.revision (lookup j m)
  unfolding retain_sessions
  lookup-retain_sessions response j [] h = refl
  lookup-retain_sessions response j ((id, x) ∷ m) h = elim (Bool-cases (string_eq.beq id j)) [
    | inl c ↦
        let same : id ≡ j = (eq_iff id j).0 c in
        let gone : lookup j (retain_sessions response m) ≡ none =
          lookup-retain_none response j m (subst (λ k. lookup k m ≡ none) same h.0) in
        elim (Bool-cases (is_listed j response.sessions || ltb response.revision x.revision)) [
          | inl k ↦ rw (c, same, k) (rw ((eq_iff j j).1 refl) refl)
          | inr k ↦ rw (c, same, k) gone
        ]
    | inr c ↦
        elim (Bool-cases (is_listed id response.sessions || ltb response.revision x.revision)) [
          | inl k ↦ rw (c, k) (rw c (lookup-retain_sessions response j m h.1))
          | inr k ↦ rw (c, k) (lookup-retain_sessions response j m h.1)
        ]
  ]

  retained_NotOlder :
      (b : Bool) (x : PortForwardSession D) → NotOlder (some x) (if b then some x else none)
  retained_NotOlder true x = omega arith
  retained_NotOlder false x = tt

  pub kept_NotOlder :
      (listed : Bool) (revision : ℕ) (a : Option (PortForwardSession D))
      → NotOlder a (kept listed revision a)
  kept_NotOlder listed revision none = tt
  kept_NotOlder listed revision (some x) = retained_NotOlder (listed || ltb revision x.revision) x

  -- A write that comes with a revision at least that of what it replaces.
  pub insert_NotOlder :
      (session : PortForwardSession D) (j : String) (m : Map (PortForwardSession D))
      → ((x : PortForwardSession D) → lookup session.id m ≡ some x → x.revision ≤ session.revision)
      → NotOlder (lookup j m) (lookup j (insert session.id session m))
  insert_NotOlder session j m newer = rw (lookup-insert session.id j session m) (
      if_cases (NotOlder (lookup j m)) (string_eq.beq session.id j)
        (λ c. covered (lookup j m) (λ x e. newer x (rw ((eq_iff session.id j).0 c) e)))
        (λ _. not_older_self (lookup j m)))
    where
      covered :
          (a : Option (PortForwardSession D))
          → ((x : PortForwardSession D) → a ≡ some x → x.revision ≤ session.revision)
          → NotOlder a (some session)
      covered none f = tt
      covered (some x) f = f x refl

  -- The session in the map after the loop step for one listed session.
  unfoldable pub replace_one :
      PortForwardSession D → Map (PortForwardSession D) → Map (PortForwardSession D)
  replace_one session m =
      if if_some (lookup session.id m) (λ current. leb current.revision session.revision) true
      then insert session.id session m
      else m

  pub lookup-replace_one :
      (session : PortForwardSession D) (j : String) (m : Map (PortForwardSession D)) (revision : ℕ)
      → lookup j (replace_one session m) ≡ (
          if string_eq.beq session.id j
          then reconciled revision (some session) (lookup j m)
          else lookup j m)
  unfolding replace_one
  lookup-replace_one session j m revision =
      ground (arith, eq_iff session.id j, lookup-insert session.id j session m)

  pub unlisted :
      (j : String) (sessions : List (PortForwardSession D)) (m : Map (PortForwardSession D))
      → is_listed j sessions ≡ false
      → lookup j (replace_sessions sessions m) ≡ lookup j m
  unfolding replace_sessions is_listed replace_one
  unlisted j [] m h = refl
  unlisted j (x ∷ xs) m h =
      unlisted j xs (replace_one x m) (ground arith) ∙ lookup-replace_one x j m 0 ∙ ground arith

  listed_none :
      (j : String) (sessions : List (PortForwardSession D))
      → is_listed j sessions ≡ false
      → listed_session j sessions ≡ none
  unfolding is_listed
  listed_none j [] h = refl
  listed_none j (x ∷ xs) h = ground (arith, listed_none j xs)

  is_some-listed :
      (j : String) (sessions : List (PortForwardSession D))
      → is_listed j sessions ≡ is_some (listed_session j sessions)
  unfolding is_listed
  is_some-listed j [] = refl
  is_some-listed j (x ∷ xs) = ground (arith, is_some-listed j xs)

  settled :
      (revision : ℕ) (o current : Option (PortForwardSession D))
      → if_some o
          (λ x. reconciled 0 (some x) (kept (is_some o) revision current))
          (kept (is_some o) revision current)
        ≡ reconciled revision o current
  settled revision none none = refl
  settled revision none (some c) = refl
  settled revision (some x) none = refl
  settled revision (some x) (some c) = refl

  -- The loop, on sessions that are listed once each.
  lookup-replace_sessions :
      (j : String) (sessions : List (PortForwardSession D)) (m : Map (PortForwardSession D))
      → IsDistinct sessions
      → lookup j (replace_sessions sessions m)
        ≡ if_some (listed_session j sessions) (λ x. reconciled 0 (some x) (lookup j m)) (lookup j m)
  unfolding replace_sessions replace_one
  lookup-replace_sessions j [] m h = refl
  lookup-replace_sessions j (x ∷ xs) m h =
      let rest = lookup-replace_sessions j xs (replace_one x m) h.1 in
      let one = lookup-replace_one x j m 0 in
      elim (Bool-cases (string_eq.beq x.id j)) [
        | inl c ↦
            let same : x.id ≡ j = (eq_iff x.id j).0 c in
            let others : listed_session j xs ≡ none =
              listed_none j xs (subst (λ k. is_listed k xs ≡ false) same h.0) in
            rest ∙ rw (others, c) (rw c at one)
        | inr c ↦ let same = rw c at one in rest ∙ rw (c, same) refl
      ]

  -- After a list that is not older than the feed, of distinct sessions: a listed session is retained as
  -- listed, but for one that the client has at a higher revision; of the others, only those remain that
  -- are newer than the list; and the list is the mark for what comes later.
  pub list-Reconciles :
      (response : PortForwardListResponse D) (s : Forwards D)
      → IsMap s.port_forward_sessions
      → IsDistinct response.sessions
      → s.port_forward_feed_revision ≤ response.revision
      → let t = apply_port_forward_list response s in
        (t.1 ≡ true)
        × (t.0.port_forward_list_revision ≡ response.revision)
        × (t.0.port_forward_feed_revision ≡ response.revision)
        × ((j : String)
            → lookup j t.0.port_forward_sessions
              ≡ reconciled response.revision
                  (listed_session j response.sessions)
                  (lookup j s.port_forward_sessions))
  unfolding apply_port_forward_list
  list-Reconciles response s map distinct le =
      let fresh : ltb response.revision s.port_forward_feed_revision ≡ false = ground arith in
      rw fresh (
        refl,
        refl,
        refl,
        λ j.
            rw
              (
                lookup-replace_sessions j response.sessions _ distinct,
                lookup-retain_sessions response j s.port_forward_sessions map,
                is_some-listed j response.sessions,
              )
              (settled response.revision (listed_session j response.sessions)
                (lookup j s.port_forward_sessions)),
      )
