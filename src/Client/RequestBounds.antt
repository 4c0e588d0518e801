-- ===== src/Client/RequestBounds.antt =====
-- The bounds of a client's connection under the calls on its requests: crates/k10s-ui/src/client/state.rs.
use k10s.Base.{
  ℕ, ◌≡◌, ◌∙◌, refl, sym, ap, String, Bool, true, Option, none, some, List, [], ◌∷◌, arith, any,
  length, count_where, count_where_of_any, leb, is_some, panic, if_cases, if_some_cases, ok, err,
}
use k10s.Base.Maps.{Map, lookup, contains_key, insert, length-remove-le, length-overwrite}
use k10s.Client.Rows.{is_none_or}
use k10s.Client.Link.{
  ClientState, ClientConfig, ClientFrame, cancel_request, ack, PendingEntry, is_ack, saturating_add,
  is_closed,
}
use k10s.Client.Connection.{
  Done, and_then, push_frame, ensure_outbound_slots, take_outbound, pop_front, replace_ack,
  queue_ack,
}
use k10s.Client.Requests.{
  take, take_failure, queue_cancel, mark_cancelled, mark_all, cancel, queue_cancels, expired_ids,
  expire_deadlines, marked,
}
use k10s.Client.Bounds.{
  IsBounded, same_frames, pushed, overload-IsBounded, then-IsBounded, enqueue-IsBounded,
}

module _ {A S : Type 0} where
  length-replace_ack :
      (frame : ClientFrame A S) (xs : List (ClientFrame A S))
      → length (replace_ack frame xs) ≡ length xs
  unfolding replace_ack
  length-replace_ack frame [] = refl
  length-replace_ack frame (x ∷ xs) = ground (arith, length-replace_ack frame xs)

  acks-replace_ack :
      (n : ℕ) (xs : List (ClientFrame A S))
      → count_where is_ack (replace_ack (ack n) xs) ≡ count_where is_ack xs
  unfolding replace_ack
  acks-replace_ack n [] = refl
  acks-replace_ack n (x ∷ xs) = ground (arith, acks-replace_ack n xs)

module _ {A : Type 0} where
  -- A mark does not change how many requests are pending.
  length-mark_cancelled :
      (id : String) (m n : Map (PendingEntry A))
      → mark_cancelled id m ≡ some n
      → length n ≡ length m
  unfolding mark_cancelled
  length-mark_cancelled id m =
      if_some_cases
        (λ (o : Option (Map (PendingEntry A))).
          (n : Map (PendingEntry A)) → o ≡ some n → length n ≡ length m)
        (lookup id m)
        (λ entry e n h.
          let k : contains_key id m ≡ true = ap is_some e in
          let j : insert id (record entry { cancelled = true }) m ≡ n = cc in
          ap length (sym j) ∙ length-overwrite id (record entry { cancelled = true }) m k)
        (λ e n h. cc)

  length-mark_all :
      (ids : List String) (m n : Map (PendingEntry A))
      → mark_all ids m ≡ some n
      → length n ≡ length m
  unfolding mark_all
  length-mark_all [] m = λ n h. let j : m ≡ n = cc in ap length (sym j)
  length-mark_all (id ∷ ids) m =
      if_some_cases
        (λ (o : Option (Map (PendingEntry A))).
          (n : Map (PendingEntry A)) → o ≡ some n → length n ≡ length m)
        (mark_cancelled id m)
        (λ k e n h. length-mark_all ids k n h ∙ length-mark_cancelled id m k e) (λ e n h. cc)

module _ {A R B S W G D : Type 0} {conf : ClientConfig} where
  pub queue_ack-IsBounded :
      (n : ℕ) (s : ClientState A R B S W G D)
      → IsBounded conf s.link
      → IsBounded conf (queue_ack n s).0.link
  unfolding queue_ack
  queue_ack-IsBounded n s h =
      if_cases (λ (r : Done (ClientState A R B S W G D) (Unit {0})). IsBounded conf r.0.link)
        (any is_ack s.link.outbound)
        (λ _. record {
          same = h.same;
          frames = rw (length-replace_ack (ack n) s.link.outbound) h.frames;
          acks = rw (acks-replace_ack n s.link.outbound) h.acks;
          retained = h.retained;
          sized = h.sized;
          sized_too = h.sized_too;
        })
        (λ c. enqueue-IsBounded (ack n) s h (λ _. count_where_of_any is_ack s.link.outbound c))

  pub take-IsBounded :
      (id : String) (s : ClientState A R B S W G D)
      → IsBounded conf s.link
      → IsBounded conf (take id s).0.link
  unfolding take
  take-IsBounded id s h =
      same_frames s.link _ h refl refl
        (omega (arith, h.retained, length-remove-le id s.link.completed))

  pub take_failure-IsBounded :
      (id : String) (s : ClientState A R B S W G D)
      → IsBounded conf s.link
      → IsBounded conf (take_failure id s).0.link
  unfolding take_failure
  take_failure-IsBounded id s h =
      same_frames s.link _ h refl refl
        (omega (arith, h.retained, length-remove-le id s.link.completed_failures))

  pub pop_front-IsBounded :
      (xs : List (ClientFrame A S)) (s : ClientState A R B S W G D)
      → s.link.outbound ≡ xs
      → IsBounded conf s.link
      → IsBounded conf (pop_front xs s).0.link
  pop_front-IsBounded [] s e h = h
  pop_front-IsBounded (x ∷ xs) s e h = record {
    same = h.same;
    frames = let f = h.frames in omega (arith, f, ap length e);
    acks = let f = h.acks in ground (arith, f, ap (count_where is_ack) e);
    retained = h.retained;
    sized = h.sized;
    sized_too = h.sized_too;
  }

  pub take_outbound-IsBounded :
      (s : ClientState A R B S W G D)
      → IsBounded conf s.link
      → IsBounded conf (take_outbound s).0.link
  unfolding take_outbound
  take_outbound-IsBounded s h =
      if_cases
        (λ (r : ClientState A R B S W G D × Option (ClientFrame A S)). IsBounded conf r.0.link)
        (is_closed s.link.phase) (λ _. h) (λ _. pop_front-IsBounded s.link.outbound s refl h)

  pub marked-IsBounded :
      {X : Type 0} (o : Option (Map (PendingEntry A))) (x : X) (s : ClientState A R B S W G D)
      → ((n : Map (PendingEntry A)) → o ≡ some n → length n ≡ length s.link.pending)
      → IsBounded conf s.link
      → IsBounded conf (marked o x s).0.link
  marked-IsBounded none x s g h = h
  marked-IsBounded (some n) x s g h =
      same_frames s.link _ h refl refl (omega (arith, h.retained, g n refl))

  pub cancel-IsBounded :
      (id : String) (s : ClientState A R B S W G D)
      → IsBounded conf s.link
      → IsBounded conf (cancel id s).0.link
  unfolding cancel queue_cancel
  cancel-IsBounded id s h =
      if_cases (λ (r : Done (ClientState A R B S W G D) Bool). IsBounded conf r.0.link)
        (is_none_or (lookup id s.link.pending) (λ entry. entry.cancelled))
        (λ _.
          same_frames s.link _ h refl refl
            (omega (arith, h.retained, length-remove-le id s.link.completed_failures)))
        (λ _. then-IsBounded (cancel_request id) s _ h (λ l.
          let t : ClientState A R B S W G D = push_frame (cancel_request id) s in
          marked-IsBounded (mark_cancelled id s.link.pending) true t
            (length-mark_cancelled id s.link.pending)
            (pushed s.link t.link _ h refl refl h.retained l (λ e. cc))))

  pub queue_cancels-IsBounded :
      (ids : List String) (s : ClientState A R B S W G D)
      → IsBounded conf s.link
      → IsBounded conf (queue_cancels ids s).0.link
  unfolding queue_cancels queue_cancel
  queue_cancels-IsBounded [] s h = h
  queue_cancels-IsBounded (id ∷ ids) s h = then-IsBounded (cancel_request id) s _ h (λ l.
      let t : ClientState A R B S W G D = push_frame (cancel_request id) s in
      queue_cancels-IsBounded ids t (pushed s.link t.link _ h refl refl h.retained l (λ e. cc)))

  -- What follows a result keeps the bounds where the result has them.
  pub and_then-IsBounded :
      {X Y : Type 0} (r : Done (ClientState A R B S W G D) X)
      (next : ClientState A R B S W G D → X → Done (ClientState A R B S W G D) Y)
      → IsBounded conf r.0.link
      → ((t : ClientState A R B S W G D) (x : X)
          → IsBounded conf t.link
          → IsBounded conf (next t x).0.link)
      → IsBounded conf (and_then r next).0.link
  and_then-IsBounded (s, ok x) next h g = g s x h
  and_then-IsBounded (s, err e) next h g = h
  and_then-IsBounded (s, panic) next h g = h

  pub expire_deadlines-IsBounded :
      (now : ℕ) (s : ClientState A R B S W G D)
      → IsBounded conf s.link
      → IsBounded conf (expire_deadlines now s).0.link
  unfolding expire_deadlines ensure_outbound_slots
  expire_deadlines-IsBounded now s h =
      let ids = expired_ids now s.link.pending in
      and_then-IsBounded (ensure_outbound_slots (length ids) s) _
        (if_cases (λ (r : Done (ClientState A R B S W G D) (Unit {0})). IsBounded conf r.0.link)
          (leb (saturating_add (length s.link.outbound) (length ids))
            s.link.config.outbound_capacity)
          (λ _. h) (λ _. overload-IsBounded (Unit {0}) s h))
        (λ t u k.
          and_then-IsBounded (queue_cancels ids t) _ (queue_cancels-IsBounded ids t k) (λ v w b.
            marked-IsBounded (mark_all ids v.link.pending) ids v
              (length-mark_all ids v.link.pending) b))
