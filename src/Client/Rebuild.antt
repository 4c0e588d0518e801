-- ===== src/Client/Rebuild.antt =====
-- What a client asks for again after a welcome, a gap or a resync: `rebuild_server_state`,
-- `queue_unverified_target_refreshes` and `begin_internal_port_forward_reconstruction` of
-- crates/k10s-ui/src/client/state.rs. A hash map is an association list in the order of arrival.
use k10s.Base.{
  ℕ, String, Bool, true, false, not, ◌&&◌, ◌||◌, Option, none, some, List, [], ◌∷◌, ◌++◌, any,
  length, ltb, ◌==◌, retain, if◌then◌else◌, if_some, string_eq, ok, err,
}
use k10s.Base.Maps.{Map, lookup, contains_key, insert}
use k10s.Watch.Rows.{same_ref}
use k10s.Client.Rows.{ResourceWatchSpec, ResourceIdentity}
use k10s.Client.Errors.{request_retention_limit}
use k10s.Client.Operations.{
  Mutations, OperationView, TargetRefresh, is_unknown, nonterminal_operation_ids,
}
use k10s.Client.Link.{ClientState, closed, subscribe, saturating_add}
use k10s.Client.Connection.{
  Done, and_then, with_link, with_phase, fail_outbound_overload, enqueue_reliable,
  invalidate_server_state,
}
use k10s.Client.Requests.{begin_inner}

-- What the client's own requests are made of: the texts of their numbers, the queries that it begins
-- by itself, the selector of the port-forward stream, the actions whose failures are retained, and the
-- reading of a resource watch's selector.
pub record Actions (A S : Type 0) : Type 0 where
  pub request_id : ℕ → String
  pub retains : A → Bool
  pub bootstrap : A
  pub operation_status : List String → A
  pub resource_detail : ResourceIdentity → A
  pub port_forward_list : A
  pub port_forward_sessions : S
  pub resource_spec : S → Option ResourceWatchSpec

-- The distinct ones, as in a `HashSet`.
unfoldable pub distinct_targets : List ResourceIdentity → List ResourceIdentity
distinct_targets [] = []
distinct_targets (target ∷ targets) =
    let rest = distinct_targets targets in
    if any (same_ref target) targets then rest else target ∷ rest

-- The targets of the keys that are unverified or whose operation is not terminal.
unfoldable pub guarded_targets :
    {G : Type 0} → List String → Map String → Mutations G → List ResourceIdentity
guarded_targets nonterminal [] s = []
guarded_targets nonterminal ((key, id) ∷ keys) s =
    let rest = guarded_targets nonterminal keys s in
    if contains_key key s.unverified_unknown_keys || any (string_eq.beq id) nonterminal
    then if_some (lookup key s.submitted_targets) (λ target. target ∷ rest) rest
    else rest

-- `entry(target).or_default().push(key)`.
unfoldable pub group_key :
    ResourceIdentity
    → String
    → List (ResourceIdentity × List String)
    → List (ResourceIdentity × List String)
group_key target key [] = (target, key ∷ []) ∷ []
group_key target key ((t, keys) ∷ groups) =
    let rest = group_key target key groups in
    if same_ref t target then (t, keys ++ key ∷ []) ∷ groups else (t, keys) ∷ rest

abbrev pub is_unknown_operation : {G : Type 0} → String → Map (OperationView G) → Bool
is_unknown_operation id operations =
    if_some (lookup id operations) (λ view. is_unknown view.status) false

unfoldable pub unverified_targets :
    {G : Type 0}
    → Map String
    → List (ResourceIdentity × List String)
    → Mutations G
    → List (ResourceIdentity × List String)
unfolding group_key
unverified_targets [] groups s = groups
unverified_targets ((key, id) ∷ keys) groups s =
    unverified_targets keys
      (if contains_key key s.unverified_unknown_keys && is_unknown_operation id s.operations
        then if_some (lookup key s.submitted_targets) (λ target. group_key target key groups) groups
        else groups)
      s

-- Whether a read of the target in flight is for the key.
unfoldable pub is_covered : ResourceIdentity → Map TargetRefresh → String → Bool
is_covered target refreshes key =
    any
      (λ (r : String × TargetRefresh).
        same_ref r.1.target target && any (string_eq.beq key) r.1.keys)
      refreshes

abbrev pub uncovered : ResourceIdentity → Map TargetRefresh → List String → List String
uncovered target refreshes keys = retain (λ key. not (is_covered target refreshes key)) keys

abbrev pub is_empty : {X : Type 0} → List X → Bool
is_empty [] = true
is_empty (x ∷ xs) = false

abbrev pub usize_from : Bool → ℕ
usize_from true = 1
usize_from false = 0

abbrev pub request_required : {G : Type 0} → List String → Mutations G → ℕ
request_required nonterminal m =
    saturating_add (saturating_add 1 (usize_from (not (is_empty nonterminal))))
      (length (distinct_targets (guarded_targets nonterminal m.submitted_keys m)))

-- The spec of a resource watch.
abbrev pub with_spec :
    {A R B S W G D : Type 0}
    → String
    → Option ResourceWatchSpec
    → ClientState A R B S W G D
    → ClientState A R B S W G D
with_spec id spec s = record s {
  views = record s.views {
    resource_specs =
        if_some spec (λ watch. insert id watch s.views.resource_specs) s.views.resource_specs;
  };
}

module _ {A R B S W G D : Type 0} (actions : Actions A S) where
  unfoldable pub begin : A → ClientState A R B S W G D → Done (ClientState A R B S W G D) String
  unfolding begin_inner
  begin query s = begin_inner actions.request_id query none none s

  unfoldable pub refresh_targets :
      List (ResourceIdentity × List String)
      → ClientState A R B S W G D
      → Done (ClientState A R B S W G D) (Unit {0})
  unfolding begin is_covered
  refresh_targets [] s = (s, ok tt)
  refresh_targets ((target, keys) ∷ groups) s =
      let left = uncovered target s.mutations.target_refreshes keys in
      let next = and_then (begin (actions.resource_detail target) s) (λ t id.
        refresh_targets groups (record t {
          mutations = record t.mutations {
            target_refreshes =
                insert id (record { target = target; keys = left }) t.mutations.target_refreshes;
          };
        })) in
      if is_empty left then refresh_targets groups s else next

  unfoldable pub queue_unverified_target_refreshes :
      ClientState A R B S W G D → Done (ClientState A R B S W G D) (Unit {0})
  unfolding refresh_targets unverified_targets
  queue_unverified_target_refreshes s =
      refresh_targets (unverified_targets s.mutations.submitted_keys [] s.mutations) s

  -- The loop over the desired subscriptions.
  unfoldable pub resubscribe :
      Map S → ClientState A R B S W G D → Done (ClientState A R B S W G D) (Unit {0})
  unfolding enqueue_reliable
  resubscribe [] s = (s, ok tt)
  resubscribe ((id, selector) ∷ live) s =
      and_then
        (enqueue_reliable (subscribe id selector) (with_spec id (actions.resource_spec selector) s))
        (λ t u. resubscribe live t)

  unfoldable pub refresh_operations :
      List String → ClientState A R B S W G D → Done (ClientState A R B S W G D) (Unit {0})
  unfolding begin
  refresh_operations nonterminal s =
      if is_empty nonterminal
      then (s, ok tt)
      else and_then (begin (actions.operation_status nonterminal) s) (λ t id.
        (record t { mutations = record t.mutations { operation_refresh = some id } }, ok tt))

  -- The requests of a rebuild, after what was known is forgotten.
  unfoldable pub request_state :
      List String → ClientState A R B S W G D → Done (ClientState A R B S W G D) (Unit {0})
  unfolding begin resubscribe refresh_operations queue_unverified_target_refreshes
  request_state nonterminal s = and_then (begin actions.bootstrap s) (λ t id.
      let u = with_link t (record t.link { rebuilt_bootstrap = some id }) in
      and_then (resubscribe u.views.live_subscriptions u) (λ v x.
        and_then (refresh_operations nonterminal v) (λ w y. queue_unverified_target_refreshes w)))

  unfoldable pub rebuild_server_state :
      ℕ → ClientState A R B S W G D → Done (ClientState A R B S W G D) (Unit {0})
  unfolding request_state nonterminal_operation_ids distinct_targets guarded_targets
      invalidate_server_state fail_outbound_overload
  rebuild_server_state reserved_outbound s =
      let nonterminal = nonterminal_operation_ids s.mutations in
      let required = request_required nonterminal s.mutations in
      let cleared = with_link s (record s.link { outbound = [] }) in
      if s.link.config.request_capacity == 0
      then (with_phase closed s, err (request_retention_limit 0))
      else if ltb s.link.config.outbound_capacity (
          saturating_add (saturating_add required (length s.views.live_subscriptions))
            reserved_outbound)
      then fail_outbound_overload s
      else if ltb s.link.config.request_capacity required
      then (with_phase closed cleared, err (request_retention_limit s.link.config.request_capacity))
      else request_state nonterminal (invalidate_server_state cleared)

  unfoldable pub begin_internal_port_forward_reconstruction :
      ClientState A R B S W G D → Done (ClientState A R B S W G D) String
  unfolding begin
  begin_internal_port_forward_reconstruction s =
      and_then (begin actions.port_forward_list s) (λ t id. (
        with_link t (record t.link {
          port_forward_reconstruction = some id;
          internal_port_forward_reconstruction = some id;
        }),
        ok id,
      ))
