-- ===== src/Endpoints/AdmissionGate.antt =====
-- src/endpoints/admission-gate.ts: who may start work on an endpoint, and when a drain is done.
-- A drain promise is seen through three fields: whether it exists, whether it still has its
-- resolver, and the handles that promises were resolved with so far. A handle is the lifecycle
-- generation that its two functions captured. `crypto.randomUUID()` is an argument of `acquire`.
pub mod Invariant
pub mod Leases
pub mod Handles
mod Tests
use qiyan_bot.Core.{Result, ok, app_error, endpoint_unavailable}
use qiyan_bot.Prelude.{
  ℕ, suc, ◌+◌, String, str_eq, Bool, true, false, not, ◌&&◌, ◌||◌, Option, none, some, List, [],
  ◌∷◌, ◌++◌, if◌then◌else◌, ◌==◌, length, get, put, delete,
}

pub data DesiredState : Type 0 where
  automatic draining disconnected : DesiredState

pub record Lease : Type 0 where
  pub endpoint_id : String
  pub lifecycle_generation : ℕ
  pub endpoint_generation : ℕ
  pub lease_id : String

pub record Gate : Type 0 where
  pub endpoint_id : String
  pub state : DesiredState
  pub lifecycle_generation : ℕ
  pub live : List Lease
  pub drain_promise : Bool
  pub drain_resolve : Bool
  pub handles : List ℕ

abbrev pub id_of : Lease → String
id_of l = l.lease_id

abbrev pub is_automatic : DesiredState → Bool
is_automatic automatic = true
is_automatic _ = false

abbrev pub is_draining : DesiredState → Bool
is_draining draining = true
is_draining _ = false

abbrev pub is_disconnected : DesiredState → Bool
is_disconnected disconnected = true
is_disconnected _ = false

abbrev pub is_empty : List Lease → Bool
is_empty [] = true
is_empty (l ∷ ls) = false

unfoldable pub new : String → Gate
new endpoint_id = record {
  endpoint_id = endpoint_id;
  state = automatic;
  lifecycle_generation = 1;
  live = [];
  drain_promise = false;
  drain_resolve = false;
  handles = [];
}

unfoldable pub acquire : String → ℕ → Gate → Result Lease × Gate
acquire uuid endpoint_generation g =
    if is_automatic g.state
    then (ok lease, record g { live = put id_of lease g.live })
    else (app_error endpoint_unavailable, g)
  where
    lease : Lease
    lease = record {
      endpoint_id = g.endpoint_id;
      lifecycle_generation = g.lifecycle_generation;
      endpoint_generation = endpoint_generation;
      lease_id = uuid;
    }

abbrev pub is_current : Option Lease → Lease → ℕ → String → Bool
is_current none lease endpoint_generation endpoint_id = false
is_current (some actual) lease endpoint_generation endpoint_id =
    str_eq actual.endpoint_id endpoint_id
    && (actual.lifecycle_generation == lease.lifecycle_generation)
    && (actual.endpoint_generation == endpoint_generation)
    && (actual.endpoint_generation == lease.endpoint_generation)

unfoldable pub validate : Lease → ℕ → Gate → Bool
validate lease endpoint_generation g =
    is_current (get id_of lease.lease_id g.live) lease endpoint_generation g.endpoint_id

unfoldable pub resolve_drain_if_ready : Gate → Gate
resolve_drain_if_ready g =
    if not (is_draining g.state) || not (is_empty g.live) || not g.drain_resolve
    then g
    else record g { drain_resolve = false; handles = g.handles ++ g.lifecycle_generation ∷ [] }

-- `settle`, which both functions of a handle call with the generation that it captured
unfoldable pub settle : DesiredState → ℕ → Gate → Gate
settle target generation g =
    if not (is_draining g.state) || not (g.lifecycle_generation == generation)
    then g
    else record g {
      lifecycle_generation = g.lifecycle_generation + 1;
      state = target;
      drain_promise = false;
      drain_resolve = false;
    }

unfoldable pub release : Lease → Gate → Gate
unfolding validate resolve_drain_if_ready
release lease g =
    if not (validate lease lease.endpoint_generation g)
    then g
    else resolve_drain_if_ready (record g { live = delete id_of lease.lease_id (λ _. true) g.live })

unfoldable pub discard_live_work : Gate → ℕ × Gate
unfolding resolve_drain_if_ready
discard_live_work g = (length g.live, resolve_drain_if_ready (record g { live = [] }))

-- the writes of `beginDrain` before its early return
unfoldable pub discard_if : Bool → Gate → Gate
unfolding resolve_drain_if_ready
discard_if discard_live g =
    if discard_live then resolve_drain_if_ready (record g { live = [] }) else g

unfoldable pub begin_drain : Bool → Gate → Result (Unit {0}) × Gate
unfolding discard_if
begin_drain discard_live g =
    let d = discard_if discard_live g in
    if d.drain_promise
    then (ok tt, d)
    else if is_disconnected d.state
    then (app_error endpoint_unavailable, d)
    else (
      ok tt,
      resolve_drain_if_ready
          (record d { state = draining; drain_promise = true; drain_resolve = true }),
    )

unfoldable pub request_automatic : Gate → Result (Unit {0}) × Gate
request_automatic g =
    if is_automatic g.state
    then (ok tt, g)
    else if is_draining g.state
    then (app_error endpoint_unavailable, g)
    else (ok tt, record g { lifecycle_generation = g.lifecycle_generation + 1; state = automatic })

-- The calls that the gate receives, from its owner and from the holders of its handles.
pub data Call : Type 0 where
  acquires : String → ℕ → Call
  releases : Lease → Call
  discards requests_automatic : Call
  begins_drain : Bool → Call
  reopens disconnects : ℕ → Call

unfoldable pub step : Gate → Call → Gate
unfolding acquire release discard_live_work begin_drain request_automatic settle
step g (acquires uuid endpoint_generation) = (acquire uuid endpoint_generation g).1
step g (releases lease) = release lease g
step g discards = (discard_live_work g).1
step g requests_automatic = (request_automatic g).1
step g (begins_drain discard_live) = (begin_drain discard_live g).1
step g (reopens generation) = settle automatic generation g
step g (disconnects generation) = settle disconnected generation g

unfoldable pub run : Gate → List Call → Gate
run g [] = g
run g (c ∷ cs) = run (step g c) cs
