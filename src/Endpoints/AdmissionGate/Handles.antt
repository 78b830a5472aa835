-- ===== src/Endpoints/AdmissionGate/Handles.antt =====
-- src/endpoints/admission-gate.ts: the handle of a drain, and when a drain is done.
use qiyan_bot.Core.{ok}
use qiyan_bot.Endpoints.AdmissionGate.{
  Gate, Lease, DesiredState, draining, disconnected, Call, acquires, releases, discards,
  requests_automatic, begins_drain, reopens, disconnects, acquire, release, validate,
  resolve_drain_if_ready, settle, discard_live_work, discard_if, begin_drain, request_automatic,
  step, run,
}
use qiyan_bot.Endpoints.AdmissionGate.Invariant.{IsValid, given, begin_drain-IsValid}
use qiyan_bot.Prelude.{ℕ, suc, ◌≤◌, ◌<◌, ◌≡◌, ◌≢◌, true, List, [], ◌∷◌, ◌++◌, arith, delete, eq_iff}

generation-resolve :
    (g : Gate) → (resolve_drain_if_ready g).lifecycle_generation ≡ g.lifecycle_generation
unfolding resolve_drain_if_ready
generation-resolve g = ground arith

generation-step-le :
    (g : Gate) (c : Call) → g.lifecycle_generation ≤ (step g c).lifecycle_generation
unfolding step acquire release discard_live_work discard_if begin_drain request_automatic settle
generation-step-le g (acquires uuid n) = ground arith
generation-step-le g (releases l) = ground arith
generation-step-le g discards = ground arith
generation-step-le g requests_automatic = ground arith
generation-step-le g (begins_drain d) = ground arith
generation-step-le g (reopens n) = ground arith
generation-step-le g (disconnects n) = ground arith

generation-run-le :
    (g : Gate) (cs : List Call) → g.lifecycle_generation ≤ (run g cs).lifecycle_generation
unfolding run
generation-run-le g [] = omega arith
generation-run-le g (c ∷ cs) =
    omega (arith, generation-step-le g c, generation-run-le (step g c) cs)

generation-settle :
    (t : DesiredState) (n : ℕ) (g : Gate)
    → g.state ≡ draining
    → g.lifecycle_generation ≡ n
    → (settle t n g).lifecycle_generation ≡ suc n
unfolding settle
generation-settle t n g d e = ground arith

settle_stale : (t : DesiredState) (n : ℕ) (g : Gate) → n < g.lifecycle_generation → settle t n g ≡ g
unfolding settle
settle_stale t n g h = ground arith

-- A handle settles at most one drain: once it was used, by either of its functions, neither does
-- anything to the gate, whatever calls came in between.
pub settle-run-settle :
    (t u : DesiredState) (n : ℕ) (g : Gate) (cs : List Call)
    → g.state ≡ draining
    → g.lifecycle_generation ≡ n
    → settle u n (run (settle t n g) cs) ≡ run (settle t n g) cs
settle-run-settle t u n g cs d e =
    settle_stale u n _
      (omega (arith, generation-settle t n g d e, generation-run-le (settle t n g) cs))

-- The release of the last live lease of a draining gate resolves the drain, with a handle of the
-- current generation.
release_last :
    (g : Gate) (l : Lease)
    → IsValid g
    → g.state ≡ draining
    → g.live ≡ l ∷ []
    → validate l l.endpoint_generation g ≡ true
    → ((release l g).live ≡ []) × ((release l g).handles ≡ g.handles ++ g.lifecycle_generation ∷ [])
unfolding release delete
release_last g l v d e h = ground (arith, eq_iff l.lease_id l.lease_id)

-- A forced drain is done at once in a valid gate that is not disconnected: no lease is live, and a
-- handle of the current generation was handed out.
begin_drain_forced :
    (g : Gate)
    → IsValid g
    → g.state ≢ disconnected
    → ((begin_drain true g).0 ≡ ok tt)
      × ((begin_drain true g).1.state ≡ draining)
      × ((begin_drain true g).1.live ≡ [])
      × (given (begin_drain true g).1.lifecycle_generation (begin_drain true g).1.handles ≡ true)
unfolding begin_drain
begin_drain_forced g v h =
    (ground arith, ground arith, ground arith, ground (arith, begin_drain-IsValid true g v))
