-- ===== src/Endpoints/AdmissionGate/Tests.antt =====
-- The admission gate on concrete calls, and its theorems at concrete inputs.
use qiyan_bot.Core.{ok}
use qiyan_bot.Endpoints.AdmissionGate.{
  Gate, Lease, automatic, draining, disconnected, acquires, releases, begins_drain, reopens, new,
  acquire, release, validate, settle, discard_live_work, begin_drain, run, step,
}
use qiyan_bot.Endpoints.AdmissionGate.Invariant.{Reach, start, next, IsValid, Reach-IsValid}
use qiyan_bot.Endpoints.AdmissionGate.Leases.{validate-run-discard}
use qiyan_bot.Endpoints.AdmissionGate.Handles.{settle-run-settle}
use qiyan_bot.Prelude.{
  ◌≡◌, refl, ◌≢◌, true, false, [], ◌∷◌, arith, eq_iff, String, get, put, delete,
}

abbrev lease_a : Lease
lease_a = record {
  endpoint_id = "local";
  lifecycle_generation = 1;
  endpoint_generation = 7;
  lease_id = "a";
}

abbrev working : Gate
working = record {
  endpoint_id = "local";
  state = automatic;
  lifecycle_generation = 1;
  live = lease_a ∷ [];
  drain_promise = false;
  drain_resolve = false;
  handles = [];
}

acquire_run : acquire "a" 7 (new "local") ≡ (ok lease_a, working)
unfolding acquire new get put delete
acquire_run = refl

abbrev waiting : Gate
waiting = record working { state = draining; drain_promise = true; drain_resolve = true }

begin_drain_run : begin_drain false working ≡ (ok tt, waiting)
unfolding begin_drain get put delete
begin_drain_run = refl

abbrev drained : Gate
drained = record waiting { live = []; drain_resolve = false; handles = 1 ∷ [] }

release_run : release lease_a waiting ≡ drained
unfolding release get put delete
release_run = refl

abbrev reopened : Gate
reopened = record drained { state = automatic; lifecycle_generation = 2; drain_promise = false }

drain_story :
    run (new "local") (acquires "a" 7 ∷ begins_drain false ∷ releases lease_a ∷ reopens 1 ∷ [])
    ≡ reopened
unfolding run step new get put delete
drain_story = refl

working-Reach : Reach "local" (step (new "local") (acquires "a" 7))
working-Reach = next (acquires "a" 7) start tt

Reach-IsValid_example : IsValid (step (new "local") (acquires "a" 7))
Reach-IsValid_example = Reach-IsValid working-Reach

working-IsValid : IsValid working
unfolding step new get put delete
working-IsValid = Reach-IsValid working-Reach

waiting-IsValid : IsValid waiting
unfolding step new get put delete
waiting-IsValid = Reach-IsValid (next (begins_drain false) working-Reach tt)

b_not_a : ◌≢◌ {A = String} "b" "a"
b_not_a = ground (arith, eq_iff "b" "a")

validate-run-discard_example :
    validate lease_a 7 (run (discard_live_work working).1 (acquires "b" 7 ∷ [])) ≡ false
validate-run-discard_example =
    validate-run-discard lease_a 7 working (acquires "b" 7 ∷ []) (b_not_a, tt)

settle-run-settle_example :
    settle disconnected 1 (run (settle automatic 1 drained) (begins_drain true ∷ []))
    ≡ run (settle automatic 1 drained) (begins_drain true ∷ [])
settle-run-settle_example =
    settle-run-settle automatic disconnected 1 drained (begins_drain true ∷ []) refl refl
