-- ===== src/Endpoints/AdmissionGate/Leases.antt =====
-- src/endpoints/admission-gate.ts: what a lease is good for.
use qiyan_bot.Core.{ok}
use qiyan_bot.Endpoints.AdmissionGate.{
  Gate, Lease, DesiredState, draining, Call, acquires, releases, discards, requests_automatic,
  begins_drain, reopens, disconnects, id_of, acquire, release, validate, resolve_drain_if_ready,
  settle, discard_live_work, discard_if, begin_drain, request_automatic, step, run,
}
use qiyan_bot.Prelude.{
  ℕ, String, str_eq, ◌≡◌, refl, ◌≢◌, Bool, ◌&&◌, if◌then◌else◌, true, false, none, List, [], ◌∷◌,
  arith, ◌==◌, get, delete, get-put, get-delete_all, eq_iff,
}

lease_of : String → ℕ → Gate → Lease
lease_of uuid n g = record {
  endpoint_id = g.endpoint_id;
  lifecycle_generation = g.lifecycle_generation;
  endpoint_generation = n;
  lease_id = uuid;
}

-- A lease that `acquire` returns is good for the endpoint generation that it was taken in, and for
-- no other.
validate-acquire :
    (uuid : String) (n m : ℕ) (g : Gate) {l : Lease}
    → (acquire uuid n g).0 ≡ ok l
    → validate l m (acquire uuid n g).1 ≡ (n == m)
unfolding acquire validate lease_of
validate-acquire uuid n m g {l} h = ground (
  arith,
  eq_iff uuid uuid,
  eq_iff g.endpoint_id g.endpoint_id,
  get-put id_of l.lease_id (lease_of uuid n g) g.live,
)

-- the calls that mint no lease under this identifier
abbrev pub MintsNo : String → List Call → Type 0
MintsNo id [] = Unit
MintsNo id (acquires uuid n ∷ cs) = (uuid ≢ id) × MintsNo id cs
MintsNo id (_ ∷ cs) = MintsNo id cs

live-resolve : (g : Gate) → (resolve_drain_if_ready g).live ≡ g.live
unfolding resolve_drain_if_ready
live-resolve g = ground arith

live-settle : (t : DesiredState) (n : ℕ) (g : Gate) → (settle t n g).live ≡ g.live
unfolding settle
live-settle t n g = ground arith

live-discard_if : (d : Bool) (g : Gate) → (discard_if d g).live ≡ (if d then [] else g.live)
unfolding discard_if
live-discard_if true g = live-resolve _
live-discard_if false g = refl

live-begin_drain : (d : Bool) (g : Gate) → (begin_drain d g).1.live ≡ (if d then [] else g.live)
unfolding begin_drain
live-begin_drain d g = ground (
  arith,
  live-discard_if d g,
  live-resolve
      (record (discard_if d g) { state = draining; drain_promise = true; drain_resolve = true }),
)

live-request_automatic : (g : Gate) → (request_automatic g).1.live ≡ g.live
unfolding request_automatic
live-request_automatic g = ground arith

get-nil : (k : String) → get id_of k [] ≡ none
unfolding get
get-nil k = refl

-- `release` deletes the lease that it is given, if that validates, and no other.
pub get-release :
    (k : String) (l : Lease) (g : Gate)
    → get id_of k (release l g).live ≡ (
        if validate l l.endpoint_generation g && str_eq l.lease_id k
        then none
        else get id_of k g.live)
unfolding release
get-release k l g = ground (
  arith,
  get-delete_all id_of k l.lease_id g.live,
  live-resolve (record g { live = delete id_of l.lease_id (λ _. true) g.live }),
)

miss-release :
    (k : String) (l : Lease) (g : Gate)
    → get id_of k g.live ≡ none
    → get id_of k (release l g).live ≡ none
miss-release k l g h = ground (arith, get-release k l g)

miss-step :
    (k : String) (g : Gate) (c : Call)
    → MintsNo k (c ∷ [])
    → get id_of k g.live ≡ none
    → get id_of k (step g c).live ≡ none
unfolding step acquire lease_of
miss-step k g (acquires uuid n) f h =
    ground (arith, eq_iff uuid k, get-put id_of k (lease_of uuid n g) g.live)
miss-step k g (releases l) f h = miss-release k l g h
miss-step k g discards f h = unfold discard_live_work in rw live-resolve (get-nil k)
miss-step k g requests_automatic f h = rw live-request_automatic h
miss-step k g (begins_drain d) f h = ground (arith, live-begin_drain d g, get-nil k)
miss-step k g (reopens n) f h = rw live-settle h
miss-step k g (disconnects n) f h = rw live-settle h

MintsNo-head : (k : String) (c : Call) (cs : List Call) → MintsNo k (c ∷ cs) → MintsNo k (c ∷ [])
MintsNo-head k (acquires uuid n) cs h = (h.0, tt)
MintsNo-head k _ cs h = tt

MintsNo-tail : (k : String) (c : Call) (cs : List Call) → MintsNo k (c ∷ cs) → MintsNo k cs
MintsNo-tail k (acquires uuid n) cs h = h.1
MintsNo-tail k (releases l) cs h = h
MintsNo-tail k discards cs h = h
MintsNo-tail k requests_automatic cs h = h
MintsNo-tail k (begins_drain d) cs h = h
MintsNo-tail k (reopens n) cs h = h
MintsNo-tail k (disconnects n) cs h = h

miss-run :
    (k : String) (g : Gate) (cs : List Call)
    → MintsNo k cs
    → get id_of k g.live ≡ none
    → get id_of k (run g cs).live ≡ none
unfolding run
miss-run k g [] f h = h
miss-run k g (c ∷ cs) f h =
    miss-run k (step g c) cs (MintsNo-tail k c cs f) (miss-step k g c (MintsNo-head k c cs f) h)

validate_of_miss :
    (l : Lease) (n : ℕ) (g : Gate) → get id_of l.lease_id g.live ≡ none → validate l n g ≡ false
unfolding validate
validate_of_miss l n g h = rw h

-- A lease that `discardLiveWork` abandons never validates again, whatever calls follow, when no
-- later lease is minted under its identifier.
pub validate-run-discard :
    (l : Lease) (n : ℕ) (g : Gate) (cs : List Call)
    → MintsNo l.lease_id cs
    → validate l n (run (discard_live_work g).1 cs) ≡ false
unfolding discard_live_work
validate-run-discard l n g cs f =
    validate_of_miss l n _ (miss-run l.lease_id _ cs f (rw live-resolve (get-nil l.lease_id)))

-- The same holds of a lease that was released while it was good.
validate-run-release :
    (l : Lease) (n : ℕ) (g : Gate) (cs : List Call)
    → validate l l.endpoint_generation g ≡ true
    → MintsNo l.lease_id cs
    → validate l n (run (release l g) cs) ≡ false
validate-run-release l n g cs v f = validate_of_miss l n _ (
    miss-run l.lease_id _ cs f
      (ground (arith, get-release l.lease_id l g, eq_iff l.lease_id l.lease_id)))
