-- ===== src/Endpoints/AdmissionGate/Invariant.antt =====
-- src/endpoints/admission-gate.ts: what holds of a gate between two calls.
use qiyan_bot.Endpoints.AdmissionGate.{
  Gate, Lease, DesiredState, automatic, draining, disconnected, Call, acquires, releases, discards,
  requests_automatic, begins_drain, reopens, disconnects, id_of, is_draining, is_empty, new,
  acquire, release, resolve_drain_if_ready, settle, discard_live_work, discard_if, begin_drain,
  request_automatic, step,
}
use qiyan_bot.Prelude.{
  ℕ, suc, ◌+◌, ◌≤◌, ◌<◌, String, ◌≡◌, refl, Bool, true, false, not, ◌&&◌, List, [], ◌∷◌, ◌++◌,
  arith, if◌then◌else◌, ◌==◌, any, All, All-append, All-put, All-delete, put, delete,
}

-- A handle of the current drain is out exactly while no lease is live.
abbrev pub bound : Gate → ℕ
bound g =
    if is_draining g.state && is_empty g.live
    then suc g.lifecycle_generation
    else g.lifecycle_generation

-- every number of the list lies below the bound
pub Below : ℕ → List ℕ → Type 0
Below b = All (λ n. n < b)

-- every lease was taken in the given lifecycle generation
pub TakenIn : ℕ → List Lease → Type 0
TakenIn n = All (λ l. l.lifecycle_generation ≡ n)

-- a handle of that generation was handed out
pub given : ℕ → List ℕ → Bool
given n = any (λ m. m == n)

given-snoc : (n : ℕ) (hs : List ℕ) → given n (hs ++ n ∷ []) ≡ true
unfolding given
given-snoc n [] = ground arith
given-snoc n (m ∷ hs) = ground (arith, given-snoc n hs)

pub record IsValid (g : Gate) : Type 0 where
  pub promised : g.drain_promise ≡ is_draining g.state
  pub waiting : g.drain_resolve ≡ (is_draining g.state && not (is_empty g.live))
  pub closed : g.state ≡ disconnected → g.live ≡ []
  pub current : TakenIn g.lifecycle_generation g.live
  pub issued : Below (bound g) g.handles
  pub answered :
      (is_draining g.state && is_empty g.live) ≡ true
      → given g.lifecycle_generation g.handles ≡ true

-- A caller settles a drain by a handle that it was given.
abbrev pub Holds : Gate → Call → Type 0
Holds g (reopens n) = given n g.handles ≡ true
Holds g (disconnects n) = given n g.handles ≡ true
Holds g _ = Unit

pub data Reach (id : String) : Gate → Type 0 where
  start : Reach id (new id)
  next : {g : Gate} (c : Call) → Reach id g → Holds g c → Reach id (step g c)

lt-of-Below : (n b : ℕ) (hs : List ℕ) → given n hs ≡ true → Below b hs → n < b
unfolding Below given
lt-of-Below n b [] e h = absurd (ground arith)
lt-of-Below n b (m ∷ hs) e h = ground (arith, lt-of-Below n b hs)

Below-mono : (a b : ℕ) (hs : List ℕ) → a ≤ b → Below a hs → Below b hs
unfolding Below
Below-mono a b [] e h = tt
Below-mono a b (m ∷ hs) e h = (omega arith, Below-mono a b hs e h.1)

Below-snoc : (b n : ℕ) (hs : List ℕ) → n < b → Below b hs → Below b (hs ++ n ∷ [])
unfolding Below
Below-snoc b n hs e h = All-append (λ m. m < b) hs (n ∷ []) h (e, tt)

Below-nil : (b : ℕ) → Below b []
unfolding Below
Below-nil b = tt

TakenIn-nil : (n : ℕ) → TakenIn n []
unfolding TakenIn
TakenIn-nil n = tt

TakenIn-put :
    (n : ℕ) (l : Lease) (ls : List Lease)
    → l.lifecycle_generation ≡ n
    → TakenIn n ls
    → TakenIn n (put id_of l ls)
unfolding TakenIn
TakenIn-put n l ls e h = All-put id_of (λ x. x.lifecycle_generation ≡ n) l ls e h

TakenIn-delete :
    (n : ℕ) (k : String) (ls : List Lease)
    → TakenIn n ls
    → TakenIn n (delete id_of k (λ _. true) ls)
unfolding TakenIn
TakenIn-delete n k ls h = All-delete id_of (λ x. x.lifecycle_generation ≡ n) k (λ _. true) ls h

new-IsValid : (id : String) → IsValid (new id)
unfolding new
new-IsValid id = record {
  promised = refl;
  waiting = refl;
  closed = λ e. refl;
  current = TakenIn-nil 1;
  issued = Below-nil 1;
  answered = λ e. cc;
}

-- what holds before `resolveDrainIfReady` looks at the gate
record IsNearlyValid (g : Gate) : Type 0 where
  promised : g.drain_promise ≡ is_draining g.state
  idle : is_draining g.state ≡ false → g.drain_resolve ≡ false
  answered : g.drain_resolve ≡ false → is_draining g.state ≡ true → g.live ≡ []
  closed : g.state ≡ disconnected → g.live ≡ []
  current : TakenIn g.lifecycle_generation g.live
  issued : Below (if g.drain_resolve then g.lifecycle_generation else bound g) g.handles
  handed :
      g.drain_resolve ≡ false
      → (is_draining g.state && is_empty g.live) ≡ true
      → given g.lifecycle_generation g.handles ≡ true

resolve-IsValid : (g : Gate) → IsNearlyValid g → IsValid (resolve_drain_if_ready g)
unfolding resolve_drain_if_ready
resolve-IsValid g v = ground (
  arith,
  given-snoc g.lifecycle_generation g.handles,
  Below-snoc (suc g.lifecycle_generation) g.lifecycle_generation g.handles,
  Below-mono g.lifecycle_generation (suc g.lifecycle_generation) g.handles,
)

acquire-IsValid : (uuid : String) (n : ℕ) (g : Gate) → IsValid g → IsValid (acquire uuid n g).1
unfolding acquire
acquire-IsValid uuid n g v = ground (
  arith,
  TakenIn-put g.lifecycle_generation
      (record {
        endpoint_id = g.endpoint_id;
        lifecycle_generation = g.lifecycle_generation;
        endpoint_generation = n;
        lease_id = uuid;
      })
      g.live,
)

cleared-IsNearlyValid : (g : Gate) → IsValid g → IsNearlyValid (record g { live = [] })
cleared-IsNearlyValid g v = ground (
  arith,
  TakenIn-nil g.lifecycle_generation,
  Below-mono g.lifecycle_generation (suc g.lifecycle_generation) g.handles,
)

discard-IsValid : (g : Gate) → IsValid g → IsValid (discard_live_work g).1
unfolding discard_live_work
discard-IsValid g v = resolve-IsValid _ (cleared-IsNearlyValid g v)

is_empty-delete : (k : String) (ls : List Lease) → ls ≡ [] → delete id_of k (λ _. true) ls ≡ []
unfolding delete
is_empty-delete k [] e = refl
is_empty-delete k (l ∷ ls) e = cc

deleted-IsNearlyValid :
    (k : String) (g : Gate)
    → IsValid g
    → IsNearlyValid (record g { live = delete id_of k (λ _. true) g.live })
deleted-IsNearlyValid k g v = ground (
  arith,
  TakenIn-delete g.lifecycle_generation k g.live,
  is_empty-delete k g.live,
  Below-mono g.lifecycle_generation (suc g.lifecycle_generation) g.handles,
)

release-IsValid : (l : Lease) (g : Gate) → IsValid g → IsValid (release l g)
unfolding release
release-IsValid l g v = ground (arith, v, resolve-IsValid _ (deleted-IsNearlyValid l.lease_id g v))

discard_if-IsValid : (d : Bool) (g : Gate) → IsValid g → IsValid (discard_if d g)
unfolding discard_if
discard_if-IsValid true g v = resolve-IsValid _ (cleared-IsNearlyValid g v)
discard_if-IsValid false g v = v

opened-IsNearlyValid :
    (g : Gate)
    → g.state ≡ automatic
    → IsValid g
    → IsNearlyValid (record g { state = draining; drain_promise = true; drain_resolve = true })
opened-IsNearlyValid g e v = ground arith

pub begin_drain-IsValid : (d : Bool) (g : Gate) → IsValid g → IsValid (begin_drain d g).1
unfolding begin_drain
begin_drain-IsValid d g v = ground (
  arith,
  discard_if-IsValid d g v,
  λ (e : (discard_if d g).state ≡ automatic).
      resolve-IsValid _ (opened-IsNearlyValid (discard_if d g) e (discard_if-IsValid d g v)),
)

request_automatic-IsValid : (g : Gate) → IsValid g → IsValid (request_automatic g).1
unfolding request_automatic
request_automatic-IsValid g v = ground (
  arith,
  TakenIn-nil (g.lifecycle_generation + 1),
  Below-mono g.lifecycle_generation (g.lifecycle_generation + 1) g.handles,
)

settle-IsValid :
    (t : DesiredState) (n : ℕ) (g : Gate)
    → is_draining t ≡ false
    → given n g.handles ≡ true
    → IsValid g
    → IsValid (settle t n g)
unfolding settle
settle-IsValid t n g e h v = ground (
  arith,
  lt-of-Below n (bound g) g.handles h v.issued,
  TakenIn-nil (g.lifecycle_generation + 1),
  Below-mono (bound g) (g.lifecycle_generation + 1) g.handles,
)

-- Every call, refused or not, keeps a gate valid, when a drain is settled by a handle that was
-- handed out.
pub step-IsValid : (g : Gate) (c : Call) → Holds g c → IsValid g → IsValid (step g c)
unfolding step
step-IsValid g (acquires uuid n) h v = acquire-IsValid uuid n g v
step-IsValid g (releases l) h v = release-IsValid l g v
step-IsValid g discards h v = discard-IsValid g v
step-IsValid g requests_automatic h v = request_automatic-IsValid g v
step-IsValid g (begins_drain d) h v = begin_drain-IsValid d g v
step-IsValid g (reopens n) h v = settle-IsValid automatic n g refl h v
step-IsValid g (disconnects n) h v = settle-IsValid disconnected n g refl h v

-- In every gate that calls can reach from a new one: a drain promise exists exactly while the gate
-- drains, it still waits exactly while a lease is live, a disconnected gate has no live lease,
-- every live lease is of the current lifecycle generation, and a handle of that generation is out
-- exactly while the gate drains with no lease live.
pub Reach-IsValid : {id : String} {g : Gate} → Reach id g → IsValid g
Reach-IsValid {id} start = new-IsValid id
Reach-IsValid (next {g = g} c r h) = step-IsValid g c h (Reach-IsValid r)
