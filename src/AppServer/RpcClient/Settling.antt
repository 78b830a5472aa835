-- ===== src/AppServer/RpcClient/Settling.antt =====
-- src/app-server/rpc-client.ts: each request settles once.
use mathlib.Core.Path.{subst}
use qiyan_bot.Prelude.{
  ℕ, ◌+◌, ◌≤◌, ◌≡◌, refl, sym, String, Bool, true, false, not, ◌&&◌, ◌||◌, some, List, [], ◌∷◌,
  if◌then◌else◌, ◌==◌, ltb, leb, keep, any, count, arith, inl, inr, Bool-cases, Option-cases,
}
use qiyan_bot.AppServer.RpcClient.Messages.{
  Client, Pending, Settled, Outcome, Message, is_request, is_not, is_pending, rejected, closed_with,
}
use qiyan_bot.AppServer.RpcClient.{
  Signal, write, settle, finish_reject, is_aborted, start_request, entered, written, request,
  find_timeout, timed, fire_timeout, fire_abort, reject_all, drop_requests, close,
}

-- how often a request stands in the map, has an armed timeout, and has settled
abbrev pub in_map : ℕ → List Pending → ℕ
in_map id ps = count (is_request id) ps

abbrev pub in_settled : ℕ → List Settled → ℕ
in_settled id ds = count (λ d. d.id == id) ds

-- A request that was made is in the map with its timeout, or has settled, and that once.
pub record Accounts (id : ℕ) (s : Client) : Type 0 where
  pub total :
      in_settled id s.settled + in_map id s.pending
      ≡ (if leb 1 id && ltb id s.next_id then 1 else 0)
  pub timed : in_map id s.timeouts ≡ in_map id s.pending
  pub positive : 1 ≤ s.next_id
  pub drained : s.closed ≡ true → in_map id s.pending ≡ 0

in_map-keep :
    (id k : ℕ) (ps : List Pending)
    → in_map id (keep (is_not k) ps) ≡ (if k == id then 0 else in_map id ps)
in_map-keep id k [] = ground arith
in_map-keep id k (p ∷ ps) = ground (arith, in_map-keep id k ps)

in_map-any : (id : ℕ) (ps : List Pending) → any (is_request id) ps ≡ false → in_map id ps ≡ 0
in_map-any id [] h = refl
in_map-any id (p ∷ ps) h = ground (arith, h, in_map-any id ps)

any-in_map : (id : ℕ) (ps : List Pending) → any (is_request id) ps ≡ true → 1 ≤ in_map id ps
any-in_map id [] h = absurd (ground (arith, h))
any-in_map id (p ∷ ps) h = ground (arith, h, any-in_map id ps)

pub settle-Accounts :
    (id k : ℕ) (o : Outcome) (s : Client) → Accounts id s → Accounts id (settle k o s)
unfolding settle is_pending
settle-Accounts id k o s v = elim (Bool-cases (any (is_request k) s.pending)) [
  | inl there ↦ rw there (record {
    total = ground (arith, v.total, in_map-keep id k s.pending, any-in_map k s.pending there);
    timed = ground (arith, v.timed, in_map-keep id k s.pending, in_map-keep id k s.timeouts);
    positive = v.positive;
    drained = λ c. ground (arith, v.drained c, in_map-keep id k s.pending);
  })
  | inr gone ↦ rw gone v
]

timeout_there :
    (k : ℕ) (ts : List Pending) (p : Pending) → find_timeout k ts ≡ some p → 1 ≤ in_map k ts
unfolding find_timeout
timeout_there k [] p h = absurd (ground arith)
timeout_there k (q ∷ ts) p h = elim (Bool-cases (q.id == k)) [
  | inl here ↦ ground (arith, here)
  | inr later ↦
      let rest : find_timeout k ts ≡ some p = ground (arith, later, h) in
      ground (arith, later, timeout_there k ts p rest)
]

-- the settling of a request whose timeout has just fired
fired-Accounts :
    (id k : ℕ) (o : Outcome) (s : Client)
    → any (is_request k) s.pending ≡ true
    → Accounts id s
    → Accounts id (settle k o (record s { timeouts = keep (is_not k) s.timeouts }))
unfolding settle is_pending
fired-Accounts id k o s there v = rw there (record {
  total = ground (arith, v.total, in_map-keep id k s.pending, any-in_map k s.pending there);
  timed = ground (
    arith,
    v.timed,
    in_map-keep id k s.pending,
    in_map-keep id k s.timeouts,
    in_map-keep id k (keep (is_not k) s.timeouts),
  );
  positive = v.positive;
  drained = λ c. ground (arith, v.drained c, in_map-keep id k s.pending);
})

pub fire_timeout-Accounts :
    (id k : ℕ) (s : Client) → Accounts id s → Accounts k s → Accounts id (fire_timeout k s)
unfolding fire_timeout timed finish_reject
fire_timeout-Accounts id k s v w = elim (Option-cases (find_timeout k s.timeouts)) [
  | inl gone ↦ rw (gone, timed) v
  | inr (p, there) ↦
      let waits : any (is_request k) s.pending ≡ true =
        ground (arith, in_map-any k s.pending, timeout_there k s.timeouts p there, w.timed) in
      rw (there, timed) (fired-Accounts id k _ s waits v)
]

pub fire_abort-Accounts : (id k : ℕ) (s : Client) → Accounts id s → Accounts id (fire_abort k s)
unfolding fire_abort finish_reject
fire_abort-Accounts id k s v = elim (Bool-cases (any (λ x. x == k) s.abort_listeners)) [
  | inl heard ↦ rw heard (
      settle-Accounts id k _
        (record s { abort_listeners = keep (λ x. not (x == k)) s.abort_listeners })
        (record { total = v.total; timed = v.timed; positive = v.positive; drained = v.drained }))
  | inr deaf ↦ rw deaf v
]

-- the request that has just been entered
entered-Accounts :
    (id : ℕ) (signal : Signal) (method : String) (s : Client)
    → s.closed ≡ false
    → Accounts id s
    → Accounts id (entered signal method s)
unfolding entered
entered-Accounts id signal method s live_ v = record {
  total = ground (arith, v.total, v.positive);
  timed = ground (arith, v.timed);
  positive = omega arith;
  drained = λ c. absurd (ground (arith, c, live_));
}

pub write-Accounts :
    (id : ℕ) (fails : Bool) (message : Message) (s : Client)
    → Accounts id s
    → Accounts id (write fails message s).1
unfolding write
write-Accounts id fails message s v = elim (Bool-cases (s.closed || fails)) [
  | inl lost ↦ rw lost v
  | inr out ↦
      rw out
        (record { total = v.total; timed = v.timed; positive = v.positive; drained = v.drained })
]

written-Accounts : (id k : ℕ) (p : Bool × Client) → Accounts id p.1 → Accounts id (written k p)
unfolding written finish_reject
written-Accounts id k (true, s) v = v
written-Accounts id k (false, s) v = settle-Accounts id k _ s v

start_request-Accounts :
    (id : ℕ) (signal : Signal) (fails : Bool) (method params : String) (s : Client)
    → s.closed ≡ false
    → Accounts id s
    → Accounts id (start_request signal fails method params s)
unfolding start_request
start_request-Accounts id signal fails method params s live_ v =
    elim (Bool-cases (is_aborted signal)) [
      | inl gone ↦ rw gone (record {
        total = ground (arith, v.total, v.positive);
        timed = v.timed;
        positive = omega arith;
        drained = v.drained;
      })
      | inr waits ↦ rw waits (
          written-Accounts id s.next_id _ (
            write-Accounts id fails _ (entered signal method s)
              (entered-Accounts id signal method s live_ v)))
    ]

pub request-Accounts :
    (id : ℕ) (signal : Signal) (fails : Bool) (method params : String) (s : Client)
    → Accounts id s
    → Accounts id (request signal fails method params s).1
unfolding request
request-Accounts id signal fails method params s v = elim (Bool-cases s.closed) [
  | inl shut ↦ subst (Accounts id) (sym (ground (arith, shut))) v
  | inr live_ ↦
      subst (Accounts id) (sym (ground (arith, live_)))
        (start_request-Accounts id signal fails method params s live_ v)
]

-- closing rejects what is left, each once
in_settled-reject_all :
    (id : ℕ) (why : String) (ps : List Pending) (ds : List Settled)
    → in_settled id (reject_all why ps ds) ≡ in_map id ps + in_settled id ds
unfolding reject_all
in_settled-reject_all id why [] ds = omega arith
in_settled-reject_all id why (p ∷ ps) ds = ground (
  arith,
  in_settled-reject_all id why ps (record { id = p.id; outcome = rejected (closed_with why) } ∷ ds),
)

in_map-drop_requests :
    (id : ℕ) (ps ts : List Pending)
    → in_map id (drop_requests ps ts) ≡ (if any (is_request id) ps then 0 else in_map id ts)
unfolding drop_requests
in_map-drop_requests id [] ts = refl
in_map-drop_requests id (p ∷ ps) ts =
    ground (arith, in_map-drop_requests id ps (keep (is_not p.id) ts), in_map-keep id p.id ts)

pub close-Accounts :
    (id : ℕ) (why : String) (wire : Bool) (s : Client)
    → Accounts id s
    → Accounts id (close why wire s)
unfolding close
close-Accounts id why wire s v = elim (Bool-cases s.closed) [
  | inl shut ↦ subst (Accounts id) (sym (ground (arith, shut))) v
  | inr live_ ↦ rw live_ (record {
    total = ground (arith, v.total, in_settled-reject_all id why s.pending s.settled);
    timed =
        ground
          (arith, v.timed, in_map-drop_requests id s.pending s.timeouts, in_map-any id s.pending);
    positive = v.positive;
    drained = λ c. refl;
  })
]
