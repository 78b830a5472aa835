-- ===== src/Sessions/RestartRecovery/Idempotence.antt =====
-- src/sessions/runtime-restart-recovery.ts: an interrupted worker is told to resume once.
use qiyan_bot.Prelude.{◌≡◌, refl, ap, ◌∙◌, String, List, [], ◌∷◌, ◌++◌, arith}
use qiyan_bot.Sessions.RestartRecovery.{
  Deps, Worker, Recovery, Verdict, keep_waiting, forget, resume, verdict, ready_loop,
  endpoint_ready,
}

-- the entries that stay would stay again
loop_again :
    (deps : Deps) (endpoint_id : String) (ts : List Worker)
    → ready_loop deps endpoint_id (ready_loop deps endpoint_id ts).0
      ≡ ((ready_loop deps endpoint_id ts).0, [])
unfolding ready_loop
loop_again deps endpoint_id [] = refl
loop_again deps endpoint_id (t ∷ ts) =
    let rest = loop_again deps endpoint_id ts in go (verdict deps endpoint_id t) refl rest
  where
    go :
        (v : Verdict)
        → verdict deps endpoint_id t ≡ v
        → ready_loop deps endpoint_id (ready_loop deps endpoint_id ts).0
          ≡ ((ready_loop deps endpoint_id ts).0, [])
        → ready_loop deps endpoint_id (ready_loop deps endpoint_id (t ∷ ts)).0
          ≡ ((ready_loop deps endpoint_id (t ∷ ts)).0, [])
    go keep_waiting e h = ground (arith, e, h)
    go forget e h = ground (arith, e, h)
    go (resume w) e h = ground (arith, e, h)

append_nil : (ws : List Worker) → ws ++ [] ≡ ws
append_nil [] = refl
append_nil (w ∷ ws) = ap (λ rest. w ∷ rest) (append_nil ws)

-- When an endpoint becomes ready again and nothing else has changed, no worker is told to resume a
-- second time, and the same workers are still waited for.
pub endpoint_ready_twice :
    (deps : Deps) (endpoint_id : String) (s : Recovery)
    → endpoint_ready deps endpoint_id (endpoint_ready deps endpoint_id s)
      ≡ endpoint_ready deps endpoint_id s
unfolding endpoint_ready
endpoint_ready_twice deps endpoint_id s =
    let first = ready_loop deps endpoint_id s.pending in
    let log = s.resumed ++ first.1 in
    ap (λ r. record { pending = r.0; resumed = log ++ r.1 }) (loop_again deps endpoint_id s.pending)
    ∙ ap (λ ws. record { pending = first.0; resumed = ws }) (append_nil log)
