-- ===== src/Sessions/RestartRecovery/Tests.antt =====
-- The recovery after a runtime restart on concrete workers.
use qiyan_bot.Prelude.{◌≡◌, refl, true, some, [], ◌∷◌, put}
use qiyan_bot.Sessions.RestartRecovery.{
  Worker, Deps, Recovery, active, idle, runtime_lost, endpoint_unavailable, endpoint_ready, verdict,
}
use qiyan_bot.Sessions.RestartRecovery.Idempotence.{endpoint_ready_twice}

abbrev worker : Worker
worker = record {
  nickname = "w";
  key = "e t m";
  endpoint = "e";
  thread_id = "t";
  mapping_id = "m";
  is_managed = true;
}

abbrev busy : Deps
busy = record {
  list_managed = λ endpoint. worker ∷ [];
  resolve = λ endpoint thread. some worker;
  native = λ w. active;
}

abbrev quiet : Deps
quiet = record busy { native = λ w. idle }

abbrev lost : Recovery
lost = endpoint_unavailable busy "e" runtime_lost (record { pending = []; resumed = [] })

resumed_once : endpoint_ready quiet "e" lost ≡ record { pending = []; resumed = worker ∷ [] }
unfolding endpoint_ready endpoint_unavailable verdict put
resumed_once = refl

endpoint_ready_twice_example :
    endpoint_ready quiet "e" (endpoint_ready quiet "e" lost) ≡ endpoint_ready quiet "e" lost
endpoint_ready_twice_example = endpoint_ready_twice quiet "e" lost
