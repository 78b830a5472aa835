-- ===== src/Sessions/RestartRecovery.antt =====
-- src/sessions/runtime-restart-recovery.ts: the workers that a lost runtime interrupted, and which of
-- them are told to resume once their endpoint is ready. The other parts' answers are arguments, and
-- `enqueueResume` is a log. `keyOf`, which joins three columns, is the field `key` of a worker.
pub mod Idempotence
mod Tests
use qiyan_bot.Prelude.{
  String, str_eq, Bool, true, false, not, ◌&&◌, ◌||◌, Option, none, some, List, [], ◌∷◌, ◌++◌,
  if◌then◌else◌, put,
}

pub data EndpointLossKind : Type 0 where
  connection_lost runtime_lost : EndpointLossKind

pub data NativeStatus : Type 0 where
  unavailable idle active other_status : NativeStatus

pub record Worker : Type 0 where
  pub nickname : String
  pub key : String
  pub endpoint : String
  pub thread_id : String
  pub mapping_id : String
  pub is_managed : Bool

pub record Deps : Type 0 where
  pub list_managed : String → List Worker
  pub resolve : String → String → Option Worker
  pub native : Worker → NativeStatus

pub record Recovery : Type 0 where
  pub pending : List Worker
  pub resumed : List Worker

abbrev pub key_of : Worker → String
key_of w = w.key

abbrev pub is_active : NativeStatus → Bool
is_active active = true
is_active _ = false

abbrev pub is_idle : NativeStatus → Bool
is_idle idle = true
is_idle _ = false

unfoldable pub remember : Deps → List Worker → List Worker → List Worker
remember deps [] pending = pending
remember deps (w ∷ ws) pending =
    remember deps ws (if is_active (deps.native w) then put key_of w pending else pending)

unfoldable pub endpoint_unavailable : Deps → String → EndpointLossKind → Recovery → Recovery
unfolding remember
endpoint_unavailable deps endpoint_id connection_lost s = s
endpoint_unavailable deps endpoint_id runtime_lost s = record s {
  pending = remember deps (deps.list_managed endpoint_id) s.pending;
}

abbrev pub same_mapping : Worker → Worker → Bool
same_mapping current target =
    current.is_managed
    && str_eq current.endpoint target.endpoint
    && str_eq current.thread_id target.thread_id
    && str_eq current.mapping_id target.mapping_id

pub data Verdict : Type 0 where
  keep_waiting forget : Verdict
  resume : Worker → Verdict

unfoldable pub verdict_now : Deps → Worker → Option Worker → Verdict
verdict_now deps target none = forget
verdict_now deps target (some current) =
    if not (same_mapping current target)
    then forget
    else if is_active (deps.native current)
    then forget
    else if is_idle (deps.native current)
    then resume current
    else keep_waiting

-- what the loop does with one interrupted worker
unfoldable pub verdict : Deps → String → Worker → Verdict
unfolding verdict_now
verdict deps endpoint_id target =
    if not (str_eq target.endpoint endpoint_id)
    then keep_waiting
    else verdict_now deps target (deps.resolve target.endpoint target.thread_id)

-- the entries that stay, and the workers that are resumed, in order
unfoldable pub ready_loop : Deps → String → List Worker → List Worker × List Worker
unfolding verdict
ready_loop deps endpoint_id [] = ([], [])
ready_loop deps endpoint_id (t ∷ ts) =
    settled (verdict deps endpoint_id t) (ready_loop deps endpoint_id ts)
  where
    settled : Verdict → List Worker × List Worker → List Worker × List Worker
    settled keep_waiting (stay, resumed) = (t ∷ stay, resumed)
    settled forget (stay, resumed) = (stay, resumed)
    settled (resume w) (stay, resumed) = (stay, w ∷ resumed)

unfoldable pub endpoint_ready : Deps → String → Recovery → Recovery
unfolding ready_loop
endpoint_ready deps endpoint_id s =
    let (stay, resumed) = ready_loop deps endpoint_id s.pending in
    record { pending = stay; resumed = s.resumed ++ resumed }
