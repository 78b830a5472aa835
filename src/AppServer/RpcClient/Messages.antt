-- ===== src/AppServer/RpcClient/Messages.antt =====
-- src/app-server/rpc-client.ts: the messages, the outcomes and the state of a client.
use qiyan_bot.Core.{Result}
use qiyan_bot.Prelude.{ℕ, String, Bool, false, not, Option, none, List, [], ◌==◌, any}

-- the code of an error, which is mostly negative
pub data ℤ : Type 0 where
  pos : ℕ → ℤ
  negsuc : ℕ → ℤ

pub data Failure : Type 0 where
  client_closed request_aborted write_failed : Failure
  timed_out : String → Failure
  response_error : ℤ → String → Option String → Failure
  closed_with : String → Failure

pub data Outcome : Type 0 where
  resolved : String → Outcome
  rejected : Failure → Outcome

-- what goes over the wire
pub data Message : Type 0 where
  request_message : ℕ → String → String → Message
  notification_message : String → String → Message
  answer_message : String → Result String → Message

pub record Pending : Type 0 where
  pub id : ℕ
  pub method : String

pub record Settled : Type 0 where
  pub id : ℕ
  pub outcome : Outcome

pub record Client : Type 0 where
  pub next_id : ℕ
  pub pending : List Pending
  pub timeouts : List Pending
  pub abort_listeners : List ℕ
  pub notification_listeners : List ℕ
  pub server_request_handler : Option ℕ
  pub closed : Bool
  pub wire_closed : Bool
  pub sent : List Message
  pub settled : List Settled
  pub notified : List (ℕ × String)

unfoldable pub new : Client
new = record {
  next_id = 1;
  pending = [];
  timeouts = [];
  abort_listeners = [];
  notification_listeners = [];
  server_request_handler = none;
  closed = false;
  wire_closed = false;
  sent = [];
  settled = [];
  notified = [];
}

abbrev pub is_request : ℕ → Pending → Bool
is_request id p = p.id == id

abbrev pub is_not : ℕ → Pending → Bool
is_not id p = not (p.id == id)

unfoldable pub is_pending : ℕ → Client → Bool
is_pending id s = any (is_request id) s.pending
