-- ===== src/Storage/SessionControls.antt =====
-- src/storage/session-control-store.ts: the settings that wait for a session's next turn, and whether
-- the goal of the session is controlled. The three columns of the primary key are one text.
pub mod Consumption
mod Tests
use qiyan_bot.Prelude.{
  ℕ, String, str_eq, Bool, true, false, ◌&&◌, Option, none, some, List, [], ◌∷◌, ◌++◌,
  if◌then◌else◌, is_some, ltb, get, modify, changes, delete,
}

pub record ControlRow : Type 0 where
  pub session : String
  pub model : Option String
  pub effort : Option String
  pub goal_controlled : Bool
  pub goal_control_known : Bool
  pub goal_control_sequence : ℕ

pub record PendingSessionSettings : Type 0 where
  pub pending_model : Option String
  pub pending_effort : Option String

pub record GoalControlState : Type 0 where
  pub controlled : Bool
  pub known : Bool
  pub observation_sequence : ℕ

abbrev pub session_of : ControlRow → String
session_of r = r.session

-- INSERT OR IGNORE with the table's defaults
unfoldable pub ensure : String → List ControlRow → List ControlRow
ensure session rows =
    if is_some (get session_of session rows)
    then rows
    else rows
      ++ record {
        session = session;
        model = none;
        effort = none;
        goal_controlled = false;
        goal_control_known = false;
        goal_control_sequence = 0;
      }
        ∷ []

abbrev update : String → (ControlRow → ControlRow) → List ControlRow → List ControlRow
update session f = modify session_of session (λ _. true) f

unfoldable pub set_model : String → String → List ControlRow → List ControlRow
unfolding ensure
set_model session model rows =
    update session (λ r. record r { model = some model }) (ensure session rows)

unfoldable pub set_effort : String → String → List ControlRow → List ControlRow
unfolding ensure
set_effort session effort rows =
    update session (λ r. record r { effort = some effort }) (ensure session rows)

-- an empty text is as good as none
abbrev pub given : Option String → Option String
given none = none
given (some text) = if str_eq text "" then none else some text

abbrev pub settings_of : Option ControlRow → PendingSessionSettings
settings_of none = record { pending_model = none; pending_effort = none }
settings_of (some r) = record { pending_model = given r.model; pending_effort = given r.effort }

unfoldable pub settings : String → List ControlRow → PendingSessionSettings
settings session rows = settings_of (get session_of session rows)

-- column = ?, which NULL does not satisfy
abbrev pub holds : Option String → String → Bool
holds none text = false
holds (some stored) text = str_eq stored text

unfoldable pub consume_model : Option String → String → List ControlRow → List ControlRow
consume_model none session rows = rows
consume_model (some expected) session rows =
    modify session_of session (λ r. holds r.model expected) (λ r. record r { model = none }) rows

unfoldable pub consume_effort : Option String → String → List ControlRow → List ControlRow
consume_effort none session rows = rows
consume_effort (some expected) session rows =
    modify session_of session (λ r. holds r.effort expected) (λ r. record r { effort = none }) rows

unfoldable pub consume_settings :
    String → PendingSessionSettings → List ControlRow → PendingSessionSettings × List ControlRow
unfolding consume_model consume_effort
consume_settings session expected rows = (
  expected,
  consume_effort expected.pending_effort session
      (consume_model expected.pending_model session rows),
)

unfoldable pub set_goal_controlled : String → Bool → ℕ → List ControlRow → List ControlRow
unfolding ensure
set_goal_controlled session controlled sequence rows =
    update session
      (λ r. record r {
        goal_controlled = controlled;
        goal_control_known = true;
        goal_control_sequence = if controlled then sequence else r.goal_control_sequence;
      })
      (ensure session rows)

abbrev pub control_of : Option ControlRow → GoalControlState
control_of none = record { controlled = false; known = false; observation_sequence = 0 }
control_of (some r) = record {
  controlled = r.goal_controlled;
  known = r.goal_control_known;
  observation_sequence = r.goal_control_sequence;
}

unfoldable pub goal_control : String → List ControlRow → GoalControlState
goal_control session rows = control_of (get session_of session rows)

unfoldable pub clear_goal_controlled_before : String → ℕ → List ControlRow → Bool × List ControlRow
clear_goal_controlled_before session sequence rows = (
  changes session_of session (λ r. r.goal_controlled && ltb r.goal_control_sequence sequence) rows,
  modify session_of session (λ r. r.goal_controlled && ltb r.goal_control_sequence sequence)
      (λ r. record r { goal_controlled = false; goal_control_known = true }) rows,
)

unfoldable pub remove : String → List ControlRow → List ControlRow
remove session = delete session_of session (λ _. true)
