-- ===== src/Storage/SessionControls/Consumption.antt =====
-- src/storage/session-control-store.ts: what a turn consumes, and which observation ends a control.
use qiyan_bot.Prelude.{
  ℕ, ◌≡◌, refl, inl, inr, ◌∙◌, String, str_eq, true, false, not, ◌&&◌, Option, none, some, List,
  arith, if◌then◌else◌, ltb, get, get-modify, get-append, is_some, eq_refl, modify, Option-cases,
}
use qiyan_bot.Storage.SessionControls.{
  ControlRow, session_of, ensure, set_model, holds, consume_model, consume_effort, consume_settings,
  set_goal_controlled, clear_goal_controlled_before, goal_control,
}

abbrev pub model_of : Option ControlRow → Option String
model_of none = none
model_of (some r) = r.model

ensured :
    (session : String) (rows : List ControlRow)
    → is_some (get session_of session (ensure session rows)) ≡ true
unfolding ensure
ensured session rows = ground (
  arith,
  eq_refl session,
  get-append session_of session
      (record {
        session = session;
        model = none;
        effort = none;
        goal_controlled = false;
        goal_control_known = false;
        goal_control_sequence = 0;
      })
      rows,
)

model-consume_effort :
    (o : Option String) (session : String) (rows : List ControlRow)
    → model_of (get session_of session (consume_effort o session rows))
      ≡ model_of (get session_of session rows)
unfolding consume_effort
model-consume_effort none session rows = refl
model-consume_effort (some expected) session rows =
    elim (Option-cases (get session_of session rows)) [
      | inl missing ↦ ground (
        arith,
        eq_refl session,
        get-modify session_of session session (λ r. holds r.effort expected)
            (λ r. record r { effort = none }) rows (λ r. refl),
      )
      | inr (r, found) ↦ ground (
        arith,
        eq_refl session,
        get-modify session_of session session (λ r. holds r.effort expected)
            (λ r. record r { effort = none }) rows (λ r. refl),
      )
    ]

-- A turn consumes the model that it was started with, and nothing newer: when the model was set
-- again meanwhile, the later one is still pending after the turn consumed its own, unless it is the
-- same text, which is then consumed.
pub consume-set_model :
    (session old new : String) (effort : Option String) (rows : List ControlRow)
    → model_of (
        get session_of session
          (consume_settings session
            (record { pending_model = some old; pending_effort = effort })
            (set_model session new rows)).1)
      ≡ (if str_eq new old then none else some new)
unfolding consume_settings
consume-set_model session old new effort rows =
    model-consume_effort effort session
      (consume_model (some old) session (set_model session new rows))
    ∙ consumed
  where
    consumed :
        model_of
          (get session_of session (consume_model (some old) session (set_model session new rows)))
        ≡ (if str_eq new old then none else some new)
    consumed =
        unfold consume_model set_model in
        elim (Option-cases (get session_of session (ensure session rows))) [
          | inl missing ↦ absurd (ground (arith, ensured session rows))
          | inr (r, found) ↦ ground (
            arith,
            eq_refl session,
            get-modify session_of session session (λ _. true) (λ r. record r { model = some new })
                (ensure session rows) (λ r. refl),
            get-modify session_of session session (λ r. holds r.model old)
                (λ r. record r { model = none }) (set_model session new rows) (λ r. refl),
          )
        ]

-- A control of the goal that was taken at an observation is ended by later observations only: one
-- that is not later changes nothing.
clear-set_goal_controlled :
    (session : String) (n m : ℕ) (rows : List ControlRow)
    → ((clear_goal_controlled_before session m (set_goal_controlled session true n rows)).0
        ≡ ltb n m)
      × ((goal_control session
            (clear_goal_controlled_before session m
              (set_goal_controlled session true n rows)).1).controlled
          ≡ not (ltb n m))
unfolding clear_goal_controlled_before set_goal_controlled goal_control
clear-set_goal_controlled session n m rows =
    elim (Option-cases (get session_of session (ensure session rows))) [
      | inl missing ↦ absurd (ground (arith, ensured session rows))
      | inr (r, found) ↦ (
        ground (
          arith,
          eq_refl session,
          get-modify session_of session session (λ _. true) taken (ensure session rows) (λ r. refl),
        ),
        ground (
          arith,
          eq_refl session,
          get-modify session_of session session (λ _. true) taken (ensure session rows) (λ r. refl),
          get-modify session_of session session
              (λ r. r.goal_controlled && ltb r.goal_control_sequence m)
              (λ r. record r { goal_controlled = false; goal_control_known = true })
              (modify session_of session (λ _. true) taken (ensure session rows)) (λ r. refl),
        ),
      )
    ]
  where
    taken : ControlRow → ControlRow
    taken r = record r {
      goal_controlled = true;
      goal_control_known = true;
      goal_control_sequence = n;
    }
