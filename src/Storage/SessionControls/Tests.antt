-- ===== src/Storage/SessionControls/Tests.antt =====
-- Session controls at concrete inputs.
use qiyan_bot.Prelude.{◌≡◌, none, some, [], get, if◌then◌else◌, str_eq}
use qiyan_bot.Storage.SessionControls.{session_of, consume_settings, set_model}
use qiyan_bot.Storage.SessionControls.Consumption.{model_of, consume-set_model}

consume-set_model_example :
    model_of (
      get session_of "s"
        (consume_settings "s"
          (record { pending_model = some "old"; pending_effort = some "low" })
          (set_model "s" "new" [])).1)
    ≡ (if str_eq "new" "old" then none else some "new")
consume-set_model_example = consume-set_model "s" "old" "new" (some "low") []
