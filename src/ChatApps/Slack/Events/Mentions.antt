-- ===== src/ChatApps/Slack/Events/Mentions.antt =====
-- src/chat-apps/slack/event-classifier.ts: the mention of the bot at the start of a message.
use Prim.Native.Char.{Char, code}
use Prim.Native.String.{String, [], ◌∷◌, ◌++◌, len, slice}
use qiyan_bot.Prelude.{Bool, ◌||◌, if◌then◌else◌, ◌==◌}
use text.Mathlib.Text.{starts_with}

-- the class of the regular expression: tab, line feed, carriage return and space
abbrev pub is_blank : Char → Bool
is_blank c = code c == 9 || code c == 10 || code c == 13 || code c == 32

unfoldable pub trim_blanks : String → String
trim_blanks [] = []
trim_blanks (c ∷ s) = let rest = trim_blanks s in if is_blank c then rest else c ∷ s

unfoldable pub strip_leading_mention : String → String → String
strip_leading_mention text bot_user_id =
    let mention : String = "<@" ++ bot_user_id ++ ">" in
    if starts_with text mention then trim_blanks (slice text (len mention) (len text)) else text
