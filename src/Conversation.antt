-- ===== src/Conversation.antt =====
-- The closed set of Slack conversation types of src/core/authz.ts.
use vouchr.Base.{String, Option, none, some, if◌then◌else◌}
use vouchr.Base.Eq.{◌==◌, string_eq}

pub data ConversationType : Type 0 where
  channel group im mpim app_home : ConversationType

-- isSlackConversationType, with the type that it narrows to
abbrev pub conversation_type_of : String → Option ConversationType
conversation_type_of s =
    if s == "channel"
    then some channel
    else if s == "group"
    then some group
    else if s == "im"
    then some im
    else if s == "mpim"
    then some mpim
    else if s == "app_home"
    then some app_home
    else none

abbrev pub type_name : ConversationType → String
type_name channel = "channel"
type_name group = "group"
type_name im = "im"
type_name mpim = "mpim"
type_name app_home = "app_home"
