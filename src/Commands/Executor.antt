-- ===== src/Commands/Executor.antt =====
-- src/whatsapp/controller-commands.ts: from the text of a command to its reply.
use whatsapp_bot.Controller.{truthy}
use whatsapp_bot.Base.{
  [], none, some, false, ◌∷◌, Text, List, Bool, if◌then◌else◌, Option, text_eq, text, any,
}

-- A command with its arguments, as the conditions of the executor tell them apart.
pub data Command : Type 0 where
  forward_one forward_many forward_to_set : Text → Command
  forward_to_all forward_usage forward_no_source : Command
  help status refresh_groups list_groups group_set unknown : Command
  queue : Bool → Command
  set_group_alias : Text → Text → Command
  allow deny cancel_job show_batch : Text → Command
  send : Text → List Text → Command
  send_many send_to_all send_to_set : Command
  schedule : Text → Text → List Text → Command

-- The commands on a forwarded message; an empty source key counts as none.
abbrev read_forward_args : Text → List Text → Command
read_forward_args head (arg ∷ []) =
    if text_eq head (text "/forward")
    then forward_one arg
    else if text_eq head (text "/forwardmulti")
    then forward_many arg
    else if text_eq head (text "/forwardset")
    then forward_to_set arg
    else forward_usage
read_forward_args head [] =
    if text_eq head (text "/forwardall") then forward_to_all else forward_usage
read_forward_args head _ = forward_usage

abbrev read_forward : Text → List Text → Option Text → Command
read_forward head args none = forward_no_source
read_forward head args (some key) = read_forward_args head args

abbrev read_queue : List Text → Command
read_queue [] = queue false
read_queue (arg ∷ args) = queue (text_eq arg (text "failed"))

-- `/groups` with anything else lists the groups.
abbrev read_groups : List Text → Command
read_groups [] = list_groups
read_groups (verb ∷ []) = if text_eq verb (text "refresh") then refresh_groups else list_groups
read_groups (verb ∷ a ∷ args) =
    if text_eq verb (text "refresh")
    then refresh_groups
    else if text_eq verb (text "alias")
    then aliased args
    else if text_eq verb (text "allow")
    then allow a
    else if text_eq verb (text "deny")
    then deny a
    else list_groups
  where
    aliased : List Text → Command
    aliased [] = list_groups
    aliased (b ∷ rest) = set_group_alias a b

abbrev read_send : List Text → Command
read_send (destination ∷ word ∷ body) = send destination (word ∷ body)
read_send _ = unknown

abbrev read_schedule : List Text → Command
read_schedule (destination ∷ at ∷ word ∷ body) = schedule destination at (word ∷ body)
read_schedule _ = unknown

abbrev with_argument : (Text → Command) → List Text → Command
with_argument f [] = unknown
with_argument f (arg ∷ args) = f arg

abbrev pub forward_heads : List Text
forward_heads =
    text "/forward" ∷ text "/forwardmulti" ∷ text "/forwardset" ∷ text "/forwardall" ∷ []

unfoldable pub read_head : Text → List Text → Option Text → Command
read_head head args source_key =
    if any (text_eq head) forward_heads
    then read_forward head args (truthy source_key)
    else if text_eq head (text "/help")
    then help
    else if text_eq head (text "/status")
    then status
    else if text_eq head (text "/queue")
    then read_queue args
    else if text_eq head (text "/groups")
    then read_groups args
    else if text_eq head (text "/groupset")
    then group_set
    else if text_eq head (text "/cancel")
    then with_argument cancel_job args
    else if text_eq head (text "/send")
    then read_send args
    else if text_eq head (text "/sendmulti")
    then send_many
    else if text_eq head (text "/sendall")
    then send_to_all
    else if text_eq head (text "/sendset")
    then send_to_set
    else if text_eq head (text "/batch")
    then with_argument show_batch args
    else if text_eq head (text "/schedule")
    then read_schedule args
    else unknown

-- The trimmed text has no words where `split` gives one empty word, which no test takes.
unfoldable pub read_command : List Text → Option Text → Command
read_command [] source_key = unknown
read_command (head ∷ args) source_key = read_head head args source_key
