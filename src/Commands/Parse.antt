-- ===== src/Commands/Parse.antt =====
-- The patterns of src/whatsapp/bulk-controller-commands.ts: how a bulk command is taken apart.
use whatsapp_bot.Commands.{split_from}
use whatsapp_bot.Destinations.{fold_case}
use whatsapp_bot.Targets.{is_space, trim, trim_start}
use whatsapp_bot.Controller.{truthy, then_read}
use whatsapp_bot.Base.{
  Text, List, Option, [], none, some, ◌∷◌, if◌then◌else◌, map_option, text_eq, map, text, reverse,
  or_else, ◌==◌, ◌++◌,
}

-- What follows the word at the front, whose letters may be of either case.
unfoldable pub after_word : Text → Text → Option Text
after_word [] s = some s
after_word (h ∷ hs) [] = none
after_word (h ∷ hs) (c ∷ cs) =
    if text_eq (fold_case (c ∷ [])) (h ∷ []) then after_word hs cs else none

-- `\s+([\s\S]+)$`, with the group trimmed: it takes one unit at least, a blank one if need be.
unfoldable pub spaced_rest : Text → Option Text
spaced_rest [] = none
spaced_rest (c ∷ []) = none
spaced_rest (c ∷ d ∷ cs) = if is_space c then some (trim (d ∷ cs)) else none

-- An empty message counts as none.
unfoldable pub message_after : Text → Text → Option Text
message_after head command = truthy (then_read (after_word head command) spaced_rest)

pub record NamedMessage : Type 0 where
  pub name : Text
  pub message : Text

abbrev named : Text → Option Text → Option NamedMessage
named name none = none
named name (some message) = some (record { name = name; message = message })

-- `(\S+)\s+([\s\S]+)$`; the name read so far stands last unit first.
unfoldable pub read_name : Text → Text → Option NamedMessage
read_name name [] = none
read_name name (c ∷ cs) =
    if is_space c
    then named (reverse name) (truthy (spaced_rest (c ∷ cs)))
    else read_name (c ∷ name) cs

abbrev pub spaced_name : Text → Option NamedMessage
spaced_name [] = none
spaced_name (c ∷ cs) = if is_space c then read_name [] (trim_start cs) else none

unfoldable pub named_message : Text → Text → Option NamedMessage
named_message head command = then_read (after_word head command) spaced_name

-- Where the matcher of `[^\s,]+(?:\s*,\s*[^\s,]+)*` stands: in a target, in the blanks before a
-- comma, behind a comma.
pub data ListPlace : Type 0 where
  in_target before_comma after_comma : ListPlace

pub record Expression : Type 0 where
  pub expression : Text
  pub rest : Text

-- The expression, whose units so far stand last unit first in `taken`, and what follows it. The
-- blanks and the comma of a repetition are in `ahead` until its target begins; a repetition that
-- finds no target is given back.
unfoldable pub read_targets : ListPlace → Text → Text → Text → Option Expression
read_targets place taken ahead [] = none
read_targets in_target taken ahead (c ∷ cs) =
    let blank = read_targets before_comma taken (c ∷ []) cs in
    let comma = read_targets after_comma taken (c ∷ []) cs in
    let same = read_targets in_target (c ∷ taken) [] cs in
    if is_space c
    then or_else blank (ended (reverse taken) (spaced_rest (c ∷ cs)))
    else if c == 44
    then comma
    else same
  where
    ended : Text → Option Text → Option Expression
    ended expression none = none
    ended expression (some rest) = some (record { expression = expression; rest = rest })
read_targets before_comma taken ahead (c ∷ cs) =
    let blank = read_targets before_comma taken (c ∷ ahead) cs in
    let comma = read_targets after_comma taken (c ∷ ahead) cs in
    if is_space c then blank else if c == 44 then comma else none
read_targets after_comma taken ahead (c ∷ cs) =
    let blank = read_targets after_comma taken (c ∷ ahead) cs in
    let target = read_targets in_target (c ∷ ahead ++ taken) [] cs in
    if is_space c then blank else if c == 44 then none else target

-- The first target.
abbrev pub read_expression : Text → Option Expression
read_expression [] = none
read_expression (c ∷ cs) =
    if is_space c then none else if c == 44 then none else read_targets in_target (c ∷ []) [] cs

abbrev pub spaced_expression : Text → Option Expression
spaced_expression [] = none
spaced_expression (c ∷ cs) = if is_space c then read_expression (trim_start cs) else none

pub record MultiMessage : Type 0 where
  pub targets : List Text
  pub message : Text

abbrev pub multi : Expression → Option MultiMessage
multi e =
    map_option
      (λ message. record { targets = map trim (split_from [] e.expression); message = message })
      (truthy (some e.rest))

unfoldable pub multi_message : Text → Option MultiMessage
multi_message command =
    then_read (then_read (after_word (text "/sendmulti") command) spaced_expression) multi
