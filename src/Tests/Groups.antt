-- ===== src/Tests/Groups.antt =====
-- The theorems on the lists of groups and sets and on `/groupset`, at a small database.
use whatsapp_bot.Commands.{words, execute_group_set, words_from}
use whatsapp_bot.Commands.Aborted.{Honest, execute_group_set-Honest}
use whatsapp_bot.Targets.Snapshot.{
  AllowedSnapshot, snapshot_allowed, IsSnapshot, snapshot_allowed_accounts,
}
use whatsapp_bot.Base.{◌≡◌, text, refl, [], some, ◌∷◌}
use whatsapp_bot.Targets.{trim, trim_start}
use whatsapp_bot.Tests.Services.{sample_codec, groups_db}

snapshot_allowed_accounts_example :
    (s : AllowedSnapshot) × (snapshot_allowed sample_codec groups_db ≡ some s)
    × IsSnapshot sample_codec 1 s
unfolding text trim trim_start
snapshot_allowed_accounts_example = snapshot_allowed_accounts sample_codec groups_db (refl, tt)

execute_group_set-Honest_example :
    Honest groups_db (execute_group_set sample_codec 9 (text "/groupset add fam nowhere") groups_db)
execute_group_set-Honest_example =
    execute_group_set-Honest sample_codec 9 groups_db (text "/groupset add fam nowhere")

sample_words : words (text "/groupset  add fam") ≡ text "/groupset" ∷ text "add" ∷ text "fam" ∷ []
unfolding words words_from text
sample_words = refl
