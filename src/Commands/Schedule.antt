-- ===== src/Commands/Schedule.antt =====
-- `parseSchedule` of src/messaging/scheduler.ts.
use whatsapp_bot.Domain.Errors.{plain}
use whatsapp_bot.Db.{Db}
use whatsapp_bot.Db.Exec.{Exec, throw, pure}
use whatsapp_bot.Base.{
  [], none, some, false, ◌∷◌, ℕ, Text, Bool, Option, leb, ◌==◌, ◌||◌, ◌&&◌, if◌then◌else◌,
}

abbrev is_digit : ℕ → Bool
is_digit c = leb 48 c && leb c 57

-- `[+-]\d{2}:\d{2}` as a whole text.
abbrev is_offset : Text → Bool
is_offset (sign ∷ a ∷ b ∷ colon ∷ c ∷ d ∷ []) =
    (sign == 43 || sign == 45)
    && (is_digit a && (is_digit b && (colon == 58 && (is_digit c && is_digit d))))
is_offset _ = false

abbrev is_zulu : Text → Bool
is_zulu (c ∷ []) = c == 90 || c == 122
is_zulu _ = false

-- `/(?:Z|[+-]\d{2}:\d{2})$/i`: some end of the text is a zone.
unfoldable pub names_zone : Text → Bool
names_zone [] = false
names_zone (c ∷ cs) = is_zulu (c ∷ cs) || (is_offset (c ∷ cs) || names_zone cs)

abbrev pub in_future : ℕ → Option ℕ → Exec Db ℕ
in_future now none = throw (plain "Invalid schedule timestamp")
in_future now (some at) =
    if leb at now then throw (plain "Schedule must be in the future") else pure at

-- The parser of dates is a parameter, `none` for an invalid date and 0 for one before 1970.
unfoldable pub parse_schedule : (Text → Option ℕ) → ℕ → Text → Exec Db ℕ
parse_schedule read_date now value =
    if names_zone value
    then in_future now (read_date value)
    else throw (plain "Schedule must be ISO-8601 with an explicit UTC offset or Z")
