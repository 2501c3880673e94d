-- ===== src/Connection/Silence.antt =====
-- What the old sockets, timers and promises can still do after a disconnect.
use whatsapp_bot.Connection.Events.{creds_updated, Event, attempt_was_rejected}
use whatsapp_bot.Connection.Abandon.{is_report}
use whatsapp_bot.Base.{true, Bool}

-- A report of the old sockets, timers and promises.
unfoldable pub is_late : Event → Bool
is_late (creds_updated g now written) = true
is_late (attempt_was_rejected g) = true
is_late e = is_report e
