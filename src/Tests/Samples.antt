-- ===== src/Tests/Samples.antt =====
-- A small database: one open group, one closed group, and four jobs.
use whatsapp_bot.Jobs.Invariant.{IsValid}
use whatsapp_bot.Jobs.Rows.{active_keys_unique, is_active_with}
use whatsapp_bot.Domain.Groups.{Destination}
use whatsapp_bot.Domain.Jobs.{JobStatus, pending, processing, failed, sent, PayloadType, is_active}
use whatsapp_bot.Worker.{Readings, WorkerConfig, World}
use whatsapp_bot.Db.{Db}
use whatsapp_bot.Domain.Queue.{QueueJob}
use whatsapp_bot.Base.{
  refl, [], none, some, true, false, ◌∷◌, Text, ℕ, text_eq, Bool, has_dash, arith,
}

abbrev pub group_jid : Text
group_jid = 103 ∷ 49 ∷ []

abbrev pub other_jid : Text
other_jid = 103 ∷ 50 ∷ []

-- "a-1", "a-2", "a-3"
abbrev pub uuid_one : Text
uuid_one = 97 ∷ 45 ∷ 49 ∷ []

abbrev pub uuid_two : Text
uuid_two = 97 ∷ 45 ∷ 50 ∷ []

abbrev pub uuid_three : Text
uuid_three = 97 ∷ 45 ∷ 51 ∷ []

-- "a-4"
abbrev pub uuid_four : Text
uuid_four = 97 ∷ 45 ∷ 52 ∷ []

abbrev pub group : Text → Bool → Destination
group jid enabled = record {
  jid = jid;
  subject = jid;
  description = none;
  owner_jid = none;
  participant_count = some 3;
  addressing_mode = none;
  alias = none;
  enabled = enabled;
  can_send = true;
  created_at = 1;
  updated_at = 1;
  last_refreshed_at = 1;
}

abbrev pub job_row : ℕ → Text → Text → Text → JobStatus → QueueJob
job_row id uuid jid key status = record {
  id = id;
  uuid = uuid;
  destination_jid = jid;
  payload_type = PayloadType.text;
  text = some uuid;
  media_path = none;
  media_hash = none;
  media_mime = none;
  filename = none;
  scheduled_at = 5;
  status = status;
  attempt_count = 1;
  max_attempts = 3;
  next_attempt_at = none;
  last_error_class = none;
  last_error_message = none;
  idempotency_key = key;
  options_json = [];
  requested_by = "cli";
  created_at = 5;
  updated_at = 5;
  started_at = none;
  sent_at = none;
  remote_message_id = none;
  batch_id = none;
  dry_run = false;
  forward_source_key = none;
}

abbrev pub pending_row : QueueJob
pending_row = job_row 1 uuid_one group_jid (1 ∷ []) pending

abbrev pub processing_row : QueueJob
processing_row = job_row 2 uuid_two group_jid (2 ∷ []) processing

abbrev pub failed_row : QueueJob
failed_row = job_row 3 uuid_three other_jid (1 ∷ []) failed

abbrev pub sent_row : QueueJob
sent_row = job_row 4 uuid_four group_jid (4 ∷ []) sent

abbrev pub sample_db : Db
sample_db = record {
  app_state = [];
  destinations = group group_jid true ∷ group other_jid false ∷ [];
  media_assets = [];
  jobs = pending_row ∷ processing_row ∷ failed_row ∷ sent_row ∷ [];
  job_seq = 4;
  audit_events = [];
  group_sets = [];
  group_set_seq = 0;
  members = [];
  batches = [];
  controller_messages = [];
  forward_sources = [];
  auth_creds = none;
  auth_keys = [];
}

pub sample_db-IsValid : IsValid sample_db
unfolding text_eq has_dash active_keys_unique is_active_with is_active
sample_db-IsValid = record {
  ids_ascend = omega arith;
  ids_given = omega arith;
  uuids_differ = ((refl, (refl, (refl, tt))), ((refl, (refl, tt)), ((refl, tt), (tt, tt))));
  uuids_dashed = (refl, (refl, (refl, (refl, tt))));
  index_holds = refl;
}

abbrev pub sample_readings : Readings
sample_readings = record { clock = 100; wall = 101; random = 7 }

abbrev pub sample_config : WorkerConfig
sample_config = record {
  dry_run = false;
  send_interval_ms = 0;
  retry_base_ms = 1000;
  retry_max_ms = 60000;
  transport_is_dry_run = false;
  media_exists = λ path. true;
}

abbrev pub sample_world : World
sample_world = record {
  db = sample_db;
  stopping = false;
  last_send_finished_at = 0;
  send_calls = [];
}
