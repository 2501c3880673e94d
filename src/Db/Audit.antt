-- ===== src/Db/Audit.antt =====
-- src/db/repositories/helpers.ts and audit-repository.ts: the audit trail, newest event last.
use whatsapp_bot.Base.{ℕ, Text, String, Option, List, [], ◌∷◌, ◌++◌, take, reverse}
use whatsapp_bot.Db.{Db, AuditEvent, EventType, EntityType, Details}
use whatsapp_bot.Db.Exec.{Exec, modify, immediate_transaction}

-- `insertAudit`
unfoldable pub insert_audit :
    ℕ → EventType → String → Option EntityType → Option Text → Option Details → Exec Db (Unit {0})
insert_audit now event actor entity_type entity_id details = modify λ db. record db {
  audit_events =
      db.audit_events
      ++ record {
        event_type = event;
        actor = actor;
        entity_type = entity_type;
        entity_id = entity_id;
        details = details;
        created_at = now;
      }
        ∷ [];
}

-- `AuditRepository.add`
unfoldable pub add :
    ℕ → EventType → String → Option EntityType → Option Text → Option Details → Exec Db (Unit {0})
add now event actor entity_type entity_id details =
    immediate_transaction (insert_audit now event actor entity_type entity_id details)

-- `AuditRepository.list`: `ORDER BY id DESC LIMIT ?`
unfoldable pub list : ℕ → Db → List AuditEvent
list limit db = take limit (reverse db.audit_events)
