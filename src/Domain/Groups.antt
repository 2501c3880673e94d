-- ===== src/Domain/Groups.antt =====
-- src/domain/groups.ts: destinations, as stored and as discovered.
use whatsapp_bot.Base.{ℕ, Text, Bool, Option}

pub record Destination : Type 0 where
  pub jid : Text
  pub subject : Text
  pub description : Option Text
  pub owner_jid : Option Text
  pub participant_count : Option ℕ
  pub addressing_mode : Option Text
  pub alias : Option Text
  pub enabled : Bool
  pub can_send : Bool
  pub created_at : ℕ
  pub updated_at : ℕ
  pub last_refreshed_at : ℕ

-- An absent `canSend` is `none`.
pub record DiscoveredDestination : Type 0 where
  pub jid : Text
  pub subject : Text
  pub description : Option Text
  pub owner_jid : Option Text
  pub participant_count : Option ℕ
  pub addressing_mode : Option Text
  pub can_send : Option Bool
