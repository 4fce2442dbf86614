-- ===== src/Outbox/Examples.antt =====
-- The theorems on the queue with an old database to import.
use nur_chat.Prelude.{true, false, none, [], ◌∷◌}
use nur_chat.Text.{codes}
use nur_chat.Outbox.{Store, LegacyEntry}

abbrev old_row : LegacyEntry
old_row = record {
  id = none;
  chat_id = codes "c";
  text = codes "old";
  reply_to_id = none;
  expires_at = none;
  created_at = none;
  attempts = none;
}

abbrev store : Store
store = record {
  stored = none;
  key = 0;
  is_open = true;
  legacy = old_row ∷ [];
  legacy_migrated = false;
}
