-- ===== src/Game/Accounts.antt =====
-- internal/game/manager.go: the account that `Attach` records before it opens a save.
use ssh_idlefarmer.Prelude.Tables.{string_key}
use ssh_idlefarmer.Store.Rows.{save_key, Store}
use ssh_idlefarmer.Prelude.{suc, suc, inr, inr}
use ssh_idlefarmer.Content.{Content}
