-- ===== src/SimpleStorage.antt =====
-- services/storage: one key of `browser.storage.sync`. The browser's calls are taken to succeed.
pub mod Laws
use crypt_keeper_extension.Prelude.{String, Option, none}
use crypt_keeper_extension.State.{Ext, Storage}
use crypt_keeper_extension.Exec.{M, ok}

-- The keys whose values are strings, one for each `new SimpleStorage(…)`.
pub data StoreKey : Type 0 where
  password_key mnemonic_key accounts_key selected_account_key approvals_key : StoreKey
  identities_key connections_key credentials_key history_key history_settings_key : StoreKey

unfoldable pub read : StoreKey → Storage → Option String
read password_key t = t.password
read mnemonic_key t = t.mnemonic
read accounts_key t = t.accounts
read selected_account_key t = t.selected_account
read approvals_key t = t.approvals
read identities_key t = t.identities
read connections_key t = t.connections
read credentials_key t = t.credentials
read history_key t = t.history
read history_settings_key t = t.history_settings

unfoldable pub write : StoreKey → Option String → Storage → Storage
write password_key v t = record t { password = v }
write mnemonic_key v t = record t { mnemonic = v }
write accounts_key v t = record t { accounts = v }
write selected_account_key v t = record t { selected_account = v }
write approvals_key v t = record t { approvals = v }
write identities_key v t = record t { identities = v }
write connections_key v t = record t { connections = v }
write credentials_key v t = record t { credentials = v }
write history_key v t = record t { history = v }
write history_settings_key v t = record t { history_settings = v }

unfoldable pub get : StoreKey → M (Option String)
unfolding read
get k s = let r = read k s.storage in (ok r, s)

-- `set(null)` makes the next `get` give null.
unfoldable pub set : StoreKey → Option String → M Unit
unfolding write
set k v s = (ok tt, record s { storage = write k v s.storage })

unfoldable pub clear : StoreKey → M Unit
unfolding write
clear k s = (ok tt, record s { storage = write k none s.storage })
