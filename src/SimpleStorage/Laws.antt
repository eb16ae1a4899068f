-- ===== src/SimpleStorage/Laws.antt =====
-- A key holds what was last written to it.
use crypt_keeper_extension.Prelude.{String, ◌≡◌, refl, Option}
use crypt_keeper_extension.State.{Storage}
use crypt_keeper_extension.SimpleStorage.{
  StoreKey, password_key, mnemonic_key, accounts_key, selected_account_key, approvals_key,
  identities_key, connections_key, credentials_key, history_key, history_settings_key, read, write,
}

pub read-write : (k : StoreKey) (v : Option String) (t : Storage) → read k (write k v t) ≡ v
unfolding read write
read-write password_key v t = refl
read-write mnemonic_key v t = refl
read-write accounts_key v t = refl
read-write selected_account_key v t = refl
read-write approvals_key v t = refl
read-write identities_key v t = refl
read-write connections_key v t = refl
read-write credentials_key v t = refl
read-write history_key v t = refl
read-write history_settings_key v t = refl
