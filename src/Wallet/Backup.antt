-- ===== src/Wallet/Backup.antt =====
-- The backup methods of services/wallet: the accounts and the mnemonic together.
use crypt_keeper_extension.Prelude.{
  String, Option, none, some, [], ◌∷◌, ◌++◌, present, truthy, if◌then◌else◌,
}
use crypt_keeper_extension.JsMap
use crypt_keeper_extension.Types
use crypt_keeper_extension.Env.{Env}
use crypt_keeper_extension.Exec.{M, pure, throw, ◌>>=◌, ◌>>◌, or_throw}
use crypt_keeper_extension.SimpleStorage
use crypt_keeper_extension.SimpleStorage.{accounts_key, mnemonic_key}
use crypt_keeper_extension.Crypto
use crypt_keeper_extension.Crypto.{CryptMode, password, mnemonic, BackupData, text, fields}
use crypt_keeper_extension.Misc
use crypt_keeper_extension.Backupable
use crypt_keeper_extension.Wallet.{
  uniq_by_key, read_accounts, get_mnemonic, change_mnemonic_password,
}

-- `{ accounts, mnemonic }`
abbrev pub both_fields : String → String → BackupData
both_fields stored_accounts stored_mnemonic =
    fields (("accounts", stored_accounts) ∷ ("mnemonic", stored_mnemonic) ∷ [])

abbrev pub stored_pair : Option String → Option String → Option BackupData
stored_pair none m = none
stored_pair (some a) none = none
stored_pair (some a) (some m) = some (both_fields a m)

unfoldable pub download_storage : M (Option BackupData)
download_storage = do
  stored_accounts ← SimpleStorage.get accounts_key
  stored_mnemonic ← SimpleStorage.get mnemonic_key
  pure (stored_pair (present stored_accounts) (present stored_mnemonic))

unfoldable pub restore_storage : Option BackupData → M Unit
restore_storage none = do SimpleStorage.set mnemonic_key none; SimpleStorage.set accounts_key none
restore_storage (some (text t)) = throw "Incorrect restore format for wallet"
restore_storage (some (fields entries)) = do
  SimpleStorage.set mnemonic_key (JsMap.get "mnemonic" entries)
  SimpleStorage.set accounts_key (JsMap.get "accounts" entries)

module _ (env : Env) where
  encrypt_pair : String → Option String → Option String → M (Option BackupData)
  encrypt_pair backup_password none m = pure none
  encrypt_pair backup_password (some a) none = pure none
  encrypt_pair backup_password (some a) (some m) = do
    backup_accounts ← Crypto.decrypt env a none mnemonic
    backup_mnemonic ← Crypto.decrypt env m none password
    encrypted_accounts ← Crypto.encrypt env backup_accounts (some backup_password) password
    encrypted_mnemonic ← Crypto.encrypt env backup_mnemonic (some backup_password) password
    authentic_accounts ← Crypto.generate_encrypted_hmac env encrypted_accounts backup_password
    authentic_mnemonic ← Crypto.generate_encrypted_hmac env encrypted_mnemonic backup_password
    pure (some (both_fields authentic_accounts authentic_mnemonic))

  unfoldable pub download_encrypted_storage : String → M (Option BackupData)
  unfolding encrypt_pair
  download_encrypted_storage backup_password = do
    stored_accounts ← SimpleStorage.get accounts_key
    stored_mnemonic ← SimpleStorage.get mnemonic_key
    encrypt_pair backup_password (present stored_accounts) (present stored_mnemonic)

  -- The mnemonic of the backup becomes that of the wallet, if the wallet has none.
  adopt_mnemonic : String → String → String → M Unit
  adopt_mnemonic backup_password new_mnemonic old = if truthy old then pure tt else (do
    change_mnemonic_password env new_mnemonic backup_password
    Crypto.set_mnemonic env new_mnemonic
    Misc.set_initialization Types.mnemonic)

  -- A field that the backup does not have is `undefined`, which `AES.decrypt` does not take.
  merge_pair : String → Option String → Option String → M Unit
  unfolding adopt_mnemonic
  merge_pair backup_password a m = do
    given_accounts ← or_throw a "Cannot read properties of undefined"
    plain_accounts ← Crypto.decrypt env given_accounts (some backup_password) password
    new_accounts ← or_throw (env.json_accounts.parse plain_accounts) "Unexpected token in JSON"
    given_mnemonic ← or_throw m "Cannot read properties of undefined"
    new_mnemonic ← Crypto.decrypt env given_mnemonic (some backup_password) password
    old ← get_mnemonic env
    encrypted ← SimpleStorage.get accounts_key
    accounts ← read_accounts env (present encrypted) none mnemonic
    merged ←
        Crypto.encrypt env (env.json_accounts.stringify (uniq_by_key [] (accounts ++ new_accounts)))
          (some (if truthy old then old else new_mnemonic)) mnemonic
    SimpleStorage.set accounts_key (some merged)
    adopt_mnemonic backup_password new_mnemonic old

  merge_fields : String → BackupData → M Unit
  unfolding merge_pair
  merge_fields backup_password (text t) = throw "Incorrect backup format for wallet"
  merge_fields backup_password (fields entries) =
      merge_pair backup_password (JsMap.get "accounts" entries) (JsMap.get "mnemonic" entries)

  upload_given : String → Option BackupData → M Unit
  unfolding merge_fields
  upload_given backup_password none = pure tt
  upload_given backup_password (some d) = do
    authentic ← Crypto.get_authentic_backup env d backup_password
    merge_fields backup_password authentic

  unfoldable pub upload_encrypted_storage : Option BackupData → String → M Unit
  unfolding upload_given
  upload_encrypted_storage d backup_password = upload_given backup_password (Backupable.given d)
