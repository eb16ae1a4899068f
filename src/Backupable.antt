-- ===== src/Backupable.antt =====
-- The four methods of `IBackupable` as the services write them, over the key that each one owns.
pub mod Laws
pub mod Reading
use crypt_keeper_extension.Prelude.{String, Option, none, some, present, truthy, if◌then◌else◌}
use crypt_keeper_extension.Env.{Env}
use crypt_keeper_extension.Exec.{M, pure, throw, ◌>>=◌}
use crypt_keeper_extension.SimpleStorage
use crypt_keeper_extension.SimpleStorage.{StoreKey}
use crypt_keeper_extension.Crypto
use crypt_keeper_extension.Crypto.{CryptMode, password, BackupData, text, fields}

unfoldable pub download_storage : StoreKey → M (Option String)
download_storage key = SimpleStorage.get key

-- `if (data && typeof data !== "string") { throw … }`, and the write
unfoldable pub restore_storage : StoreKey → String → Option BackupData → M Unit
restore_storage key message none = SimpleStorage.set key none
restore_storage key message (some (text t)) = SimpleStorage.set key (some t)
restore_storage key message (some (fields entries)) = throw message

-- `!backupEncryptedData`
abbrev pub given : Option BackupData → Option BackupData
given none = none
given (some (text t)) = if truthy t then some (text t) else none
given (some (fields entries)) = some (fields entries)

-- `typeof encryptedBackup !== "string"`
abbrev pub only_text : String → BackupData → M String
only_text message (text t) = pure t
only_text message (fields entries) = throw message

module _ (env : Env) where
  encrypt_backup : CryptMode → String → Option String → M (Option String)
  encrypt_backup mode backup_password none = pure none
  encrypt_backup mode backup_password (some stored) = do
    backup ← Crypto.decrypt env stored none mode
    encrypted ← Crypto.encrypt env backup (some backup_password) password
    authentic ← Crypto.generate_encrypted_hmac env encrypted backup_password
    pure (some authentic)

  unfoldable pub download_encrypted_storage : StoreKey → CryptMode → String → M (Option String)
  unfolding encrypt_backup
  download_encrypted_storage key mode backup_password = do
    stored ← SimpleStorage.get key
    encrypt_backup mode backup_password (present stored)

  -- The start of `uploadEncryptedStorage`: the text of an authentic backup.
  unfoldable pub open_backup : String → BackupData → String → M String
  open_backup message backup backup_password = do
    authentic ← Crypto.get_authentic_backup env backup backup_password
    encrypted ← only_text message authentic
    Crypto.decrypt env encrypted (some backup_password) password
