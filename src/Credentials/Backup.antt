-- ===== src/Credentials/Backup.antt =====
-- The backup methods of services/credentials.
use crypt_keeper_extension.Prelude.{String, Option, none, some}
use crypt_keeper_extension.JsMap
use crypt_keeper_extension.Env.{Env}
use crypt_keeper_extension.Exec.{M, pure, ◌>>=◌, or_throw}
use crypt_keeper_extension.SimpleStorage.{credentials_key}
use crypt_keeper_extension.Crypto.{mnemonic, BackupData}
use crypt_keeper_extension.Backupable
use crypt_keeper_extension.Credentials.{get_from_store, write_store}

unfoldable pub download_storage : M (Option String)
download_storage = Backupable.download_storage credentials_key

unfoldable pub restore_storage : Option BackupData → M Unit
restore_storage =
    Backupable.restore_storage credentials_key "Incorrect restore format for credentials"

module _ (env : Env) where
  unfoldable pub download_encrypted_storage : String → M (Option String)
  download_encrypted_storage backup_password =
      Backupable.download_encrypted_storage env credentials_key mnemonic backup_password

  merge_backup : String → BackupData → M Unit
  unfolding get_from_store write_store
  merge_backup backup_password data_given = do
    backup ←
        Backupable.open_backup env "Incorrect backup format for credentials" data_given
          backup_password
    entries ← or_throw (env.json_entries.parse backup) "Unexpected token in JSON"
    credentials ← get_from_store env
    write_store env (JsMap.set_all credentials (JsMap.of_entries entries))

  upload_given : String → Option BackupData → M Unit
  unfolding merge_backup
  upload_given backup_password none = pure tt
  upload_given backup_password (some d) = merge_backup backup_password d

  unfoldable pub upload_encrypted_storage : Option BackupData → String → M Unit
  unfolding upload_given
  upload_encrypted_storage d backup_password = upload_given backup_password (Backupable.given d)
