-- ===== src/ZkIdentity/Backup.antt =====
-- The backup methods of services/zkIdentity.
use crypt_keeper_extension.Prelude.{String, Option, none, some}
use crypt_keeper_extension.JsMap
use crypt_keeper_extension.Env.{Env}
use crypt_keeper_extension.Exec.{M, pure, ◌>>=◌, ◌>>◌, gets, or_throw}
use crypt_keeper_extension.SimpleStorage.{identities_key}
use crypt_keeper_extension.Crypto.{mnemonic, BackupData}
use crypt_keeper_extension.Backupable
use crypt_keeper_extension.ZkIdentity.{load_identities, write_identities, unlock, refresh}

unfoldable pub download_storage : M (Option String)
download_storage = Backupable.download_storage identities_key

unfoldable pub restore_storage : Option BackupData → M Unit
restore_storage =
    Backupable.restore_storage identities_key "Incorrect restore format for identities"

module _ (env : Env) where
  unfoldable pub download_encrypted_storage : String → M (Option String)
  download_encrypted_storage backup_password =
      Backupable.download_encrypted_storage env identities_key mnemonic backup_password

  merge_backup : String → BackupData → M Unit
  merge_backup backup_password data_given = do
    backup ←
        Backupable.open_backup env "Incorrect backup format for identities" data_given
          backup_password
    load_identities env
    entries ← or_throw (env.json_entries.parse backup) "Unexpected token in JSON"
    identities ← gets (λ s. s.identities)
    write_identities env (JsMap.set_all identities (JsMap.of_entries entries))
    unlock env
    refresh env

  upload_given : String → Option BackupData → M Unit
  unfolding merge_backup
  upload_given backup_password none = pure tt
  upload_given backup_password (some d) = merge_backup backup_password d

  unfoldable pub upload_encrypted_storage : Option BackupData → String → M Unit
  unfolding upload_given
  upload_encrypted_storage d backup_password = upload_given backup_password (Backupable.given d)
