-- ===== src/Backup.antt =====
-- services/backup: one file with the backups of several services, and its way back, which is undone
-- if it fails.
pub mod Rollback
use crypt_keeper_extension.Prelude.{
  String, Bool, true, false, not, ◌&&◌, Option, none, some, List, [], ◌∷◌, filter, length, eqb, leb,
  is_some, any, ◌==◌, if◌then◌else◌,
}
use crypt_keeper_extension.Prelude.Codec.{Codec}
use crypt_keeper_extension.Prelude.Text.{◌⧺◌}
use crypt_keeper_extension.Types
use crypt_keeper_extension.Types.{step_number}
use crypt_keeper_extension.JsMap
use crypt_keeper_extension.JsMap.{JsMap}
use crypt_keeper_extension.State.{upload_backup_page, onboarding_backup_page}
use crypt_keeper_extension.Env.{Env}
use crypt_keeper_extension.Exec.{
  M, Result, ok, err, pure, throw, attempt, ◌>>=◌, ◌>>◌, require, or_throw, when,
}
use crypt_keeper_extension.Crypto
use crypt_keeper_extension.Crypto.{BackupData, text}
use crypt_keeper_extension.Browser
use crypt_keeper_extension.History
use crypt_keeper_extension.Misc
use crypt_keeper_extension.Lock
use crypt_keeper_extension.Wallet.Backup as WalletBackup
use crypt_keeper_extension.Approval
use crypt_keeper_extension.ZkIdentity.Backup as IdentityBackup
use crypt_keeper_extension.Credentials.Backup as CredentialsBackup
use crypt_keeper_extension.Connection
use crypt_keeper_extension.Backupable

-- The services that have the four methods of `IBackupable`.
pub data Service : Type 0 where
  lock_service wallet_service approval_service identity_service : Service
  credentials_service connection_service : Service

-- The private map of the service, and what its methods make of it.
abbrev pub Backupables : Type 0
Backupables = JsMap Service

unfoldable pub add : String → Service → Backupables → Backupables
add key service backupables = JsMap.set key service backupables

unfoldable pub remove : String → Backupables → Backupables
remove key backupables = JsMap.delete key backupables

unfoldable pub clear : Backupables → Backupables
clear backupables = []

-- The services that the constructor of the controller adds, in its order.
unfoldable pub registered : Backupables
unfolding add JsMap.set
registered = add "connections" connection_service (
    add "credentials" credentials_service (
      add "identity" identity_service (
        add "approval" approval_service
          (add "wallet" wallet_service (add "lock" lock_service [])))))

-- `JSON` at a file of backups, of which each is null, a text or a record of texts, and
-- `encodeURIComponent`. A text that is no such file does not parse.
pub record BackupApi : Type 0 where
  pub json_backup : Codec (JsMap (Option BackupData))
  pub encode_uri_component : String → String

abbrev pub some_text : Option String → Option BackupData
some_text none = none
some_text (some t) = some (text t)

as_data : M (Option String) → M (Option BackupData)
as_data m = do found ← m; pure (some_text found)

unfoldable pub download_storage : Service → M (Option BackupData)
unfolding as_data Lock.download_storage WalletBackup.download_storage Approval.download_storage
    IdentityBackup.download_storage CredentialsBackup.download_storage Connection.download_storage
download_storage lock_service = as_data Lock.download_storage
download_storage wallet_service = WalletBackup.download_storage
download_storage approval_service = as_data Approval.download_storage
download_storage identity_service = as_data IdentityBackup.download_storage
download_storage credentials_service = as_data CredentialsBackup.download_storage
download_storage connection_service = as_data Connection.download_storage

unfoldable pub restore_storage : Service → Option BackupData → M Unit
unfolding Lock.restore_storage Approval.restore_storage IdentityBackup.restore_storage
    CredentialsBackup.restore_storage Connection.restore_storage
restore_storage lock_service = Lock.restore_storage
restore_storage wallet_service = WalletBackup.restore_storage
restore_storage approval_service = Approval.restore_storage
restore_storage identity_service = IdentityBackup.restore_storage
restore_storage credentials_service = CredentialsBackup.restore_storage
restore_storage connection_service = Connection.restore_storage

module _ (env : Env) where
  unfoldable pub download_encrypted_storage : Service → String → M (Option BackupData)
  unfolding as_data
  download_encrypted_storage lock_service p = as_data (Lock.download_encrypted_storage env p)
  download_encrypted_storage wallet_service p = WalletBackup.download_encrypted_storage env p
  download_encrypted_storage approval_service p =
      as_data (Approval.download_encrypted_storage env p)
  download_encrypted_storage identity_service p =
      as_data (IdentityBackup.download_encrypted_storage env p)
  download_encrypted_storage credentials_service p =
      as_data (CredentialsBackup.download_encrypted_storage env p)
  download_encrypted_storage connection_service p =
      as_data (Connection.download_encrypted_storage env p)

  unfoldable pub upload_encrypted_storage : Service → Option BackupData → String → M Unit
  upload_encrypted_storage lock_service = Lock.upload_encrypted_storage env
  upload_encrypted_storage wallet_service = WalletBackup.upload_encrypted_storage env
  upload_encrypted_storage approval_service = Approval.upload_encrypted_storage env
  upload_encrypted_storage identity_service = IdentityBackup.upload_encrypted_storage env
  upload_encrypted_storage credentials_service = CredentialsBackup.upload_encrypted_storage env
  upload_encrypted_storage connection_service = Connection.upload_encrypted_storage env

unfoldable pub create_upload_backup_request : M Unit
create_upload_backup_request = do Browser.open_popup upload_backup_page; pure tt

unfoldable pub create_onboarding_backup_request : M Unit
create_onboarding_backup_request = do Browser.open_popup onboarding_backup_page; pure tt

-- `saveRestoreData`
unfoldable pub save_restore_data : Backupables → M (JsMap (Option BackupData))
unfolding download_storage
save_restore_data [] = pure []
save_restore_data ((key, service) ∷ rest) = do
  found ← download_storage service
  others ← save_restore_data rest
  pure ((key, found) ∷ others)

restore_at : Option Service → Option BackupData → M Unit
restore_at none found = pure tt
restore_at (some service) found = restore_storage service found

unfoldable pub rollback : Backupables → JsMap (Option BackupData) → M Unit
unfolding restore_at restore_storage
rollback backupables [] = pure tt
rollback backupables ((key, found) ∷ rest) = do
  restore_at (JsMap.get key backupables) found
  rollback backupables rest

-- `data[key]`, where a missing key and null count alike.
abbrev pub field : String → JsMap (Option BackupData) → Option BackupData
field key content = elim (JsMap.get key content) [ none ↦ none | some found ↦ found ]

-- Neither LOCK nor WALLET.
abbrev pub is_other : String × Option BackupData → Bool
is_other entry = not (entry.0 == "lock") && not (entry.0 == "wallet")

-- How the `try` of `upload` ends, and the uploads that are still running then.
abbrev pub Outcome : Type 0
Outcome = Result Unit × JsMap (Option BackupData)

abbrev go_on : Result Unit → JsMap (Option BackupData) → M Outcome → M Outcome
go_on (err e) running others = pure (err e, running)
go_on (ok a) running others = others

module _ (env : Env) where
  download_all : Backupables → String → M (JsMap (Option BackupData))
  unfolding download_encrypted_storage
  download_all [] p = pure []
  download_all ((key, service) ∷ rest) p = do
    found ← download_encrypted_storage env service p
    others ← download_all rest p
    pure ((key, found) ∷ others)

  unfoldable pub download : BackupApi → Backupables → String → M String
  unfolding download_all
  download api backupables p = do
    Crypto.is_authentic_password p
    prepared ← download_all backupables p
    History.track_operation env Types.download_backup History.no_options
    Browser.notify "Backup download" "Backup data has been successfully downloaded"
    pure (
        "data:application/json;charset=utf-8,"
        ⧺ api.encode_uri_component (api.json_backup.stringify prepared))

  -- `backupables.get(key)?.uploadEncryptedStorage(…)`
  upload_at : Option Service → Option BackupData → String → M Unit
  unfolding upload_encrypted_storage
  upload_at none found p = pure tt
  upload_at (some service) found p = upload_encrypted_storage env service found p

  -- `value && …`
  upload_present : Option Service → Option BackupData → String → M Unit
  unfolding upload_at
  upload_present service none p = pure tt
  upload_present service (some d) p = upload_at service (some d) p

  -- `Promise.all` of the uploads, in the order of the file. It fails with the first of them that
  -- fails, while those after it are still running.
  upload_others : Backupables → JsMap (Option BackupData) → String → M Outcome
  unfolding upload_present
  upload_others backupables [] p = pure (ok tt, [])
  upload_others backupables ((key, found) ∷ rest) p = do
    answer ← attempt (upload_present (JsMap.get key backupables) (Backupable.given found) p)
    go_on answer rest (upload_others backupables rest p)

  -- The uploads that are still running run to their end, and nobody reads their errors.
  unfoldable pub late_uploads : Backupables → JsMap (Option BackupData) → String → M Unit
  unfolding upload_present
  late_uploads backupables [] p = pure tt
  late_uploads backupables ((key, found) ∷ rest) p = do
    attempt (upload_present (JsMap.get key backupables) (Backupable.given found) p)
    late_uploads backupables rest p

  upload_first : Backupables → JsMap (Option BackupData) → String → M Unit
  unfolding upload_at
  upload_first backupables content p = do
    upload_at (JsMap.get "lock" backupables) (field "lock" content) p
    upload_at (JsMap.get "wallet" backupables) (field "wallet" content) p

  completed : Outcome → M Outcome
  completed (err e, running) = pure (err e, running)
  completed (ok a, running) = do Misc.set_initialization Types.mnemonic; pure (ok tt, [])

  -- The `try` of `upload`.
  unfoldable pub upload_all :
      Backupables → JsMap (Option BackupData) → JsMap (Option BackupData) → String → M Outcome
  unfolding upload_first upload_others completed
  upload_all backupables content entries p = do
    answer ← attempt (upload_first backupables content p)
    go_on answer []
        (do outcome ← upload_others backupables (filter is_other entries) p; completed outcome)

  -- Its `catch`; the uploads that are still running write after it.
  unfoldable pub undo :
      Backupables
      → JsMap (Option BackupData)
      → Bool
      → JsMap (Option BackupData)
      → String
      → String
      → M Unit
  undo backupables restore_data is_backup_install running p error = do
    rollback backupables restore_data
    when is_backup_install (do Misc.set_initialization Types.new; Crypto.clear)
    late_uploads backupables running p
    throw error

  abbrev pub recover : Backupables → JsMap (Option BackupData) → Bool → String → Outcome → M Unit
  recover backupables restore_data is_backup_install p (ok a, running) = pure tt
  recover backupables restore_data is_backup_install p (err e, running) =
      undo backupables restore_data is_backup_install running p e

  abbrev pub known_entries : Backupables → JsMap (Option BackupData) → JsMap (Option BackupData)
  known_entries backupables content = filter (λ entry. JsMap.has entry.0 backupables) content

  abbrev pub is_complete : Backupables → JsMap (Option BackupData) → Bool
  is_complete backupables content =
      not (eqb (length (known_entries backupables content)) 0)
      && is_some (Backupable.given (field "lock" content))
      && is_some (Backupable.given (field "wallet" content))

  -- The end of `upload`.
  unfoldable pub finish : M Bool
  finish = do
    History.load_settings env
    History.track_operation env Types.upload_backup History.no_options
    Browser.notify "Backup upload" "Backup data has been successfully uploaded"
    pure true

  unfoldable pub upload : BackupApi → Backupables → String → String → String → M Bool
  unfolding finish
  upload api backupables content password backup_password = do
    step ← Misc.get_initialization
    when (not (leb (step_number step) 0)) (do Crypto.is_authentic_password password; pure tt)
    parsed ← or_throw (api.json_backup.parse content) "Unexpected token in JSON"
    require (is_complete backupables parsed) "File content is corrupted"
    restore_data ← save_restore_data backupables
    outcome ← upload_all backupables parsed (known_entries backupables parsed) backup_password
    recover backupables restore_data (leb (step_number step) 0) backup_password outcome
    finish
