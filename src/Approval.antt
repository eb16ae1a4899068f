-- ===== src/Approval.antt =====
-- services/approval: the hosts that the user has approved, kept in memory and, encrypted, in
-- storage.
pub mod Persist
pub mod Permissions
pub mod Restore
use crypt_keeper_extension.Prelude.{
  String, Bool, true, false, Option, none, some, List, [], map, present, is_some, filter,
  if◌then◌else◌,
}
use crypt_keeper_extension.Types.{HostPermission}
use crypt_keeper_extension.JsMap
use crypt_keeper_extension.JsMap.{JsMap}
use crypt_keeper_extension.State
use crypt_keeper_extension.Env.{Env}
use crypt_keeper_extension.Exec.{M, pure, ◌>>=◌, ◌>>◌, gets, modify, require, or_throw, when}
use crypt_keeper_extension.SimpleStorage
use crypt_keeper_extension.SimpleStorage.{approvals_key}
use crypt_keeper_extension.Crypto
use crypt_keeper_extension.Crypto.{mnemonic, BackupData}
use crypt_keeper_extension.Base
use crypt_keeper_extension.Base.{approval}
use crypt_keeper_extension.Browser
use crypt_keeper_extension.Backupable

unfoldable pub get_allowed_hosts : M (List String)
get_allowed_hosts = gets (λ s. map (λ e. e.0) (filter (λ e. e.1.can_skip_approve) s.allowed_hosts))

unfoldable pub is_approved : String → M Bool
is_approved url_origin = gets (λ s. JsMap.has url_origin s.allowed_hosts)

-- `Boolean(permission?.canSkipApprove)`
abbrev pub skips : Option HostPermission → Bool
skips none = false
skips (some p) = p.can_skip_approve

unfoldable pub can_skip_approve : String → M Bool
can_skip_approve url_origin = gets (λ s. skips (JsMap.get url_origin s.allowed_hosts))

-- The payload of a request is passed on as it came.
unfoldable pub is_origin_approved : {P : Type 0} → P → Option String → M P
unfolding is_approved
is_origin_approved payload url_origin = do
  origin ← or_throw (present url_origin) "CryptKeeper: origin is not set"
  approved ← is_approved origin
  require approved "CryptKeeper: origin is not approved"
  pure payload

-- `onClean`
unfoldable pub on_clean : M Unit
on_clean = modify (λ s. record s { allowed_hosts = [] })

unfoldable pub lock : M Bool
unfolding on_clean
lock = Base.on_lock approval on_clean

unfoldable pub get_permission : String → M HostPermission
get_permission url_origin = gets (λ s. record {
  url_origin = url_origin;
  can_skip_approve = skips (JsMap.get url_origin s.allowed_hosts);
})

module _ (env : Env) where
  unfoldable pub load_from : Option String → M Unit
  load_from none = pure tt
  load_from (some encrypted) = do
    decrypted ← Crypto.decrypt env encrypted none mnemonic
    entries ← or_throw (env.json_hosts.parse decrypted) "Unexpected token in JSON"
    modify (λ s. record s { allowed_hosts = JsMap.of_entries entries })

  unfoldable pub unlock : M Bool
  unfolding load_from
  unlock = do
    encrypted ← SimpleStorage.get approvals_key
    load_from (present encrypted)
    Base.set_unlocked approval
    Base.on_unlocked approval
    pure true

  unfoldable pub save : M Unit
  save = do
    hosts ← gets (λ s. s.allowed_hosts)
    ciphertext ← Crypto.encrypt env (env.json_hosts.stringify hosts) none mnemonic
    SimpleStorage.set approvals_key (some ciphertext)

  unfoldable pub set_permission : HostPermission → M HostPermission
  unfolding save
  set_permission p = do
    modify (λ s. record s { allowed_hosts = JsMap.set p.url_origin p s.allowed_hosts })
    save
    pure p

  add_new : HostPermission → M Unit
  unfolding save
  add_new p = do
    modify (λ s. record s { allowed_hosts = JsMap.set p.url_origin p s.allowed_hosts })
    save
    Browser.push_event (State.approval true p.url_origin) (some p.url_origin)
    Browser.close_popup
    pure tt

  unfoldable pub add : HostPermission → M Unit
  unfolding add_new
  add p = do
    known ← gets (λ s. is_some (JsMap.get p.url_origin s.allowed_hosts))
    if known then pure tt else add_new p

  remove_known : String → M Unit
  unfolding save
  remove_known url_origin = do
    modify (λ s. record s { allowed_hosts = JsMap.delete url_origin s.allowed_hosts })
    save
    Browser.push_event (State.approval false url_origin) (some url_origin)
    Browser.close_popup
    pure tt

  unfoldable pub remove : String → M Unit
  unfolding remove_known
  remove url_origin = do
    known ← gets (λ s. JsMap.has url_origin s.allowed_hosts)
    if known then remove_known url_origin else pure tt

  merge_backup : String → BackupData → M Unit
  unfolding unlock save
  merge_backup backup_password data_given = do
    backup ←
        Backupable.open_backup env "Incorrect backup format for approvals" data_given
          backup_password
    unlock
    entries ← or_throw (env.json_hosts.parse backup) "Unexpected token in JSON"
    modify
        (λ s. record s { allowed_hosts = JsMap.set_all s.allowed_hosts (JsMap.of_entries entries) })
    save

  upload_given : String → Option BackupData → M Unit
  unfolding merge_backup
  upload_given backup_password none = pure tt
  upload_given backup_password (some d) = merge_backup backup_password d

  unfoldable pub upload_encrypted_storage : Option BackupData → String → M Unit
  unfolding upload_given
  upload_encrypted_storage d backup_password = upload_given backup_password (Backupable.given d)

  unfoldable pub download_encrypted_storage : String → M (Option String)
  download_encrypted_storage backup_password =
      Backupable.download_encrypted_storage env approvals_key mnemonic backup_password

-- dev only: the argument says whether `NODE_ENV` is "development" or "test"
unfoldable pub clear : Bool → M Unit
clear is_dev =
    when is_dev
      (do modify (λ s. record s { allowed_hosts = [] }); SimpleStorage.clear approvals_key)

unfoldable pub download_storage : M (Option String)
download_storage = Backupable.download_storage approvals_key

unfoldable pub restore_storage : Option BackupData → M Unit
restore_storage = Backupable.restore_storage approvals_key "Incorrect restore format for approvals"
