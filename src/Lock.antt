-- ===== src/Lock.antt =====
-- services/lock: the password, and locking and unlocking.
pub mod Unlocking
use crypt_keeper_extension.Prelude.{
  String, Bool, true, false, not, ◌||◌, Option, none, some, present, is_some, leb, if◌then◌else◌,
  ◌==◌,
}
use crypt_keeper_extension.Types
use crypt_keeper_extension.Types.{LockStatus, step_number}
use crypt_keeper_extension.State
use crypt_keeper_extension.State.{Ext}
use crypt_keeper_extension.Env.{Env}
use crypt_keeper_extension.Exec.{M, pure, throw, ◌>>=◌, ◌>>◌, catch, gets, require, when, send}
use crypt_keeper_extension.SimpleStorage
use crypt_keeper_extension.SimpleStorage.{password_key}
use crypt_keeper_extension.Crypto
use crypt_keeper_extension.Crypto.{password, BackupData}
use crypt_keeper_extension.Base
use crypt_keeper_extension.Base.{locker}
use crypt_keeper_extension.Browser
use crypt_keeper_extension.History
use crypt_keeper_extension.Misc
use crypt_keeper_extension.Wallet
use crypt_keeper_extension.Backupable

abbrev pub password_checker : String
password_checker = "Password is correct"

unfoldable pub get_status : M LockStatus
get_status = do
  ciphertext ← SimpleStorage.get password_key
  step ← Misc.get_initialization
  unlocked ← gets (λ s. s.locker.is_unlocked)
  pure (record {
    is_initialized = is_some (present ciphertext) || leb 1 (step_number step);
    is_unlocked = unlocked;
    is_mnemonic_generated = leb 2 (step_number step);
  })

-- The message to the popup's store; the same one goes to the active tabs.
unfoldable pub notify_status_change : M LockStatus
unfolding get_status
notify_status_change = do status ← get_status; send (State.set_status status); pure status

internal_lock : M Unit
unfolding notify_status_change
internal_lock = do Crypto.clear; notify_status_change; pure tt

unfoldable pub lock : M Bool
unfolding internal_lock
lock = Base.on_lock locker internal_lock

unfoldable pub check_password : String → M Bool
check_password p = Crypto.is_authentic_password p

-- The middleware in front of most handlers: `none` stands for the payload `false`.
unfoldable pub ensure : {P : Type 0} → P → M (Option P)
ensure payload = gets (λ s. if s.locker.is_unlocked then some payload else none)

unfoldable pub is_new_onboarding : M Bool
is_new_onboarding = do
  ciphertext ← SimpleStorage.get password_key
  pure (not (is_some (present ciphertext)))

module _ (env : Env) where
  unfoldable pub write_password : String → M Unit
  write_password p = do
    ciphertext ← Crypto.encrypt env password_checker (some p) password
    SimpleStorage.set password_key (some ciphertext)

  checks_out : String → Option String → M Bool
  checks_out p none = pure false
  checks_out p (some ciphertext) = do
    decrypted ← Crypto.decrypt env ciphertext (some p) password
    pure (decrypted == password_checker)

  unfoldable pub is_locker_password_authentic : String → M Bool
  unfolding checks_out
  is_locker_password_authentic p = do
    ciphertext ← SimpleStorage.get password_key
    checks_out p (present ciphertext)

  unfoldable pub is_authentic : String → Bool → M Bool
  unfolding is_locker_password_authentic is_new_onboarding
  is_authentic p is_backup_available = do
    authentic ← is_locker_password_authentic p
    is_new ← is_new_onboarding
    require (is_new || authentic) "Incorrect password"
    require (not is_new || is_backup_available)
        "Something badly gone wrong (reinstallation probably required)"
    pure is_new

  -- `getMnemonic().then(setMnemonic)`, which nothing awaits and whose error nothing reads. The
  -- browser answers its one storage read before the reads that come later, so it is run in place.
  unfoldable pub recall_mnemonic : M Unit
  recall_mnemonic = catch (do m ← Wallet.get_mnemonic env; Crypto.set_mnemonic env m) (λ _. pure tt)

  -- The chain of promises of `unlock`, up to its `catch`.
  unlock_chain : String → Bool → Bool → M Unit
  unfolding is_authentic recall_mnemonic notify_status_change
  unlock_chain p notify is_mnemonic_generated = do
    is_authentic p false
    when is_mnemonic_generated recall_mnemonic
    Base.set_unlocked locker
    when notify (do notify_status_change; pure tt)
    Base.on_unlocked locker
    pure tt

  unfoldable pub unlock : String → Bool → M Bool
  unfolding get_status unlock_chain
  unlock p notify = do
    status ← get_status
    Crypto.set_password p
    catch (unlock_chain p notify status.is_mnemonic_generated) (λ e. do Crypto.clear; throw e)
    pure true

  unfoldable pub setup_password : String → Bool → M Unit
  unfolding write_password
  setup_password p notify = do
    stored ← SimpleStorage.get password_key
    require (not (is_some (present stored))) "Password is already initialized"
    write_password p
    Misc.set_initialization Types.password
    unlock p notify
    pure tt

  -- `writePassword` is not awaited; its write is issued before the reads of `unlock`.
  unfoldable pub reset_password : String → String → M Unit
  unfolding write_password
  reset_password m p = do
    Wallet.change_mnemonic_password env m p
    Crypto.set_password p
    write_password p
    unlock p true
    History.load_settings env
    History.track_operation env Types.reset_password History.no_options
    Browser.notify "Password reset" "Password has been successfully reset"

  set_up_from : String → BackupData → M Unit
  set_up_from backup_password d = do
    authentic ← Crypto.get_authentic_backup env d backup_password
    Backupable.only_text "Incorrect backup format for password" authentic
    setup_password backup_password false

  upload_given : String → Bool → Option BackupData → M Unit
  unfolding set_up_from
  upload_given backup_password false d = pure tt
  upload_given backup_password true none = pure tt
  upload_given backup_password true (some d) = set_up_from backup_password d

  unfoldable pub upload_encrypted_storage : Option BackupData → String → M Unit
  unfolding upload_given is_new_onboarding
  upload_encrypted_storage d backup_password = do
    is_new ← is_new_onboarding
    upload_given backup_password is_new (Backupable.given d)

  unfoldable pub download_encrypted_storage : String → M (Option String)
  download_encrypted_storage backup_password =
      Backupable.download_encrypted_storage env password_key password backup_password

unfoldable pub download_storage : M (Option String)
download_storage = Backupable.download_storage password_key

unfoldable pub restore_storage : Option BackupData → M Unit
restore_storage = Backupable.restore_storage password_key "Incorrect restore format for password"
