-- ===== src/Backup/Rollback.antt =====
-- A failed upload: what the rollback gives back of the storage.
use crypt_keeper_extension.Prelude.{
  sym, subst, Bool-cases, String, Bool, true, false, ◌≡◌, refl, Option, none, some, [], ◌∷◌,
  present, is_some, ◌||◌, ◌&&◌, arith, if◌then◌else◌, inl, inr, leb,
}
use crypt_keeper_extension.Types
use crypt_keeper_extension.Types.{step_number}
use crypt_keeper_extension.JsMap
use crypt_keeper_extension.JsMap.{JsMap}
use crypt_keeper_extension.State.{Ext, Storage}
use crypt_keeper_extension.Env.{Env}
use crypt_keeper_extension.Exec.{ok, err, ◌>>=◌, M, ◌>>◌, or_throw, require}
use crypt_keeper_extension.Exec.Ends.{Ends, Ends-bind, Ends-bind_err}
use crypt_keeper_extension.SimpleStorage
use crypt_keeper_extension.SimpleStorage.{StoreKey}
use crypt_keeper_extension.Wallet.Backup as WalletBackup
use crypt_keeper_extension.Wallet.Backup.{stored_pair}
use crypt_keeper_extension.Crypto
use crypt_keeper_extension.Crypto.{BackupData, same_password}
use crypt_keeper_extension.Misc
use crypt_keeper_extension.Misc.{step_or_new}
use crypt_keeper_extension.Backupable
use crypt_keeper_extension.Backup.{
  BackupApi, registered, save_restore_data, rollback, upload_all, undo, late_uploads, recover,
  Outcome, upload, finish, known_entries, is_complete, some_text,
}

-- What the six services had under their keys is there again: for the wallet, if it had both accounts
-- and a mnemonic, and nothing otherwise.
abbrev pub IsRestored : Storage → Storage → Type 0
IsRestored s t =
    (t.password ≡ s.password)
    × (t.approvals ≡ s.approvals)
    × (t.identities ≡ s.identities)
    × (t.credentials ≡ s.credentials)
    × (t.connections ≡ s.connections)
    × (t.mnemonic ≡ (if is_some (present s.accounts) then present s.mnemonic else none))
    × (t.accounts ≡ (if is_some (present s.mnemonic) then present s.accounts else none))

abbrev pub is_new : Ext → Bool
is_new s = leb (step_number (step_or_new s.storage.initialization)) 0

-- What `saveRestoreData` saves of a storage.
abbrev saved : Storage → JsMap (Option BackupData)
saved t =
    ("lock", some_text t.password)
    ∷ ("wallet", stored_pair (present t.accounts) (present t.mnemonic))
    ∷ ("approval", some_text t.approvals)
    ∷ ("identity", some_text t.identities)
    ∷ ("credentials", some_text t.credentials)
    ∷ ("connections", some_text t.connections)
    ∷ []

save_lem : (s : Ext) → save_restore_data registered s ≡ (ok (saved s.storage), s)
unfolding save_restore_data registered SimpleStorage.get Backupable.download_storage ◌>>=◌
save_lem s = refl

restore_text :
    (key : StoreKey) (message : String) (v : Option String) (t : Ext)
    → Backupable.restore_storage key message (some_text v) t ≡ SimpleStorage.set key v t
unfolding Backupable.restore_storage
restore_text key message none t = refl
restore_text key message (some v) t = refl

abbrev pair_mnemonic : Option String → Option String → Option String
pair_mnemonic a m = if is_some a then m else none

abbrev pair_accounts : Option String → Option String → Option String
pair_accounts a m = if is_some m then a else none

restore_pair :
    (a m : Option String) (t : Ext)
    → WalletBackup.restore_storage (stored_pair a m) t ≡ (
      ok tt,
      record t {
        storage = record t.storage { mnemonic = pair_mnemonic a m; accounts = pair_accounts a m };
      },
    )
unfolding WalletBackup.restore_storage SimpleStorage.set JsMap.get ◌>>=◌
restore_pair none none t = refl
restore_pair none (some m) t = refl
restore_pair (some a) none t = refl
restore_pair (some a) (some m) t = refl

rollback_lem :
    (s t : Ext)
    → rollback registered (saved s.storage) t ≡ (
      ok tt,
      record t {
        storage = record t.storage {
          password = s.storage.password;
          mnemonic = pair_mnemonic (present s.storage.accounts) (present s.storage.mnemonic);
          accounts = pair_accounts (present s.storage.accounts) (present s.storage.mnemonic);
          approvals = s.storage.approvals;
          identities = s.storage.identities;
          credentials = s.storage.credentials;
          connections = s.storage.connections;
        };
      },
    )
unfolding rollback registered JsMap.get SimpleStorage.set ◌>>=◌
rollback_lem s t =
    rw (restore_text, restore_pair, restore_text, restore_text, restore_text, restore_text) refl

-- What the undoing of an upload leaves: `u` is the state in which the upload has failed.
abbrev pub IsUndone : Ext → Ext → Ext → Type 0
IsUndone s u t =
    IsRestored s.storage t.storage
    × (t.storage.initialization ≡ (if is_new s then some Types.new else u.storage.initialization))
    × (t.secrets ≡ (if is_new s then record { password = none; mnemonic = none } else u.secrets))

module _ (env : Env) where
  undo_lem :
      (p e : String) (s u : Ext)
      → Ends (undo env registered (saved s.storage) (is_new s) [] p e) u (err e) (IsUndone s u)
  unfolding undo late_uploads Misc.set_initialization Crypto.clear ◌>>=◌
  undo_lem p e s u = elim (Bool-cases (is_new s)) [
    | inl fresh ↦
        rw (rollback_lem s u, fresh)
          (_, refl, ((refl, refl, refl, refl, refl, refl, refl), refl, refl))
    | inr old ↦
        rw (rollback_lem s u, old)
          (_, refl, ((refl, refl, refl, refl, refl, refl, refl), refl, refl))
  ]

  module _ (api : BackupApi) (content password backup_password : String)
      (parsed : JsMap (Option BackupData)) where
    abbrev pub uploads : M Outcome
    uploads = upload_all env registered parsed (known_entries env registered parsed) backup_password

    upload_lem :
        (s : Ext)
        → api.json_backup.parse content ≡ some parsed
        → is_complete env registered parsed ≡ true
        → (is_new s || same_password s.secrets.password password) ≡ true
        → upload env api registered content password backup_password s
          ≡ (uploads >>= λ outcome.
                recover env registered (saved s.storage) (is_new s) backup_password outcome
                >> finish env)
              s
    unfolding upload Misc.get_initialization Crypto.is_authentic_password ◌>>=◌
    upload_lem s parses complete admitted = elim (Bool-cases (is_new s)) [
      | inl fresh ↦ rw (fresh, parses, complete, save_lem s) refl
      | inr old ↦
          let same : same_password s.secrets.password password ≡ true = ground arith in
          rw (old, same, parses, complete, save_lem s) refl
    ]

    -- Where the file of a backup is accepted, and uploading it fails with no upload still running, as
    -- when that of the password or of the wallet fails: the error is thrown, and the six services have
    -- under their keys what they had before, the wallet only if it had both accounts and a mnemonic,
    -- otherwise both are erased; on a new installation the step is NEW again and the secrets are
    -- forgotten, elsewhere both stay as the failed upload left them.
    pub upload_failed :
        (e : String) (s u : Ext)
        → api.json_backup.parse content ≡ some parsed
        → is_complete env registered parsed ≡ true
        → (is_new s || same_password s.secrets.password password) ≡ true
        → uploads s ≡ (ok (err e, []), u)
        → Ends (upload env api registered content password backup_password) s (err e) (IsUndone s u)
    upload_failed e s u parses complete admitted fails =
        rw (upload_lem s parses complete admitted) (
          Ends-bind {P = λ t. t ≡ u} uploads _ s (err e, []) (err e) (u, fails, refl)
            (λ t same. Ends-bind_err _ _ t e (
              subst
                (λ (t : Ext).
                  Ends (undo env registered (saved s.storage) (is_new s) [] backup_password e) t
                    (err e) (IsUndone s u))
                (sym same) (undo_lem backup_password e s u))))

abbrev pub accepts : Env → Option (JsMap (Option BackupData)) → Bool
accepts env none = false
accepts env (some parsed) = is_complete env registered parsed

unaccepted :
    {B : Type 0} (env : Env) (found : Option (JsMap (Option BackupData)))
    (rest : JsMap (Option BackupData) → M B) (s : Ext)
    → accepts env found ≡ false
    → (e : String) × ((or_throw found "Unexpected token in JSON" >>= λ parsed.
            require (is_complete env registered parsed) "File content is corrupted" >> rest parsed)
          s
        ≡ (err e, s))
unfolding ◌>>=◌
unaccepted env none rest s h = ("Unexpected token in JSON", refl)
unaccepted env (some parsed) rest s h = ("File content is corrupted", rw h refl)

-- Without the current password, where there is an installation, and with a file that does not
-- parse or lacks the password or the wallet, the upload throws and changes nothing.
pub upload_refused :
    (env : Env) (api : BackupApi) (content password backup_password : String) (s : Ext)
    → ((is_new s || same_password s.secrets.password password)
        && accepts env (api.json_backup.parse content))
      ≡ false
    → (e : String) × (upload env api registered content password backup_password s ≡ (err e, s))
unfolding upload Misc.get_initialization Crypto.is_authentic_password ◌>>=◌
upload_refused env api content password backup_password s refused = elim (Bool-cases (is_new s)) [
  | inl fresh ↦
      rw fresh (unaccepted env (api.json_backup.parse content) _ s (ground (arith, fresh, refused)))
  | inr old ↦ elim (Bool-cases (same_password s.secrets.password password)) [
    | inr wrong ↦ ("Password doesn't match with current", rw (old, wrong) refl)
    | inl same ↦
        rw (old, same)
          (unaccepted env (api.json_backup.parse content) _ s (ground (arith, same, refused)))
  ]
]
