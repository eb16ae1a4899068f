-- ===== src/Tests/Undoing.antt =====
-- A file whose wallet is not authentic, uploaded into the sample state.
use crypt_keeper_extension.Prelude.{
  String, ◌≡◌, refl, Option, none, some, [], ◌∷◌, ◌==◌, if◌then◌else◌,
}
use crypt_keeper_extension.JsMap
use crypt_keeper_extension.JsMap.{JsMap}
use crypt_keeper_extension.Exec.{ok, err, ◌>>=◌}
use crypt_keeper_extension.Exec.Ends.{Ends}
use crypt_keeper_extension.SimpleStorage
use crypt_keeper_extension.Crypto
use crypt_keeper_extension.Crypto.{BackupData, text, fields, get_authentic_backup}
use crypt_keeper_extension.Lock
use crypt_keeper_extension.Wallet.Backup as WalletBackup
use crypt_keeper_extension.Backup.{BackupApi, registered, upload, upload_all}
use crypt_keeper_extension.Backup.Rollback.{IsUndone, uploads, upload_failed, upload_refused}
use crypt_keeper_extension.Tests.Sample.{sample}
use crypt_keeper_extension.Tests.States.{ready}

abbrev file : JsMap (Option BackupData)
file =
    ("lock", some (text "x"))
    ∷ ("wallet", some (fields (("accounts", "x") ∷ ("mnemonic", "y") ∷ [])))
    ∷ []

abbrev files : BackupApi
files = record {
  json_backup = record {
    stringify = λ b. "";
    parse = λ content. if content == "file" then some file else none;
  };
  encode_uri_component = λ t. t;
}

fails :
    uploads sample files "file" "pw" "backup" file ready
    ≡ (ok (err "This backup file is not authentic", []), ready)
unfolding upload_all registered JsMap.get JsMap.has JsMap.set SimpleStorage.get get_authentic_backup
    Crypto.authentic_fields Lock.upload_encrypted_storage WalletBackup.upload_encrypted_storage
    ◌>>=◌
fails = refl

upload_failed_example :
    Ends
      (upload sample files registered "file" "pw" "backup")
      ready
      (err "This backup file is not authentic")
      (IsUndone ready ready)
unfolding JsMap.get JsMap.has JsMap.set registered
upload_failed_example =
    upload_failed sample files "file" "pw" "backup" file "This backup file is not authentic" ready
      ready refl refl refl fails

upload_refused_example :
    (e : String) × (upload sample files registered "file" "wrong" "backup" ready ≡ (err e, ready))
upload_refused_example = upload_refused sample files "file" "wrong" "backup" ready refl
