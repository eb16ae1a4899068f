-- ===== src/Tests/Backups.antt =====
-- A backup of the approved hosts of the sample state.
use crypt_keeper_extension.Prelude.{String, ◌≡◌, refl, none, some, present}
use crypt_keeper_extension.Prelude.Text.{◌⧺◌}
use crypt_keeper_extension.JsMap
use crypt_keeper_extension.Exec.{ok, ◌>>=◌, after, result}
use crypt_keeper_extension.SimpleStorage
use crypt_keeper_extension.SimpleStorage.{approvals_key, read}
use crypt_keeper_extension.Crypto.{mnemonic, text, decrypt, encrypt, generate_encrypted_hmac}
use crypt_keeper_extension.Backupable
use crypt_keeper_extension.Backupable.{open_backup}
use crypt_keeper_extension.Backupable.Laws.{open_backup-download_encrypted_storage}
use crypt_keeper_extension.Approval.{download_encrypted_storage, upload_encrypted_storage}
use crypt_keeper_extension.Approval.Restore.{upload-download}
use crypt_keeper_extension.Tests.Sample.{sample, sample-Laws, code}
use crypt_keeper_extension.Tests.States.{ready, hosts}
use crypt_keeper_extension.Tests.Stores.{hosts_loaded}

abbrev backup : String
backup = code ⧺ sample.aes_encrypt 5 (sample.json_hosts.stringify hosts) "pw"

key_downloads :
    result (Backupable.download_encrypted_storage sample approvals_key mnemonic "pw") ready
    ≡ ok (some backup)
unfolding Backupable.download_encrypted_storage read SimpleStorage.get decrypt encrypt
    generate_encrypted_hmac ◌>>=◌
key_downloads = refl

open_backup_example :
    (stored : String) × (plain : String) × (present (read approvals_key ready.storage)
      ≡ some stored)
    × (result (decrypt sample stored none mnemonic) ready ≡ ok plain)
    × (open_backup sample "Incorrect backup" (text backup) "pw" ready ≡ (ok plain, ready))
open_backup_example =
    open_backup-download_encrypted_storage sample sample-Laws approvals_key mnemonic "pw" backup
      "Incorrect backup" ready ready key_downloads

downloads : result (download_encrypted_storage sample "pw") ready ≡ ok (some backup)
unfolding download_encrypted_storage
downloads = key_downloads

upload_example :
    (result (upload_encrypted_storage sample (some (text backup)) "pw") ready ≡ ok tt)
    × ((after (upload_encrypted_storage sample (some (text backup)) "pw") ready).allowed_hosts
        ≡ JsMap.set_all ready.allowed_hosts ready.allowed_hosts)
upload_example =
    upload-download sample sample-Laws "pw" backup ready ready hosts_loaded hosts_loaded refl
      downloads
