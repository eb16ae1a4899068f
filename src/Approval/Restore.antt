-- ===== src/Approval/Restore.antt =====
-- A backup of the approved hosts, uploaded into another installation.
use crypt_keeper_extension.Prelude.{
  String, true, ◌≡◌, refl, none, some, List, arith, truthy, Option-cases, inl, inr, subst,
}
use crypt_keeper_extension.JsMap
use crypt_keeper_extension.JsMap.{JsMap}
use crypt_keeper_extension.Types.{HostPermission}
use crypt_keeper_extension.State.{Ext}
use crypt_keeper_extension.Env.{Env, Laws}
use crypt_keeper_extension.Exec.{ok, ◌>>=◌, after, result}
use crypt_keeper_extension.SimpleStorage
use crypt_keeper_extension.SimpleStorage.{approvals_key, read}
use crypt_keeper_extension.Stored.{stored}
use crypt_keeper_extension.Base
use crypt_keeper_extension.Crypto.{mnemonic, decrypt, encrypt, text}
use crypt_keeper_extension.Backupable.Laws.{open_backup-download_encrypted_storage}
use crypt_keeper_extension.Approval.{
  unlock, save, download_encrypted_storage, upload_encrypted_storage, upload_given, merge_backup,
}
use crypt_keeper_extension.Approval.Persist.{IsPersisted, load_lem}

module _ (env : Env) where
  -- The entries that a stored text gives.
  parsed :
      (m : JsMap HostPermission) (key c plain : String) (s : Ext)
      → s.secrets.mnemonic ≡ some key
      → truthy key ≡ true
      → stored env env.json_hosts key (some c) ≡ some m
      → result (decrypt env c none mnemonic) s ≡ ok plain
      → (entries : List (String × HostPermission)) × (env.json_hosts.parse plain ≡ some entries)
        × (JsMap.of_entries entries ≡ m)
  unfolding decrypt ◌>>=◌
  parsed m key c plain s has full loads read_back =
      elim (Option-cases (env.json_hosts.parse plain)) [
        | inl bad ↦ absurd (ground arith)
        | inr (entries, good) ↦ (entries, good, ground arith)
      ]

  module _ (laws : Laws env) where
    -- A backup that one installation has downloaded with a password, uploaded with that password into
    -- another, whose approval service is in step with its storage: the upload returns, and the hosts
    -- of the backup are added to those that are there, with the permissions of the backup. The backup
    -- is not empty, and the first installation was in step with its storage too.
    pub upload-download :
        (p b : String) (s t : Ext)
        → IsPersisted env s
        → IsPersisted env t
        → truthy b ≡ true
        → result (download_encrypted_storage env p) s ≡ ok (some b)
        → (result (upload_encrypted_storage env (some (text b)) p) t ≡ ok tt)
          × ((after (upload_encrypted_storage env (some (text b)) p) t).allowed_hosts
              ≡ JsMap.set_all t.allowed_hosts s.allowed_hosts)
    unfolding download_encrypted_storage upload_encrypted_storage upload_given merge_backup unlock
        read save encrypt SimpleStorage.set SimpleStorage.get Base.set_unlocked Base.on_unlocked
        ◌>>=◌
    upload-download p b s t hs ht full h =
        let (c, plain, there, read_back, opens) =
          open_backup-download_encrypted_storage env laws approvals_key mnemonic p b
            "Incorrect backup format for approvals" s t h in
        let (entries, good, same) =
          parsed s.allowed_hosts hs.key c plain s hs.held hs.key_truthy
            (subst (λ o. stored env env.json_hosts hs.key o ≡ some s.allowed_hosts) there hs.loads)
            read_back in
        ground (
          arith,
          full,
          opens,
          load_lem env t.allowed_hosts ht.key t ht.held ht.key_truthy ht.loads (inr refl),
          good,
          same,
          ht.held,
          ht.key_truthy,
        )
