-- ===== src/ZkIdentity/Unlock.antt =====
-- What loading the identities from storage gives.
use crypt_keeper_extension.Prelude.{
  String, true, ◌≡◌, refl, ◌⊎◌, inr, some, [], arith, present, truthy,
}
use crypt_keeper_extension.JsMap.{JsMap}
use crypt_keeper_extension.Stored.{stored}
use crypt_keeper_extension.State.{Ext}
use crypt_keeper_extension.Env.{Env}
use crypt_keeper_extension.Exec.{ok, ◌>>=◌}
use crypt_keeper_extension.SimpleStorage
use crypt_keeper_extension.Crypto.{decrypt}
use crypt_keeper_extension.ZkIdentity.{load_identities}
use crypt_keeper_extension.ZkIdentity.Persist.{IsPersisted}

module _ (env : Env) where
  -- With the mnemonic at hand, loading puts the stored map into memory. The memory was empty, or
  -- held that map already.
  pub load_identities_lem :
      (m : JsMap String) (key : String) (s : Ext)
      → s.secrets.mnemonic ≡ some key
      → truthy key ≡ true
      → stored env env.json_entries key (present s.storage.identities) ≡ some m
      → (s.identities ≡ []) ⊎ (s.identities ≡ m)
      → load_identities env s ≡ (ok tt, record s { identities = m })
  unfolding load_identities SimpleStorage.get decrypt ◌>>=◌
  load_identities_lem m key s held full loads old = ground arith

  pub load_identities_again : (s : Ext) → IsPersisted env s → load_identities env s ≡ (ok tt, s)
  load_identities_again s h =
      load_identities_lem s.identities h.key s h.held h.key_truthy h.loads (inr refl)
