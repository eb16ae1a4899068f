-- ===== src/Credentials/Store.antt =====
-- The map of credentials in storage: what reading and writing it give under a known mnemonic.
use crypt_keeper_extension.Prelude.{
  suc, String, true, ◌≡◌, refl, none, some, arith, present, truthy,
}
use crypt_keeper_extension.JsMap.{JsMap}
use crypt_keeper_extension.JsMap.Laws.{IsMap}
use crypt_keeper_extension.Stored.{stored, stored-encrypt}
use crypt_keeper_extension.Types.{OperationType}
use crypt_keeper_extension.State.{Ext, Effect}
use crypt_keeper_extension.Env.{Env, Laws}
use crypt_keeper_extension.Exec.{ok, send, ◌>>=◌}
use crypt_keeper_extension.Exec.Keeps.{Keeps}
use crypt_keeper_extension.Exec.Unmoved.{Unmoved}
use crypt_keeper_extension.SimpleStorage
use crypt_keeper_extension.Crypto.{mnemonic, decrypt, secret_of, encryption_key}
use crypt_keeper_extension.Crypto.Laws.{encrypt_lem}
use crypt_keeper_extension.History
use crypt_keeper_extension.History.{OperationOptions}
use crypt_keeper_extension.History.Tracking.{track_operation-Unmoved}
use crypt_keeper_extension.Credentials.{get_from_store, write_store}

module _ (env : Env) where
  -- The mnemonic is at hand, and with it the stored credentials load as the map.
  pub record Holds (m : JsMap String) (s : Ext) : Type 0 where
    pub key : String
    pub held : s.secrets.mnemonic ≡ some key
    pub key_truthy : truthy key ≡ true
    pub is_map : IsMap m
    pub loads : stored env env.json_entries key (present s.storage.credentials) ≡ some m

  pub Holds-Unmoved : (m : JsMap String) (s t : Ext) → Unmoved s t → Holds m s → Holds m t
  Holds-Unmoved m s t u h = record {
    key = h.key;
    held = rw u.secrets h.held;
    key_truthy = h.key_truthy;
    is_map = h.is_map;
    loads = rw u.stored_credentials h.loads;
  }

  pub Keeps-track :
      (m : JsMap String) (t : OperationType) (o : OperationOptions)
      → Keeps (Holds m) (History.track_operation env t o)
  Keeps-track m t o = record {
    at = λ s h. Holds-Unmoved m s _ (track_operation-Unmoved env t o s) h;
  }

  pub Keeps-send : (m : JsMap String) (e : Effect) → Keeps (Holds m) (send e)
  unfolding send
  Keeps-send m e = record {
    at = λ s h. record {
      key = h.key;
      held = h.held;
      key_truthy = h.key_truthy;
      is_map = h.is_map;
      loads = h.loads;
    };
  }

  pub get_from_store_lem :
      (m : JsMap String) (s : Ext) → Holds m s → get_from_store env s ≡ (ok m, s)
  unfolding get_from_store SimpleStorage.get decrypt ◌>>=◌
  get_from_store_lem m s h = ground (arith, h.held, h.key_truthy, h.loads)

  module _ (laws : Laws env) where
    -- Writing a map returns, and the map is then the stored one.
    pub write_store_lem :
        (m n : JsMap String) (s : Ext)
        → Holds m s
        → IsMap n
        → (t : Ext) × (write_store env n s ≡ (ok tt, t)) × Holds n t
    unfolding write_store SimpleStorage.set secret_of encryption_key ◌>>=◌
    write_store_lem m n s h is_map = (
      record s {
        draws = suc s.draws;
        storage = record s.storage {
          credentials = some (env.aes_encrypt s.draws (env.json_entries.stringify n) h.key);
        };
      },
      rw
          (encrypt_lem env (env.json_entries.stringify n) h.key none mnemonic s
            (rw (h.held, h.key_truthy)))
          refl,
      record {
        key = h.key;
        held = h.held;
        key_truthy = h.key_truthy;
        is_map = is_map;
        loads = stored-encrypt env env.json_entries laws laws.entries s.draws h.key n is_map;
      },
    )
