-- ===== src/ZkIdentity/Persist.antt =====
-- The identities in memory and those in storage agree after every operation.
use crypt_keeper_extension.Prelude.{suc, String, true, ◌≡◌, none, some, List, [], ◌∷◌, truthy}
use crypt_keeper_extension.JsMap.{JsMap}
use crypt_keeper_extension.JsMap.Laws.{IsMap}
use crypt_keeper_extension.Stored.{IsMirror, stored-encrypt}
use crypt_keeper_extension.Types.{OperationType}
use crypt_keeper_extension.State.{Ext, Effect}
use crypt_keeper_extension.Env.{Env, Laws}
use crypt_keeper_extension.Exec.{M, ok, gets, modify, send, ◌>>=◌, ◌>>◌}
use crypt_keeper_extension.Exec.Keeps.{Keeps, Keeps-bind, keeps_rules}
use crypt_keeper_extension.Exec.Unmoved.{Unmoved}
use crypt_keeper_extension.SimpleStorage
use crypt_keeper_extension.Crypto.{mnemonic, secret_of, encryption_key}
use crypt_keeper_extension.Crypto.Laws.{encrypt_lem}
use crypt_keeper_extension.History
use crypt_keeper_extension.History.{OperationOptions}
use crypt_keeper_extension.History.Tracking.{track_operation-Unmoved}
use crypt_keeper_extension.ZkIdentity.{write_identities, describe, get_identities, refresh}

module _ (env : Env) where
  -- The memory of the identity service is mirrored in storage.
  abbrev pub IsPersisted : Ext → Type 0
  IsPersisted s = IsMirror env env.json_entries s.secrets.mnemonic s.storage.identities s.identities

  pub IsPersisted-Unmoved : (s t : Ext) → Unmoved s t → IsPersisted s → IsPersisted t
  IsPersisted-Unmoved s t u h = rw (u.secrets, u.stored_identities, u.identities) h

  pub Keeps-track :
      (t : OperationType) (o : OperationOptions)
      → Keeps IsPersisted (History.track_operation env t o)
  Keeps-track t o = record {
    at = λ s h. IsPersisted-Unmoved s _ (track_operation-Unmoved env t o s) h;
  }

  pub Keeps-send : (e : Effect) → Keeps IsPersisted (send e)
  unfolding send
  Keeps-send e = record { at = λ s h. h }

  Keeps-describe : (m : JsMap String) (cs : List String) → Keeps IsPersisted (describe env m cs)
  unfolding describe
  Keeps-describe m [] = search keeps_rules
  Keeps-describe m (c ∷ cs) = Keeps-bind _ _ (search keeps_rules) (λ x.
      Keeps-bind _ _ (search keeps_rules)
        (λ z. Keeps-bind _ _ (Keeps-describe m cs) (λ r. search keeps_rules)))

  pub Keeps-refresh : Keeps IsPersisted (refresh env)
  unfolding refresh get_identities
  Keeps-refresh = search (keeps_rules, Keeps-send, Keeps-describe)

  -- What `writeIdentities` does under a known mnemonic, as one equation.
  pub write_identities_lem :
      (m : JsMap String) (key : String) (s : Ext)
      → s.secrets.mnemonic ≡ some key
      → truthy key ≡ true
      → write_identities env m s ≡ (
        ok tt,
        record s {
          draws = suc s.draws;
          storage = record s.storage {
            identities = some (env.aes_encrypt s.draws (env.json_entries.stringify m) key);
          };
        },
      )
  unfolding write_identities SimpleStorage.set secret_of encryption_key ◌>>=◌
  write_identities_lem m key s held full =
      rw (encrypt_lem env (env.json_entries.stringify m) key none mnemonic s (rw (held, full)))

  module _ (laws : Laws env) where
    pub save-Keeps :
        {A : Type 0} (f : JsMap String → JsMap String) (rest : M A)
        → ((m : JsMap String) → IsMap m → IsMap (f m))
        → Keeps IsPersisted rest
        → Keeps IsPersisted (
            modify (λ s. record s { identities = f s.identities })
            >> (gets (λ s. s.identities) >>= λ m. write_identities env m >> rest))
    unfolding ◌>>=◌
    save-Keeps f rest keep k = record {
      at = λ s h.
          rw
            (write_identities_lem (f s.identities) h.key (record s { identities = f s.identities })
              h.held h.key_truthy)
            (k.at _ (record {
              key = h.key;
              held = h.held;
              key_truthy = h.key_truthy;
              is_map = keep s.identities h.is_map;
              loads =
                  stored-encrypt env env.json_entries laws laws.entries s.draws h.key
                    (f s.identities) (keep s.identities h.is_map);
            }));
    }
