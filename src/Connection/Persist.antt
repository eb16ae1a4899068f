-- ===== src/Connection/Persist.antt =====
-- The connections in memory and those in storage agree after the calls to the service.
use crypt_keeper_extension.Prelude.{
  suc, String, true, false, ◌≡◌, refl, ap, subst, ◌⊎◌, inl, inr, Option, none, some, List, [], ◌∷◌,
  arith, present, truthy,
}
use crypt_keeper_extension.JsMap
use crypt_keeper_extension.JsMap.{JsMap}
use crypt_keeper_extension.JsMap.Laws.{IsMap, set-IsMap, delete-IsMap, set_all-IsMap}
use crypt_keeper_extension.Stored.{IsMirror, stored, stored-encrypt}
use crypt_keeper_extension.Types.{IdentityConnection}
use crypt_keeper_extension.State.{Ext, Effect, BrowserEvent}
use crypt_keeper_extension.Env.{Env, Laws}
use crypt_keeper_extension.Exec.{M, Result, ok, send, modify, ◌>>=◌, ◌>>◌, after}
use crypt_keeper_extension.Exec.Keeps.{
  Keeps, Keeps-bind, Keeps-or_throw, Keeps-gets, Keeps-pure, keeps_rules,
}
use crypt_keeper_extension.SimpleStorage
use crypt_keeper_extension.SimpleStorage.{connections_key}
use crypt_keeper_extension.Crypto
use crypt_keeper_extension.Crypto.{mnemonic, secret_of, encryption_key, BackupData}
use crypt_keeper_extension.Crypto.Laws.{encrypt_lem}
use crypt_keeper_extension.Browser
use crypt_keeper_extension.Base
use crypt_keeper_extension.Backupable
use crypt_keeper_extension.Backupable.Reading.{Keeps-open_backup}
use crypt_keeper_extension.ZkIdentity.{get_identity}
use crypt_keeper_extension.ZkIdentity.Lookup.{get_identity-reads}
use crypt_keeper_extension.Connection.{
  save, connect, disconnect, disconnect_origin, is_origin_connected, clear, push_disconnects,
  load_from, unlock, lock, merge_backup, upload_given, upload_encrypted_storage,
}

module _ (env : Env) where
  -- The memory of the connection service is mirrored in storage.
  abbrev pub IsPersisted : Ext → Type 0
  IsPersisted s =
      IsMirror env env.json_connections s.secrets.mnemonic s.storage.connections s.connections

  -- What `save` does under a known mnemonic, as one equation.
  save_lem :
      (key : String) (s : Ext)
      → s.secrets.mnemonic ≡ some key
      → truthy key ≡ true
      → save env s ≡ (
        ok tt,
        record s {
          draws = suc s.draws;
          storage = record s.storage {
            connections =
                some (env.aes_encrypt s.draws (env.json_connections.stringify s.connections) key);
          };
        },
      )
  unfolding save SimpleStorage.set secret_of encryption_key ◌>>=◌
  save_lem key s held full = rw (
      encrypt_lem env (env.json_connections.stringify s.connections) key none mnemonic s
        (rw (held, full)))

  Keeps-send : (e : Effect) → Keeps IsPersisted (send e)
  unfolding send
  Keeps-send e = record { at = λ s h. h }

  Keeps-push_event :
      (e : BrowserEvent) (o : Option String) → Keeps IsPersisted (Browser.push_event e o)
  unfolding Browser.push_event
  Keeps-push_event e o = Keeps-send _

  Keeps-push_disconnects : (os : List String) → Keeps IsPersisted (push_disconnects os)
  unfolding push_disconnects
  Keeps-push_disconnects [] = Keeps-pure tt
  Keeps-push_disconnects (o ∷ os) =
      Keeps-bind _ _ (Keeps-push_event _ _) λ _. Keeps-push_disconnects os

  Keeps-get_identity : (c : String) → Keeps IsPersisted (get_identity env c)
  Keeps-get_identity c = record { at = λ s h. rw (get_identity-reads env c s) h }

  -- With the mnemonic at hand, unlocking puts the stored map into memory. The memory was empty, or
  -- held that map already.
  pub load_lem :
      (m : JsMap IdentityConnection) (key : String) (s : Ext)
      → s.secrets.mnemonic ≡ some key
      → truthy key ≡ true
      → stored env env.json_connections key (present s.storage.connections) ≡ some m
      → (s.connections ≡ []) ⊎ (s.connections ≡ m)
      → load_from env (present s.storage.connections) s ≡ (ok tt, record s { connections = m })
  unfolding load_from Crypto.decrypt ◌>>=◌
  load_lem m key s held full loads old = ground arith

  Keeps-unlock : Keeps IsPersisted (unlock env)
  unfolding unlock SimpleStorage.get Base.on_unlocked Base.set_unlocked ◌>>=◌
  Keeps-unlock = record {
    at = λ s h.
        rw (load_lem s.connections h.key s h.held h.key_truthy h.loads (inr refl))
          (ground (arith, h));
  }

  -- Locked and unlocked again: the memory is emptied, and loaded from storage.
  Keeps-relock : Keeps IsPersisted (lock >> unlock env)
  unfolding lock unlock Base.on_lock SimpleStorage.get Base.on_unlocked Base.set_unlocked ◌>>=◌
  Keeps-relock = record {
    at = λ s h.
        rw (load_lem s.connections h.key (after lock s) h.held h.key_truthy h.loads (inl refl))
          (ground (arith, h));
  }

  module _ (laws : Laws env) where
    Keeps-saved :
        (f : JsMap IdentityConnection → JsMap IdentityConnection)
        → ((m : JsMap IdentityConnection) → IsMap m → IsMap (f m))
        → Keeps IsPersisted (modify (λ s. record s { connections = f s.connections }) >> save env)
    unfolding ◌>>=◌
    Keeps-saved f keep = record {
      at = λ s h.
          let is_map = keep s.connections h.is_map in
          rw (save_lem h.key (record s { connections = f s.connections }) h.held h.key_truthy)
            (record {
              key = h.key;
              held = h.held;
              key_truthy = h.key_truthy;
              is_map = is_map;
              loads =
                  stored-encrypt env env.json_connections laws laws.connections s.draws h.key
                    (f s.connections) is_map;
            });
    }

    save-Keeps :
        {A : Type 0} (f : JsMap IdentityConnection → JsMap IdentityConnection) (rest : M A)
        → ((m : JsMap IdentityConnection) → IsMap m → IsMap (f m))
        → Keeps IsPersisted rest
        → Keeps IsPersisted
            (modify (λ s. record s { connections = f s.connections }) >> (save env >> rest))
    unfolding ◌>>=◌
    save-Keeps f rest keep k = record {
      at = λ s h.
          let kept = (Keeps-saved f keep).at s h in
          rw (save_lem h.key (record s { connections = f s.connections }) h.held h.key_truthy) (
            k.at _ (
              subst IsPersisted
                (ap (λ (r : Result Unit × Ext). r.1)
                  (save_lem h.key (record s { connections = f s.connections }) h.held h.key_truthy))
                kept));
    }

    Keeps-merge_backup : (p : String) (d : BackupData) → Keeps IsPersisted (merge_backup env p d)
    unfolding merge_backup
    Keeps-merge_backup p d = Keeps-bind _ _ (Keeps-open_backup env _ d p) λ backup.
        Keeps-bind _ _ Keeps-unlock λ opened. Keeps-bind _ _ (Keeps-or_throw _ _) λ entries.
          Keeps-saved (λ m. JsMap.set_all m (JsMap.of_entries entries))
            (λ m h. set_all-IsMap m (JsMap.of_entries entries) h)

    Keeps-upload_given :
        (p : String) (d : Option BackupData) → Keeps IsPersisted (upload_given env p d)
    unfolding upload_given
    Keeps-upload_given p none = Keeps-pure tt
    Keeps-upload_given p (some d) = Keeps-merge_backup p d

    Keeps-upload :
        (d : Option BackupData) (p : String) → Keeps IsPersisted (upload_encrypted_storage env d p)
    unfolding upload_encrypted_storage
    Keeps-upload d p = Keeps-upload_given p (Backupable.given d)

    Keeps-connect : (c : String) (o : Option String) → Keeps IsPersisted (connect env c o)
    unfolding connect
    Keeps-connect c o = Keeps-bind _ _ (search keeps_rules) λ origin.
        Keeps-bind _ _ (Keeps-get_identity c) λ found.
          Keeps-bind _ _ (search keeps_rules)
            λ z. save-Keeps (JsMap.set origin _) _ (set-IsMap origin _) (Keeps-push_event _ _)

    Keeps-disconnect_origin : (o : Option String) → Keeps IsPersisted (disconnect_origin env o)
    unfolding disconnect_origin is_origin_connected
    Keeps-disconnect_origin none = Keeps-pure false
    Keeps-disconnect_origin (some o) = Keeps-bind _ _ (search keeps_rules) λ _.
        save-Keeps (JsMap.delete o) _ (delete-IsMap o)
          (Keeps-bind _ _ (Keeps-push_event _ _) λ _. Keeps-pure true)

    Keeps-disconnect : (c o : Option String) → Keeps IsPersisted (disconnect env c o)
    unfolding disconnect
    Keeps-disconnect c o = Keeps-bind _ _ (Keeps-gets _) λ found. Keeps-disconnect_origin _

  Keeps-emptied :
      Keeps IsPersisted
        (modify (λ s. record s { connections = [] }) >> SimpleStorage.clear connections_key)
  unfolding SimpleStorage.clear ◌>>=◌
  Keeps-emptied = record {
    at = λ s h. record {
      key = h.key;
      held = h.held;
      key_truthy = h.key_truthy;
      is_map = tt;
      loads = refl;
    };
  }

  Keeps-clear : Keeps IsPersisted clear
  unfolding clear
  Keeps-clear =
      Keeps-bind _ _ (Keeps-gets _)
        λ os. Keeps-bind _ _ (Keeps-push_disconnects os) λ _. Keeps-emptied

-- A call to the service from the popup or from a page; `relocks` is a locking followed by an unlocking.
-- Locking alone, which empties the memory only, and `restoreStorage`, which writes the storage only,
-- are no such calls.
pub data Call : Type 0 where
  connects : String → Option String → Call
  disconnects : Option String → Option String → Call
  clears unlocks relocks : Call
  uploads : Option BackupData → String → Call

module _ (env : Env) where
  -- The state after a call, also one that has thrown.
  abbrev pub after_call : Call → Ext → Ext
  after_call (connects c o) = after (connect env c o)
  after_call (disconnects c o) = after (disconnect env c o)
  after_call clears = after clear
  after_call unlocks = after (unlock env)
  after_call relocks = after (lock >> unlock env)
  after_call (uploads d p) = after (upload_encrypted_storage env d p)

  abbrev pub after_calls : List Call → Ext → Ext
  after_calls [] s = s
  after_calls (c ∷ cs) s = after_calls cs (after_call c s)

module _ (env : Env) (laws : Laws env) where
  after_call-IsPersisted :
      (c : Call) (s : Ext) → IsPersisted env s → IsPersisted env (after_call env c s)
  after_call-IsPersisted (connects c o) s h = (Keeps-connect env laws c o).at s h
  after_call-IsPersisted (disconnects c o) s h = (Keeps-disconnect env laws c o).at s h
  after_call-IsPersisted clears s h = (Keeps-clear env).at s h
  after_call-IsPersisted unlocks s h = (Keeps-unlock env).at s h
  after_call-IsPersisted relocks s h = (Keeps-relock env).at s h
  after_call-IsPersisted (uploads d p) s h = (Keeps-upload env laws d p).at s h

  -- After any sequence of these calls to the connection service, of which each may return or throw:
  -- connecting, disconnecting, clearing, uploading a backup, unlocking, and locking followed by
  -- unlocking; what is stored under the mnemonic loads as exactly the connections in memory, if
  -- that held before.
  pub connections-IsPersisted :
      (cs : List Call) (s : Ext) → IsPersisted env s → IsPersisted env (after_calls env cs s)
  connections-IsPersisted [] s h = h
  connections-IsPersisted (c ∷ cs) s h =
      connections-IsPersisted cs (after_call env c s) (after_call-IsPersisted c s h)
