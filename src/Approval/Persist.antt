-- ===== src/Approval/Persist.antt =====
-- The approved hosts in memory and those in storage agree after the calls to the service.
use crypt_keeper_extension.Prelude.{
  suc, String, true, ◌≡◌, refl, ap, subst, ◌⊎◌, inl, inr, Option, none, some, List, [], ◌∷◌, arith,
  present, truthy,
}
use crypt_keeper_extension.JsMap
use crypt_keeper_extension.JsMap.{JsMap}
use crypt_keeper_extension.JsMap.Laws.{IsMap, set-IsMap, delete-IsMap, set_all-IsMap}
use crypt_keeper_extension.Stored.{IsMirror, stored, stored-encrypt}
use crypt_keeper_extension.Types.{HostPermission}
use crypt_keeper_extension.State.{Ext, Effect, BrowserEvent, event}
use crypt_keeper_extension.Env.{Env, Laws}
use crypt_keeper_extension.Exec.{M, Result, ok, pure, send, modify, ◌>>=◌, ◌>>◌, after}
use crypt_keeper_extension.Exec.Keeps.{
  Keeps, Keeps-bind, Keeps-or_throw, Keeps-if, Keeps-gets, Keeps-pure,
}
use crypt_keeper_extension.SimpleStorage
use crypt_keeper_extension.Crypto
use crypt_keeper_extension.Crypto.{mnemonic, secret_of, encryption_key, BackupData}
use crypt_keeper_extension.Crypto.Laws.{encrypt_lem}
use crypt_keeper_extension.Browser
use crypt_keeper_extension.Browser.Closing.{close_popup_moves}
use crypt_keeper_extension.Base
use crypt_keeper_extension.Backupable
use crypt_keeper_extension.Backupable.Reading.{Keeps-open_backup}
use crypt_keeper_extension.Approval.{
  save, set_permission, add_new, add, remove_known, remove, load_from, unlock, lock, merge_backup,
  upload_given, upload_encrypted_storage,
}

module _ (env : Env) where
  -- The memory of the approval service is mirrored in storage.
  abbrev pub IsPersisted : Ext → Type 0
  IsPersisted s = IsMirror env env.json_hosts s.secrets.mnemonic s.storage.approvals s.allowed_hosts

  -- What `save` does under a known mnemonic, as one equation.
  pub save_lem :
      (key : String) (s : Ext)
      → s.secrets.mnemonic ≡ some key
      → truthy key ≡ true
      → save env s ≡ (
        ok tt,
        record s {
          draws = suc s.draws;
          storage = record s.storage {
            approvals =
                some (env.aes_encrypt s.draws (env.json_hosts.stringify s.allowed_hosts) key);
          };
        },
      )
  unfolding save SimpleStorage.set secret_of encryption_key ◌>>=◌
  save_lem key s held full = rw (
      encrypt_lem env (env.json_hosts.stringify s.allowed_hosts) key none mnemonic s
        (rw (held, full)))

  Keeps-send : (e : Effect) → Keeps IsPersisted (send e)
  unfolding send
  Keeps-send e = record { at = λ s h. h }

  -- The messages that follow a change.
  Keeps-announce :
      (e : BrowserEvent) (o : Option String)
      → Keeps IsPersisted (Browser.push_event e o >> (Browser.close_popup >> pure tt))
  unfolding Browser.push_event ◌>>=◌
  Keeps-announce e o = record {
    at = λ s h.
        let (popup, requests, waiters, effects, run) =
          close_popup_moves (record s { effects = event e o ∷ s.effects }) in
        rw run h;
  }

  -- With the mnemonic at hand, unlocking puts the stored map into memory. The memory was empty, or
  -- held that map already.
  pub load_lem :
      (m : JsMap HostPermission) (key : String) (s : Ext)
      → s.secrets.mnemonic ≡ some key
      → truthy key ≡ true
      → stored env env.json_hosts key (present s.storage.approvals) ≡ some m
      → (s.allowed_hosts ≡ []) ⊎ (s.allowed_hosts ≡ m)
      → load_from env (present s.storage.approvals) s ≡ (ok tt, record s { allowed_hosts = m })
  unfolding load_from Crypto.decrypt ◌>>=◌
  load_lem m key s held full loads old = ground arith

  Keeps-unlock : Keeps IsPersisted (unlock env)
  unfolding unlock SimpleStorage.get Base.on_unlocked Base.set_unlocked ◌>>=◌
  Keeps-unlock = record {
    at = λ s h.
        rw (load_lem s.allowed_hosts h.key s h.held h.key_truthy h.loads (inr refl))
          (ground (arith, h));
  }

  -- Locked and unlocked again: the memory is emptied, and loaded from storage.
  Keeps-relock : Keeps IsPersisted (lock >> unlock env)
  unfolding lock unlock Base.on_lock SimpleStorage.get Base.on_unlocked Base.set_unlocked ◌>>=◌
  Keeps-relock = record {
    at = λ s h.
        rw (load_lem s.allowed_hosts h.key (after lock s) h.held h.key_truthy h.loads (inl refl))
          (ground (arith, h));
  }

  module _ (laws : Laws env) where
    Keeps-saved :
        (f : JsMap HostPermission → JsMap HostPermission)
        → ((m : JsMap HostPermission) → IsMap m → IsMap (f m))
        → Keeps IsPersisted
            (modify (λ s. record s { allowed_hosts = f s.allowed_hosts }) >> save env)
    unfolding ◌>>=◌
    Keeps-saved f keep = record {
      at = λ s h.
          let is_map = keep s.allowed_hosts h.is_map in
          rw (save_lem h.key (record s { allowed_hosts = f s.allowed_hosts }) h.held h.key_truthy)
            (record {
              key = h.key;
              held = h.held;
              key_truthy = h.key_truthy;
              is_map = is_map;
              loads =
                  stored-encrypt env env.json_hosts laws laws.hosts s.draws h.key
                    (f s.allowed_hosts) is_map;
            });
    }

    save-Keeps :
        {A : Type 0} (f : JsMap HostPermission → JsMap HostPermission) (rest : M A)
        → ((m : JsMap HostPermission) → IsMap m → IsMap (f m))
        → Keeps IsPersisted rest
        → Keeps IsPersisted
            (modify (λ s. record s { allowed_hosts = f s.allowed_hosts }) >> (save env >> rest))
    unfolding ◌>>=◌
    save-Keeps f rest keep k = record {
      at = λ s h.
          let kept = (Keeps-saved f keep).at s h in
          rw (save_lem h.key (record s { allowed_hosts = f s.allowed_hosts }) h.held h.key_truthy) (
            k.at _ (
              subst IsPersisted
                (ap (λ (r : Result Unit × Ext). r.1)
                  (save_lem h.key (record s { allowed_hosts = f s.allowed_hosts }) h.held
                    h.key_truthy))
                kept));
    }

    Keeps-merge_backup : (p : String) (d : BackupData) → Keeps IsPersisted (merge_backup env p d)
    unfolding merge_backup
    Keeps-merge_backup p d = Keeps-bind _ _ (Keeps-open_backup env _ d p) λ backup.
        Keeps-bind _ _ Keeps-unlock λ opened. Keeps-bind _ _ (Keeps-or_throw _ _) λ entries.
          Keeps-saved (λ m. JsMap.set_all m (JsMap.of_entries entries))
            (λ m h. set_all-IsMap m (JsMap.of_entries entries) h)

    Keeps-upload_given :
        (p : String) (d : Option BackupData) → Keeps IsPersisted (upload_given env p d)
    unfolding upload_given
    Keeps-upload_given p none = Keeps-pure tt
    Keeps-upload_given p (some d) = Keeps-merge_backup p d

    Keeps-upload :
        (d : Option BackupData) (p : String) → Keeps IsPersisted (upload_encrypted_storage env d p)
    unfolding upload_encrypted_storage
    Keeps-upload d p = Keeps-upload_given p (Backupable.given d)

    Keeps-set_permission : (p : HostPermission) → Keeps IsPersisted (set_permission env p)
    unfolding set_permission
    Keeps-set_permission p =
        save-Keeps (JsMap.set p.url_origin p) _ (set-IsMap p.url_origin p) (Keeps-pure p)

    Keeps-add : (p : HostPermission) → Keeps IsPersisted (add env p)
    unfolding add add_new
    Keeps-add p = Keeps-bind _ _ (Keeps-gets _) λ known.
        Keeps-if known _ _ (Keeps-pure tt)
          (save-Keeps (JsMap.set p.url_origin p) _ (set-IsMap p.url_origin p) (Keeps-announce _ _))

    Keeps-remove : (url_origin : String) → Keeps IsPersisted (remove env url_origin)
    unfolding remove remove_known
    Keeps-remove url_origin = Keeps-bind _ _ (Keeps-gets _) λ known.
        Keeps-if known _ _
          (save-Keeps (JsMap.delete url_origin) _ (delete-IsMap url_origin) (Keeps-announce _ _))
          (Keeps-pure tt)

-- A call to the service from the popup or from a page; `relocks` is a locking followed by an unlocking.
-- Locking alone, which empties the memory only, and `restoreStorage`, which writes the storage only,
-- are no such calls.
pub data Call : Type 0 where
  adds sets : HostPermission → Call
  removes : String → Call
  unlocks relocks : Call
  uploads : Option BackupData → String → Call

module _ (env : Env) where
  -- The state after a call, also one that has thrown.
  abbrev pub after_call : Call → Ext → Ext
  after_call (adds p) = after (add env p)
  after_call (sets p) = after (set_permission env p)
  after_call (removes url_origin) = after (remove env url_origin)
  after_call unlocks = after (unlock env)
  after_call relocks = after (lock >> unlock env)
  after_call (uploads d p) = after (upload_encrypted_storage env d p)

  abbrev pub after_calls : List Call → Ext → Ext
  after_calls [] s = s
  after_calls (c ∷ cs) s = after_calls cs (after_call c s)

module _ (env : Env) (laws : Laws env) where
  after_call-IsPersisted :
      (c : Call) (s : Ext) → IsPersisted env s → IsPersisted env (after_call env c s)
  after_call-IsPersisted (adds p) s h = (Keeps-add env laws p).at s h
  after_call-IsPersisted (sets p) s h = (Keeps-set_permission env laws p).at s h
  after_call-IsPersisted (removes o) s h = (Keeps-remove env laws o).at s h
  after_call-IsPersisted unlocks s h = (Keeps-unlock env).at s h
  after_call-IsPersisted relocks s h = (Keeps-relock env).at s h
  after_call-IsPersisted (uploads d p) s h = (Keeps-upload env laws d p).at s h

  -- After any sequence of these calls to the approval service, of which each may return or throw:
  -- adding a host, setting its permission, removing it, uploading a backup, unlocking, and locking
  -- followed by unlocking; what is stored under the mnemonic loads as exactly the hosts in memory,
  -- if that held before.
  pub approvals-IsPersisted :
      (cs : List Call) (s : Ext) → IsPersisted env s → IsPersisted env (after_calls env cs s)
  approvals-IsPersisted [] s h = h
  approvals-IsPersisted (c ∷ cs) s h =
      approvals-IsPersisted cs (after_call env c s) (after_call-IsPersisted c s h)
