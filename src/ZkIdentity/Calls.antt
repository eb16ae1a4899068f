-- ===== src/ZkIdentity/Calls.antt =====
-- The identities in memory and those in storage agree after the calls to the identity service, also
-- after those that throw.
use crypt_keeper_extension.Prelude.{
  String, true, false, refl, inl, Option, none, some, List, [], ◌∷◌, arith,
}
use crypt_keeper_extension.JsMap
use crypt_keeper_extension.JsMap.{JsMap}
use crypt_keeper_extension.JsMap.Laws.{set-IsMap, delete-IsMap}
use crypt_keeper_extension.Types
use crypt_keeper_extension.ZkIdentity.Unlock.{load_identities_again, load_identities_lem}
use crypt_keeper_extension.Types.{NewIdentityRequest, ImportIdentityArgs, CreateIdentityArgs}
use crypt_keeper_extension.State.{Ext, BrowserEvent}
use crypt_keeper_extension.Env.{Env, Laws}
use crypt_keeper_extension.Exec.{◌>>=◌, ◌>>◌, after}
use crypt_keeper_extension.Exec.Keeps.{
  Keeps, Keeps-bind, Keeps-if, Keeps-gets, Keeps-pure, keeps_rules,
}
use crypt_keeper_extension.SimpleStorage
use crypt_keeper_extension.SimpleStorage.{identities_key}
use crypt_keeper_extension.Browser
use crypt_keeper_extension.Base
use crypt_keeper_extension.History
use crypt_keeper_extension.ZkIdentitySemaphore.{
  ZkIdentitySemaphore, create_new_identity, serialize, update_name,
}
use crypt_keeper_extension.ZkIdentitySemaphore.Laws.{create_new_identity-Unmoved}
use crypt_keeper_extension.Wallet.Reads.{sign_message-reads}
use crypt_keeper_extension.ZkIdentity.{
  refresh, rename, set_identity_name, announce, insert_new, insert_identity, import, signature_for,
  create_identity, delete_identity, clear_all, delete_all_identities, unlock, lock, on_clean,
  get_num_of_identities,
}
use crypt_keeper_extension.ZkIdentity.Persist.{
  IsPersisted, IsPersisted-Unmoved, Keeps-track, Keeps-send, Keeps-refresh, save-Keeps,
}

module _ (env : Env) (laws : Laws env) where
  Keeps-notify : (title message : String) → Keeps (IsPersisted env) (Browser.notify title message)
  unfolding Browser.notify
  Keeps-notify title message = Keeps-send env _

  Keeps-push_event :
      (e : BrowserEvent) (o : Option String) → Keeps (IsPersisted env) (Browser.push_event e o)
  unfolding Browser.push_event
  Keeps-push_event e o = Keeps-send env _

  Keeps-rename :
      (c name : String) (o : Option String) → Keeps (IsPersisted env) (rename env c name o)
  unfolding rename
  Keeps-rename c name none = Keeps-pure false
  Keeps-rename c name (some raw) = Keeps-bind _ _ (search keeps_rules) λ z.
      save-Keeps env laws (JsMap.set c (serialize env (update_name name z))) _ (set-IsMap c _)
        (Keeps-bind _ _ (Keeps-refresh env) λ _. Keeps-pure true)

  Keeps-announce :
      (c : String) (z : ZkIdentitySemaphore) (o : Option String)
      → Keeps (IsPersisted env) (announce env c z o)
  unfolding announce
  Keeps-announce c z o =
      Keeps-bind _ _ (Keeps-track env _ _)
        λ _. Keeps-bind _ _ (Keeps-notify _ _) λ _. Keeps-push_event _ _

  Keeps-insert_new :
      (c : String) (z : ZkIdentitySemaphore) (o : Option String)
      → Keeps (IsPersisted env) (insert_new env c z o)
  unfolding insert_new
  Keeps-insert_new c z o = save-Keeps env laws (JsMap.set c (serialize env z)) _ (set-IsMap c _) (
      Keeps-bind _ _ (Keeps-refresh env)
        λ _. Keeps-bind _ _ (Keeps-announce c z o) λ _. Keeps-pure true)

  Keeps-insert :
      (z : ZkIdentitySemaphore) (o : Option String)
      → Keeps (IsPersisted env) (insert_identity env z o)
  unfolding insert_identity
  Keeps-insert z o =
      Keeps-bind _ _ (Keeps-gets _)
        λ exists. Keeps-if exists _ _ (Keeps-pure false) (Keeps-insert_new _ z o)

  Keeps-create_new : (a : CreateIdentityArgs) → Keeps (IsPersisted env) (create_new_identity env a)
  Keeps-create_new a = record {
    at = λ s h. IsPersisted-Unmoved env s _ (create_new_identity-Unmoved env a s) h;
  }

  Keeps-sign : (r : NewIdentityRequest) → Keeps (IsPersisted env) (signature_for env r)
  unfolding signature_for
  Keeps-sign r =
      Keeps-if _ _ _
        (Keeps-bind _ _
          (record {
            at = λ s h. rw (sign_message-reads env r.options.message r.options.account s) h;
          })
          (λ _. Keeps-pure _))
        (Keeps-pure _)

  ruleset insert_rules = (keeps_rules, Keeps-create_new, Keeps-insert, Keeps-sign)

  Keeps-create : (r : NewIdentityRequest) → Keeps (IsPersisted env) (create_identity env r)
  unfolding create_identity get_num_of_identities
  Keeps-create r = Keeps-bind _ _ (Keeps-gets _) λ n. Keeps-bind _ _ (Keeps-sign r) λ g.
      Keeps-bind _ _ (Keeps-create_new _)
        λ z. Keeps-bind _ _ (Keeps-insert z _) λ b. search keeps_rules

  Keeps-import : (a : ImportIdentityArgs) → Keeps (IsPersisted env) (import env a)
  unfolding import
  Keeps-import a =
      Keeps-bind _ _ (Keeps-create_new _)
        λ z. Keeps-bind _ _ (Keeps-insert z _) λ b. search keeps_rules

  Keeps-set_name : (c name : String) → Keeps (IsPersisted env) (set_identity_name env c name)
  unfolding set_identity_name
  Keeps-set_name c name = Keeps-bind _ _ (Keeps-gets _) λ o. Keeps-rename c name o

  Keeps-delete : (c : String) → Keeps (IsPersisted env) (delete_identity env c)
  unfolding delete_identity
  Keeps-delete c = Keeps-bind _ _ (Keeps-gets _) λ o. Keeps-bind _ _ (search keeps_rules) λ t.
      save-Keeps env laws (JsMap.delete c) _ (delete-IsMap c) (
        Keeps-bind _ _ (search keeps_rules) λ z.
          Keeps-bind _ _ (Keeps-track env _ _)
            λ _. Keeps-bind _ _ (Keeps-refresh env) λ _. Keeps-pure c)

  Keeps-clear_all : Keeps (IsPersisted env) (clear_all env)
  unfolding clear_all on_clean SimpleStorage.clear ◌>>=◌
  Keeps-clear_all = record {
    at = λ s h.
        (Keeps-bind _ _ (Keeps-track env Types.delete_all_identities History.no_options) λ _.
            Keeps-bind _ _ (Keeps-notify "Identities removed" "Identity storage has been cleared")
              λ _. Keeps-pure true).at
          _
          (record {
            key = h.key;
            held = h.held;
            key_truthy = h.key_truthy;
            is_map = tt;
            loads = refl;
          });
  }

  Keeps-delete_all : Keeps (IsPersisted env) (delete_all_identities env)
  unfolding delete_all_identities
  Keeps-delete_all =
      Keeps-bind _ _ (Keeps-gets _) λ n. Keeps-if _ _ _ (Keeps-pure false) Keeps-clear_all

  Keeps-unlock : Keeps (IsPersisted env) (unlock env)
  unfolding unlock Base.on_unlocked Base.set_unlocked ◌>>=◌
  Keeps-unlock = record { at = λ s h. rw (load_identities_again env s h) (ground (arith, h)) }

  -- Locked and unlocked again: the memory is emptied, and loaded from storage.
  Keeps-relock : Keeps (IsPersisted env) (lock >> unlock env)
  unfolding lock on_clean unlock Base.on_lock Base.on_unlocked Base.set_unlocked ◌>>=◌
  Keeps-relock = record {
    at = λ s h.
        rw
          (load_identities_lem env s.identities h.key (after lock s) h.held h.key_truthy h.loads
            (inl refl))
          (ground (arith, h));
  }

-- A call to the service from the popup; `relocks` is a locking followed by an unlocking.
-- Uploading a backup, locking alone, which empties the memory only, and `restoreStorage`, which writes the storage only,
-- are no such calls.
pub data Call : Type 0 where
  creates : NewIdentityRequest → Call
  imports : ImportIdentityArgs → Call
  renames : String → String → Call
  deletes : String → Call
  deletes_all unlocks relocks refreshes : Call

module _ (env : Env) where
  -- The state after a call, also one that has thrown.
  abbrev pub after_call : Call → Ext → Ext
  after_call (creates r) = after (create_identity env r)
  after_call (imports a) = after (import env a)
  after_call (renames c name) = after (set_identity_name env c name)
  after_call (deletes c) = after (delete_identity env c)
  after_call deletes_all = after (delete_all_identities env)
  after_call unlocks = after (unlock env)
  after_call relocks = after (lock >> unlock env)
  after_call refreshes = after (refresh env)

  abbrev pub after_calls : List Call → Ext → Ext
  after_calls [] s = s
  after_calls (c ∷ cs) s = after_calls cs (after_call c s)

module _ (env : Env) (laws : Laws env) where
  after_call-IsPersisted :
      (c : Call) (s : Ext) → IsPersisted env s → IsPersisted env (after_call env c s)
  after_call-IsPersisted (creates r) s h = (Keeps-create env laws r).at s h
  after_call-IsPersisted (imports a) s h = (Keeps-import env laws a).at s h
  after_call-IsPersisted (renames c name) s h = (Keeps-set_name env laws c name).at s h
  after_call-IsPersisted (deletes c) s h = (Keeps-delete env laws c).at s h
  after_call-IsPersisted deletes_all s h = (Keeps-delete_all env laws).at s h
  after_call-IsPersisted unlocks s h = (Keeps-unlock env laws).at s h
  after_call-IsPersisted relocks s h = (Keeps-relock env laws).at s h
  after_call-IsPersisted refreshes s h = (Keeps-refresh env).at s h

  -- After any sequence of these calls to the identity service, of which each may return or throw:
  -- creating, importing and renaming an identity, deleting one or all, refreshing, unlocking, and
  -- locking followed by unlocking; what is stored under the mnemonic loads as exactly the
  -- identities in memory, if that held before.
  pub identities-IsPersisted :
      (cs : List Call) (s : Ext) → IsPersisted env s → IsPersisted env (after_calls env cs s)
  identities-IsPersisted [] s h = h
  identities-IsPersisted (c ∷ cs) s h =
      identities-IsPersisted cs (after_call env c s) (after_call-IsPersisted c s h)
