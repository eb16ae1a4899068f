-- ===== src/Session/Lifecycle.antt =====
-- Locking the extension and unlocking it again.
use crypt_keeper_extension.Prelude.{
  ℕ, String, true, false, ◌≡◌, refl, inl, inr, Option, none, some, List, [], ◌∷◌, arith, truthy,
  present, subst, ◌∙◌,
}
use crypt_keeper_extension.JsMap.{JsMap}
use crypt_keeper_extension.Types.{HostPermission, IdentityConnection}
use crypt_keeper_extension.State.{Ext, Base, Secrets, Effect, resolved}
use crypt_keeper_extension.Env.{Env}
use crypt_keeper_extension.Exec.{M, ok, ◌>>=◌, ◌>>◌, after, result}
use crypt_keeper_extension.SimpleStorage
use crypt_keeper_extension.Prelude.Codec.{Codec}
use crypt_keeper_extension.Stored.{stored, IsMirror}
use crypt_keeper_extension.Base
use crypt_keeper_extension.Base.{Service, base, set_base}
use crypt_keeper_extension.Crypto
use crypt_keeper_extension.Misc
use crypt_keeper_extension.Lock
use crypt_keeper_extension.Lock.Unlocking.{IsSetUp, unlock_right}
use crypt_keeper_extension.Approval
use crypt_keeper_extension.Approval.Persist as ApprovalPersist
use crypt_keeper_extension.ZkIdentity
use crypt_keeper_extension.ZkIdentity.Persist as ZkIdentityPersist
use crypt_keeper_extension.ZkIdentity.Unlock.{load_identities_lem}
use crypt_keeper_extension.Connection
use crypt_keeper_extension.Connection.Persist as ConnectionPersist
use crypt_keeper_extension.Session.{lock, unlock}

abbrev locked : Base
locked = record { is_unlocked = false; unlock_cb = none }

abbrev unlocked : Base
unlocked = record { is_unlocked = true; unlock_cb = none }

abbrev no_secrets : Secrets
no_secrets = record { password = none; mnemonic = none }

-- Locking succeeds and forgets the secrets, the identities and the approved hosts; the storage stays
-- as it was. The connection service is not locked: its connections stay in memory, and its flag as
-- it was.
pub lock_forgets :
    (s : Ext)
    → (result lock s ≡ ok true)
      × ((after lock s).secrets ≡ no_secrets)
      × ((after lock s).identities ≡ [])
      × ((after lock s).allowed_hosts ≡ [])
      × ((after lock s).locker ≡ locked)
      × ((after lock s).identity ≡ locked)
      × ((after lock s).approval ≡ locked)
      × ((after lock s).storage ≡ s.storage)
      × ((after lock s).connections ≡ s.connections)
      × ((after lock s).connection ≡ s.connection)
unfolding lock Lock.lock Lock.notify_status_change Crypto.clear SimpleStorage.get
    Misc.get_initialization ZkIdentity.lock Approval.lock Base.on_lock ◌>>=◌
lock_forgets s = ground arith

-- The effects after a call of the callback.
abbrev called : Option ℕ → List Effect → List Effect
called none es = es
called (some w) es = resolved w ∷ es

module _ (env : Env) where
  approval_unlock_lem :
      (m : JsMap HostPermission) (key : String) (s : Ext)
      → s.secrets.mnemonic ≡ some key
      → truthy key ≡ true
      → stored env env.json_hosts key (present s.storage.approvals) ≡ some m
      → s.allowed_hosts ≡ []
      → Approval.unlock env s ≡ (
        ok true,
        record s {
          allowed_hosts = m;
          approval = unlocked;
          effects = called s.approval.unlock_cb s.effects;
        },
      )
  unfolding Approval.unlock SimpleStorage.get Base.set_unlocked Base.on_unlocked ◌>>=◌
  approval_unlock_lem m key s held full loads empty =
      rw (ApprovalPersist.load_lem env m key s held full loads (inl empty)) (ground arith)

  identity_unlock_lem :
      (m : JsMap String) (key : String) (s : Ext)
      → s.secrets.mnemonic ≡ some key
      → truthy key ≡ true
      → stored env env.json_entries key (present s.storage.identities) ≡ some m
      → s.identities ≡ []
      → ZkIdentity.unlock env s ≡ (
        ok true,
        record s {
          identities = m;
          identity = unlocked;
          effects = called s.identity.unlock_cb s.effects;
        },
      )
  unfolding ZkIdentity.unlock Base.set_unlocked Base.on_unlocked ◌>>=◌
  identity_unlock_lem m key s held full loads empty =
      rw (load_identities_lem env m key s held full loads (inl empty)) (ground arith)

  connection_unlock_lem :
      (m : JsMap IdentityConnection) (key : String) (s : Ext)
      → s.secrets.mnemonic ≡ some key
      → truthy key ≡ true
      → stored env env.json_connections key (present s.storage.connections) ≡ some m
      → s.connections ≡ m
      → Connection.unlock env s ≡ (
        ok true,
        record s {
          connections = m;
          connection = unlocked;
          effects = called s.connection.unlock_cb s.effects;
        },
      )
  unfolding Connection.unlock SimpleStorage.get Base.set_unlocked Base.on_unlocked ◌>>=◌
  connection_unlock_lem m key s held full loads same =
      rw (ConnectionPersist.load_lem env m key s held full loads (inr same)) (ground arith)

  -- What the services would load with the mnemonic `m`.
  record IsLoadable (m : String) (s : Ext) (hosts : JsMap HostPermission) (ids : JsMap String)
      : Type 0 where
    full : truthy m ≡ true
    hosts_load : stored env env.json_hosts m (present s.storage.approvals) ≡ some hosts
    ids_load : stored env env.json_entries m (present s.storage.identities) ≡ some ids
    links_load :
        stored env env.json_connections m (present s.storage.connections) ≡ some s.connections

  -- The chain after the unlocking of the lock service.
  chain_lem :
      (m : String) (hosts : JsMap HostPermission) (ids : JsMap String) (t : Ext)
      → t.secrets.mnemonic ≡ some m
      → t.locker ≡ unlocked
      → IsLoadable m t hosts ids
      → t.allowed_hosts ≡ []
      → t.identities ≡ []
      → (u : Ext) × ((do
        Approval.unlock env
        ZkIdentity.unlock env
        Connection.unlock env
        Base.on_unlocked Base.locker
        Base.on_unlocked Base.approval
        Base.on_unlocked Base.identity
        Base.on_unlocked Base.connection)
            t
          ≡ (ok true, u))
        × (u.allowed_hosts ≡ hosts)
        × (u.identities ≡ ids)
        × (u.connections ≡ t.connections)
        × (u.secrets ≡ t.secrets)
        × (u.storage ≡ t.storage)
        × (u.locker ≡ unlocked)
        × (u.approval ≡ unlocked)
        × (u.identity ≡ unlocked)
        × (u.connection ≡ unlocked)
  unfolding Base.on_unlocked ◌>>=◌
  chain_lem m hosts ids t held open_ h no_hosts no_ids =
      let t1 : Ext = record t {
        allowed_hosts = hosts;
        approval = unlocked;
        effects = called t.approval.unlock_cb t.effects;
      } in
      let t2 : Ext = record t1 {
        identities = ids;
        identity = unlocked;
        effects = called t1.identity.unlock_cb t1.effects;
      } in
      let t3 : Ext = record t2 {
        locker = unlocked;
        connection = unlocked;
        effects = called t2.connection.unlock_cb t2.effects;
      } in
      (
        t3,
        rw
            (
              approval_unlock_lem hosts m t held h.full h.hosts_load no_hosts,
              identity_unlock_lem ids m t1 held h.full h.ids_load no_ids,
              connection_unlock_lem t.connections m t2 held h.full h.links_load refl,
              open_,
            )
            refl,
        refl,
        refl,
        refl,
        refl,
        refl,
        refl,
        refl,
        refl,
        refl,
      )

  bind_ok :
      {A B : Type 0} (m : M A) (f : A → M B) (s : Ext) (a : A)
      → result m s ≡ ok a
      → (m >>= f) s ≡ f a (after m s)
  unfolding ◌>>=◌
  bind_ok m f s a e = rw e refl

  IsSetUp-storage :
      (p m : String) (s t : Ext) → t.storage ≡ s.storage → IsSetUp env p m s → IsSetUp env p m t
  IsSetUp-storage p m s t e h = record {
    password_full = h.password_full;
    mnemonic_full = h.mnemonic_full;
    checker = h.checker;
    checker_stored = rw e h.checker_stored;
    checker_opens = h.checker_opens;
    phrase = h.phrase;
    phrase_stored = rw e h.phrase_stored;
    phrase_opens = h.phrase_opens;
    phrase_valid = h.phrase_valid;
    finished = rw e h.finished;
  }

  loads_under :
      {V : Type 0} (c : Codec (List (String × V))) (m : String) (secret text : Option String)
      (v : JsMap V)
      → secret ≡ some m
      → IsMirror env c secret text v
      → stored env c m (present text) ≡ some v
  loads_under c m secret text v held h =
      subst (λ k. stored env c k (present text) ≡ some v) (ground (arith, h.held, held)) h.loads

  -- After locking, unlocking with the password of the installation succeeds and gives back the
  -- identities, the approved hosts, the connections and the secrets, if before the locking the
  -- three services were in step with the storage. All four services are unlocked then.
  pub unlock-lock :
      (p m : String) (s : Ext)
      → IsSetUp env p m s
      → s.secrets.mnemonic ≡ some m
      → ApprovalPersist.IsPersisted env s
      → ZkIdentityPersist.IsPersisted env s
      → ConnectionPersist.IsPersisted env s
      → (u : Ext) × (unlock env p (after lock s) ≡ (ok true, u))
        × (u.allowed_hosts ≡ s.allowed_hosts)
        × (u.identities ≡ s.identities)
        × (u.connections ≡ s.connections)
        × (u.secrets ≡ record { password = some p; mnemonic = some m })
        × (u.storage ≡ s.storage)
        × (u.locker ≡ unlocked)
        × (u.approval ≡ unlocked)
        × (u.identity ≡ unlocked)
        × (u.connection ≡ unlocked)
  unfolding unlock
  unlock-lock p m s setup held hosts ids links =
      let a = after lock s in
      let (_, _, no_ids, no_hosts, _, _, _, kept, linked, _) = lock_forgets s in
      let t = after (Lock.unlock env p true) a in
      let (opened, secrets, open_, same, ids_same, hosts_same, links_same) =
        unlock_right env p m true a (IsSetUp-storage p m s a kept setup) in
      let ready : IsLoadable m t s.allowed_hosts s.identities = record {
        full = setup.mnemonic_full;
        hosts_load = rw (same ∙ kept) (loads_under env.json_hosts m _ _ s.allowed_hosts held hosts);
        ids_load = rw (same ∙ kept) (loads_under env.json_entries m _ _ s.identities held ids);
        links_load =
            rw (same ∙ kept, links_same ∙ linked)
              (loads_under env.json_connections m _ _ s.connections held links);
      } in
      let (u, e, uh, ui, uc, us, ust, l1, l2, l3, l4) =
        chain_lem m s.allowed_hosts s.identities t (rw secrets refl) open_ ready
          (hosts_same ∙ no_hosts) (ids_same ∙ no_ids) in
      (
        u,
        bind_ok _ _ a true opened ∙ e,
        uh,
        ui,
        uc ∙ links_same ∙ linked,
        us ∙ secrets,
        ust ∙ same ∙ kept,
        l1,
        l2,
        l3,
        l4,
      )
