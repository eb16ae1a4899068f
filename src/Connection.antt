-- ===== src/Connection.antt =====
-- services/connection: which identity is connected to which origin, kept in memory and, encrypted,
-- in storage.
pub mod Persist
pub mod Connected
pub mod Reading
use crypt_keeper_extension.Prelude.{
  String, Bool, true, false, Option, none, some, List, [], ◌∷◌, present, find, ◌==◌,
}
use crypt_keeper_extension.Types
use crypt_keeper_extension.Types.{IdentityConnection}
use crypt_keeper_extension.JsMap
use crypt_keeper_extension.JsMap.{JsMap}
use crypt_keeper_extension.State
use crypt_keeper_extension.State.{connect_identity_page, reveal_commitment_page}
use crypt_keeper_extension.Env.{Env}
use crypt_keeper_extension.Exec.{M, pure, ◌>>=◌, ◌>>◌, gets, modify, require, or_throw}
use crypt_keeper_extension.SimpleStorage
use crypt_keeper_extension.SimpleStorage.{connections_key}
use crypt_keeper_extension.Crypto
use crypt_keeper_extension.Crypto.{mnemonic, BackupData}
use crypt_keeper_extension.Base
use crypt_keeper_extension.Base.{connection}
use crypt_keeper_extension.Browser
use crypt_keeper_extension.History
use crypt_keeper_extension.Backupable
use crypt_keeper_extension.ZkIdentity
use crypt_keeper_extension.ZkIdentitySemaphore.{ZkIdentitySemaphore, gen_identity_commitment}

-- `onClean`
unfoldable pub on_clean : M Unit
on_clean = modify (λ s. record s { connections = [] })

unfoldable pub lock : M Bool
unfolding on_clean
lock = Base.on_lock connection on_clean

-- The payload of a request is passed on as it came.
unfoldable pub is_origin_connected : {P : Type 0} → P → Option String → M P
is_origin_connected payload url_origin = do
  origin ← or_throw (present url_origin) "CryptKeeper: origin is not provided"
  connected ← gets (λ s. JsMap.has origin s.connections)
  require connected "CryptKeeper: origin is not connected"
  pure payload

unfoldable pub get_connections : M (JsMap IdentityConnection)
get_connections = gets (λ s. s.connections)

unfoldable pub connect_request : Option String → M Unit
connect_request url_origin = do Browser.open_popup (connect_identity_page url_origin); pure tt

unfoldable pub reveal_connected_identity_commitment_request : Option String → M Unit
reveal_connected_identity_commitment_request url_origin = do
  Browser.open_popup (reveal_commitment_page url_origin)
  pure tt

-- `a || b` of objects
abbrev pub or_else {ℓ} : {A : Type ℓ} → Option A → Option A → Option A
or_else none b = b
or_else (some a) b = some a

-- A lookup under a key that may be `undefined`, which no map holds.
abbrev pub get_at {ℓ} : {V : Type ℓ} → Option String → JsMap V → Option V
get_at none m = none
get_at (some k) m = JsMap.get k m

abbrev pub is_of : Option String → IdentityConnection → Bool
is_of none c = false
is_of (some commitment) c = c.commitment == commitment

-- The connection that `disconnect` means: that of the origin, or the first of the identity.
unfoldable pub connection_of :
    Option String → Option String → JsMap IdentityConnection → Option IdentityConnection
connection_of url_origin commitment m =
    or_else (get_at url_origin m) (find (is_of commitment) (JsMap.values m))

-- `connection?.urlOrigin`, where an empty origin counts as none
abbrev pub origin_of : Option IdentityConnection → Option String
origin_of none = none
origin_of (some c) = present (some c.url_origin)

-- The events of `clear`, one for each origin.
unfoldable pub push_disconnects : List String → M Unit
push_disconnects [] = pure tt
push_disconnects (url_origin ∷ rest) = do
  Browser.push_event (State.disconnect url_origin) (some url_origin)
  push_disconnects rest

unfoldable pub clear : M Unit
unfolding push_disconnects
clear = do
  origins ← gets (λ s. JsMap.keys s.connections)
  push_disconnects origins
  modify (λ s. record s { connections = [] })
  SimpleStorage.clear connections_key

module _ (env : Env) where
  unfoldable pub load_from : Option String → M Unit
  load_from none = pure tt
  load_from (some encrypted) = do
    decrypted ← Crypto.decrypt env encrypted none mnemonic
    entries ← or_throw (env.json_connections.parse decrypted) "Unexpected token in JSON"
    modify (λ s. record s { connections = JsMap.of_entries entries })

  unfoldable pub unlock : M Bool
  unfolding load_from
  unlock = do
    encrypted ← SimpleStorage.get connections_key
    load_from (present encrypted)
    Base.set_unlocked connection
    Base.on_unlocked connection
    pure true

  unfoldable pub save : M Unit
  save = do
    connections ← gets (λ s. s.connections)
    ciphertext ← Crypto.encrypt env (env.json_connections.stringify connections) none mnemonic
    SimpleStorage.set connections_key (some ciphertext)

  unfoldable pub connect : String → Option String → M Unit
  unfolding save
  connect commitment url_origin = do
    origin ← or_throw (present url_origin) "CryptKeeper: origin is not provided"
    found ← ZkIdentity.get_identity env commitment
    z ← or_throw found "CryptKeeper: identity is not found"
    modify (λ s. record s {
      connections =
          JsMap.set origin
            (record { commitment = commitment; name = z.metadata.name; url_origin = origin })
            s.connections;
    })
    save
    Browser.push_event (State.connect z.metadata.name origin) (some origin)

  disconnect_origin : Option String → M Bool
  unfolding save is_origin_connected
  disconnect_origin none = pure false
  disconnect_origin (some origin) = do
    is_origin_connected tt (some origin)
    modify (λ s. record s { connections = JsMap.delete origin s.connections })
    save
    Browser.push_event (State.disconnect origin) (some origin)
    pure true

  -- The payload is the commitment of an identity, the metadata an origin; either may be missing.
  unfoldable pub disconnect : Option String → Option String → M Bool
  unfolding disconnect_origin connection_of
  disconnect commitment url_origin = do
    found ← gets (λ s. connection_of url_origin commitment s.connections)
    disconnect_origin (origin_of found)

  identity_of : Option IdentityConnection → M (Option ZkIdentitySemaphore)
  identity_of none = pure none
  identity_of (some c) = ZkIdentity.get_identity env c.commitment

  unfoldable pub get_connected_identity : Option String → M (Option ZkIdentitySemaphore)
  unfolding identity_of
  get_connected_identity url_origin = do
    found ← gets (λ s. get_at url_origin s.connections)
    identity_of found

  unfoldable pub reveal_connected_identity_commitment : Option String → Option String → M Unit
  reveal_connected_identity_commitment url url_origin = do
    let app_origin = or_else (present url) url_origin
    found ← get_connected_identity app_origin
    z ← or_throw found "CryptKeeper: No connected identity found"
    Browser.push_event (State.reveal_commitment (gen_identity_commitment env z)) app_origin
    History.track_operation env Types.reveal_identity_commitment (record {
      identity =
          some (record { commitment = gen_identity_commitment env z; metadata = z.metadata });
      group = none;
    })

  merge_backup : String → BackupData → M Unit
  unfolding unlock save
  merge_backup backup_password data_given = do
    backup ←
        Backupable.open_backup env "Incorrect backup format for connections" data_given
          backup_password
    unlock
    entries ← or_throw (env.json_connections.parse backup) "Unexpected token in JSON"
    modify (λ s. record s { connections = JsMap.set_all s.connections (JsMap.of_entries entries) })
    save

  upload_given : String → Option BackupData → M Unit
  unfolding merge_backup
  upload_given backup_password none = pure tt
  upload_given backup_password (some d) = merge_backup backup_password d

  unfoldable pub upload_encrypted_storage : Option BackupData → String → M Unit
  unfolding upload_given
  upload_encrypted_storage d backup_password = upload_given backup_password (Backupable.given d)

  unfoldable pub download_encrypted_storage : String → M (Option String)
  download_encrypted_storage backup_password =
      Backupable.download_encrypted_storage env connections_key mnemonic backup_password

unfoldable pub download_storage : M (Option String)
download_storage = Backupable.download_storage connections_key

unfoldable pub restore_storage : Option BackupData → M Unit
restore_storage =
    Backupable.restore_storage connections_key "Incorrect restore format for connections"
