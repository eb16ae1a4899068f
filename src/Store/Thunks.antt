-- ===== src/Store/Thunks.antt =====
-- The thunks of ui/ducks that put an answer of the background page into the store. Each reads the
-- store, calls the background page, and leaves a store; one that throws leaves the store as it was.
-- The extension is unlocked, so that `ensure` passes the calls on, except for the thunk that sets the
-- permission of a host, which has its `ensure`.
use crypt_keeper_extension.Prelude.{String, Bool, true, false, Option, none, some, List, [], map}
use crypt_keeper_extension.Types.{HostPermission, LockStatus}
use crypt_keeper_extension.Requests.{ResolutionAction, PendingRequest}
use crypt_keeper_extension.Env.{Env}
use crypt_keeper_extension.Exec.{M, pure, throw, ◌>>=◌, ◌>>◌, or_throw}
use crypt_keeper_extension.Messages.{post_message}
use crypt_keeper_extension.Lock
use crypt_keeper_extension.Misc
use crypt_keeper_extension.Wallet
use crypt_keeper_extension.History
use crypt_keeper_extension.Approval
use crypt_keeper_extension.Connection
use crypt_keeper_extension.ZkIdentity
use crypt_keeper_extension.RequestManager
use crypt_keeper_extension.Browser
use crypt_keeper_extension.Credentials
use crypt_keeper_extension.Credentials.{CredentialApi}
use crypt_keeper_extension.Store.{
  Store, dispatch, set_status, set_mnemonic, set_disconnected_permanently, set_selected_account,
  set_identities, set_operations, set_settings, set_permission, remove_host_permission,
  set_pending_requests, set_connections, set_verifiable_credentials,
}

abbrev pub Thunk : Type 0 → Type 0
Thunk A = Store → M (A × Store)

-- `postMessage` of a method that is registered. Only an error without a message would give `null`.
unfoldable pub post : {A : Type 0} → M A → M A
unfolding post_message
post m = do found ← post_message m; or_throw found "Cannot read properties of null"

-- ducks/app.ts
unfoldable pub close_popup : M Bool
unfolding post
close_popup = post Browser.close_popup

unfoldable pub fetch_status : Thunk LockStatus
unfolding post
fetch_status store = do
  status ← post Lock.get_status
  pure (status, dispatch (set_status status) store)

unfoldable pub set_wallet_connection : Bool → Thunk Unit
unfolding post
set_wallet_connection b store = do
  post (Misc.set_external_wallet_connection b)
  pure (tt, dispatch (set_disconnected_permanently b) store)

-- `Boolean(response?.isDisconnectedPermanently)`
abbrev truth_of : Option Bool → Bool
truth_of none = false
truth_of (some b) = b

unfoldable pub get_wallet_connection : Thunk Unit
unfolding post
get_wallet_connection store = do
  response ← post Misc.get_external_wallet_connection
  pure (tt, dispatch (set_disconnected_permanently (truth_of response)) store)

-- ducks/permissions.ts
unfoldable pub fetch_host_permissions : String → Thunk Unit
unfolding post
fetch_host_permissions url_origin store = do
  res ← post (Approval.get_permission url_origin)
  pure (
    tt,
    dispatch
        (set_permission
          (record { url_origin = url_origin; can_skip_approve = res.can_skip_approve }))
        store,
  )

-- ducks/requests.ts
unfoldable pub fetch_pending_requests : Thunk (List PendingRequest)
unfolding post
fetch_pending_requests store = do
  pending ← post RequestManager.get_requests
  pure (pending, dispatch (set_pending_requests pending) store)

unfoldable pub finalize_request : ResolutionAction → M Bool
unfolding post
finalize_request action = post (RequestManager.finalize_request action)

-- ducks/connections.ts
unfoldable pub fetch_connections : Thunk Unit
unfolding post
fetch_connections store = do
  connections ← post Connection.get_connections
  pure (tt, dispatch (set_connections connections) store)

-- ducks/identities.ts
unfoldable pub clear_history : Thunk Unit
unfolding post
clear_history store = do post History.clear; pure (tt, dispatch (set_operations []) store)

module _ (env : Env) where
  -- ducks/app.ts
  unfoldable pub generate_mnemonic : Option String → Thunk Unit
  unfolding post
  generate_mnemonic user_mnemonic store = do
    mnemonic ← post (Wallet.generate_mnemonic env user_mnemonic)
    pure (tt, dispatch (set_mnemonic mnemonic) store)

  abbrev ready_status : LockStatus
  ready_status = record { is_initialized = true; is_unlocked = true; is_mnemonic_generated = true }

  unfoldable pub save_mnemonic : Thunk Unit
  unfolding post
  save_mnemonic store = do
    post (Wallet.generate_key_pair env)
    pure (tt, dispatch (set_mnemonic "") (dispatch (set_status ready_status) store))

  unfoldable pub get_selected_account : Thunk Unit
  unfolding post
  get_selected_account store = do
    account ← post (Wallet.get_selected_account env)
    pure (tt, dispatch (set_selected_account account) store)

  unfoldable pub select_account : String → Thunk Unit
  unfolding post
  select_account address store = do
    post (Wallet.select_account env address)
    pure (tt, dispatch (set_selected_account (some address)) store)

  -- ducks/identities.ts
  unfoldable pub fetch_identities : Thunk Unit
  unfolding post
  fetch_identities store = do
    identities ← post (ZkIdentity.get_identities env)
    pure (tt, dispatch (set_identities identities) store)

  -- `loadOperations` answers with the operations and the settings that it has loaded.
  unfoldable pub fetch_history : Thunk Unit
  unfolding post
  fetch_history store = do
    operations ← post (History.load_operations env)
    settings ← History.get_settings
    pure (tt, dispatch (set_settings settings) (dispatch (set_operations operations) store))

  unfoldable pub delete_history_operation : String → Thunk Unit
  unfolding post
  delete_history_operation id store = do
    operations ← post (History.remove_operation env id)
    pure (tt, dispatch (set_operations operations) store)

  unfoldable pub enable_history : Bool → Thunk Unit
  unfolding post
  enable_history is_enabled store = do
    post (History.enable_history env is_enabled)
    pure (tt, dispatch (set_settings (some (record { is_enabled = is_enabled }))) store)

  -- `setPermission` of what `ensure` passes on. It gets `false` where the extension is locked: there
  -- is no mnemonic, and its write fails. The entry that it leaves in memory under the key `undefined`
  -- is of no host, and is left out.
  unfoldable pub set_passed : Option HostPermission → M HostPermission
  set_passed none = throw "Password is not provided"
  set_passed (some p) = Approval.set_permission env p

  -- SET_HOST_PERMISSIONS as it is registered
  unfoldable pub ensured_set_permission : HostPermission → M HostPermission
  unfolding set_passed
  ensured_set_permission p = do passed ← Lock.ensure p; set_passed passed

  -- ducks/permissions.ts
  unfoldable pub set_host_permissions : HostPermission → Thunk Unit
  unfolding post
  set_host_permissions p store = do
    post (ensured_set_permission p)
    pure (tt, dispatch (set_permission p) store)

  unfoldable pub remove_host : String → Thunk Unit
  unfolding post
  remove_host url_origin store = do
    post (Approval.remove env url_origin)
    pure (tt, dispatch (remove_host_permission url_origin) store)

  -- ducks/connections.ts: by the identity; the connections are fetched after it.
  unfoldable pub disconnect : String → Thunk Bool
  unfolding post fetch_connections
  disconnect commitment store = do
    is_disconnected ← post (Connection.disconnect env (some commitment) none)
    fetched ← fetch_connections store
    pure (is_disconnected, fetched.1)

  -- ducks/verifiableCredentials.ts
  unfoldable pub fetch_verifiable_credentials : CredentialApi → Thunk Unit
  unfolding post
  fetch_verifiable_credentials api store = do
    credentials ← post (Credentials.get_all env api)
    pure (
      tt,
      dispatch (set_verifiable_credentials (map (Credentials.serialize api) credentials)) store,
    )
