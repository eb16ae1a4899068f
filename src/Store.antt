-- ===== src/Store.antt =====
-- packages/app/src/ui/ducks: the popup's store, its slices, its reducers and what its hooks select.
pub mod Thunks
pub mod Origins
pub mod Posting
pub mod Permissions
use crypt_keeper_extension.Prelude.{
  String, Bool, true, false, Option, none, some, List, [], ◌∷◌, find, present, ◌==◌,
}
use crypt_keeper_extension.JsMap
use crypt_keeper_extension.JsMap.{JsMap}
use crypt_keeper_extension.Types.{
  IdentityData, Operation, HistorySettings, HostPermission, IdentityConnection, LockStatus,
}
use crypt_keeper_extension.Requests.{PendingRequest}

-- ducks/app.ts
pub record AppState : Type 0 where
  pub is_initialized : Bool
  pub is_unlocked : Bool
  pub is_mnemonic_generated : Bool
  pub mnemonic : Option String
  pub selected_account : Option String
  pub is_disconnected_permanently : Option Bool

-- ducks/identities.ts
pub record IdentitiesState : Type 0 where
  pub identities : List IdentityData
  pub operations : List Operation
  pub request_pending : Bool
  pub settings : Option HistorySettings

-- The slices of ducks/permissions.ts, requests.ts, connections.ts and verifiableCredentials.ts have
-- one field each.
pub record Store : Type 0 where
  pub app : AppState
  pub identities : IdentitiesState
  pub can_skip_approvals : JsMap HostPermission
  pub pending_requests : List PendingRequest
  pub connections : JsMap IdentityConnection
  pub serialized_verifiable_credentials : List String

abbrev pub initial_store : Store
initial_store = record {
  app = record {
    is_initialized = false;
    is_unlocked = false;
    is_mnemonic_generated = false;
    mnemonic = none;
    selected_account = none;
    is_disconnected_permanently = none;
  };
  identities = record {
    identities = [];
    operations = [];
    request_pending = false;
    settings = none;
  };
  can_skip_approvals = [];
  pending_requests = [];
  connections = [];
  serialized_verifiable_credentials = [];
}

-- The actions of all slices; an address that is missing stands for `undefined`.
pub data Action : Type 0 where
  set_status : LockStatus → Action
  set_mnemonic : String → Action
  set_disconnected_permanently : Bool → Action
  set_selected_account : Option String → Action
  set_identity_request_pending : Bool → Action
  set_identities : List IdentityData → Action
  set_operations : List Operation → Action
  set_settings : Option HistorySettings → Action
  set_permission : HostPermission → Action
  remove_host_permission : String → Action
  set_pending_requests : List PendingRequest → Action
  set_connections : JsMap IdentityConnection → Action
  set_verifiable_credentials : List String → Action

-- The reducers of the slices, of which each leaves its state at an action of another slice.
abbrev app_reducer : Action → AppState → AppState
app_reducer (set_status status) state = record state {
  is_initialized = status.is_initialized;
  is_unlocked = status.is_unlocked;
  is_mnemonic_generated = status.is_mnemonic_generated;
}
app_reducer (set_mnemonic mnemonic) state = record state { mnemonic = some mnemonic }
app_reducer (set_disconnected_permanently b) state = record state {
  is_disconnected_permanently = some b;
}
app_reducer (set_selected_account address) state = record state { selected_account = address }
app_reducer other state = state

abbrev identities_reducer : Action → IdentitiesState → IdentitiesState
identities_reducer (set_identity_request_pending b) state = record state { request_pending = b }
identities_reducer (set_identities identities) state = record state { identities = identities }
identities_reducer (set_operations operations) state = record state { operations = operations }
identities_reducer (set_settings settings) state = record state { settings = settings }
identities_reducer other state = state

abbrev permissions_reducer : Action → JsMap HostPermission → JsMap HostPermission
permissions_reducer (set_permission p) approvals = JsMap.set p.url_origin p approvals
permissions_reducer (remove_host_permission url_origin) approvals =
    JsMap.delete url_origin approvals
permissions_reducer other approvals = approvals

abbrev requests_reducer : Action → List PendingRequest → List PendingRequest
requests_reducer (set_pending_requests requests) before = requests
requests_reducer other before = before

abbrev connections_reducer : Action → JsMap IdentityConnection → JsMap IdentityConnection
connections_reducer (set_connections connections) before = connections
connections_reducer other before = before

abbrev credentials_reducer : Action → List String → List String
credentials_reducer (set_verifiable_credentials credentials) before = credentials
credentials_reducer other before = before

-- An action goes to the reducer of each slice.
unfoldable pub dispatch : Action → Store → Store
dispatch action store = record {
  app = app_reducer action store.app;
  identities = identities_reducer action store.identities;
  can_skip_approvals = permissions_reducer action store.can_skip_approvals;
  pending_requests = requests_reducer action store.pending_requests;
  connections = connections_reducer action store.connections;
  serialized_verifiable_credentials =
      credentials_reducer action store.serialized_verifiable_credentials;
}

-- `useIdentity`
abbrev identity_at : Option String → List IdentityData → Option IdentityData
identity_at none identities = none
identity_at (some commitment) identities = find (λ i. i.commitment == commitment) identities

unfoldable pub use_identity : Option String → Store → Option IdentityData
use_identity commitment store = identity_at (present commitment) store.identities.identities

-- `useConnection`
abbrev connection_at : Option String → JsMap IdentityConnection → Option IdentityConnection
connection_at none connections = none
connection_at (some url_origin) connections = JsMap.get url_origin connections

unfoldable pub use_connection : Option String → Store → Option IdentityConnection
use_connection url_origin store = connection_at (present url_origin) store.connections

-- `useHostPermission`
unfoldable pub use_host_permission : String → Store → Option HostPermission
use_host_permission url_origin store = JsMap.get url_origin store.can_skip_approvals

-- `useConnectedOrigins`: the origin of each identity that is connected, by its commitment.
unfoldable pub origins_from : JsMap String → JsMap IdentityConnection → JsMap String
origins_from acc [] = acc
origins_from acc ((url_origin, connection) ∷ rest) =
    origins_from (JsMap.set connection.commitment url_origin acc) rest

unfoldable pub use_connected_origins : Store → JsMap String
unfolding origins_from
use_connected_origins store = origins_from [] store.connections
