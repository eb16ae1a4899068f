-- ===== src/State.antt =====
-- The state of the extension's background page: the browser's storage, the memory of each service
-- (each is a singleton), and what it has sent to the outside.
use crypt_keeper_extension.Prelude.{ℕ, String, Bool, false, Option, none, List, []}
use crypt_keeper_extension.JsMap.{JsMap}
use crypt_keeper_extension.Requests.{MerkleProof, PendingRequest, Waiter, Outcome, JoinGroupArgs}
use crypt_keeper_extension.Types.{
  IdentityData, HostPermission, IdentityConnection, Operation, HistorySettings, InitializationStep,
  LockStatus,
}

-- `browser.storage.sync`, a field for each key that a service owns.
pub record Storage : Type 0 where
  pub password : Option String
  pub mnemonic : Option String
  pub accounts : Option String
  pub selected_account : Option String
  pub approvals : Option String
  pub identities : Option String
  pub connections : Option String
  pub credentials : Option String
  pub history : Option String
  pub history_settings : Option String
  pub initialization : Option InitializationStep
  pub external_wallet : Option Bool

-- `secrets` of CryptoService.
pub record Secrets : Type 0 where
  pub password : Option String
  pub mnemonic : Option String

-- The fields of BaseService. The callback resolves the promise of one waiter, named by a number.
pub record Base : Type 0 where
  pub is_unlocked : Bool
  pub unlock_cb : Option ℕ

pub data BrowserEvent : Type 0 where
  approval : Bool → String → BrowserEvent
  create_identity import_identity : String → BrowserEvent
  connect : String → String → BrowserEvent
  disconnect : String → BrowserEvent
  reveal_commitment : String → BrowserEvent
  joined_group : String → BrowserEvent
  group_merkle_proof : MerkleProof → BrowserEvent
  user_reject : String → Option String → BrowserEvent
  -- `false`, where `ensure` has passed no event on
  no_event : BrowserEvent

pub data Page : Type 0 where
  create_identity_page : String → Page
  import_identity_page : String → String → String → Page
  connect_identity_page reveal_commitment_page : Option String → Page
  upload_backup_page onboarding_backup_page default_page : Page
  add_credential_page presentation_request_page : String → Page
  join_group_page : JoinGroupArgs → Option String → Page
  group_merkle_proof_page : String → Option String → Page

-- `proof` of a signed presentation, and a presentation; a credential stands as its canonical JSON.
pub record PresentationProof : Type 0 where
  pub type : List String
  pub proof_purpose : String
  pub verification_method : String
  pub created : String
  pub proof_value : String

pub record Presentation : Type 0 where
  pub context : List String
  pub id : Option String
  pub type : List String
  pub verifiable_credential : Option (List String)
  pub holder : Option String
  pub proof : Option (List PresentationProof)

-- What goes to the active tabs.
pub data TabMessage : Type 0 where
  rejected_credential rejected_presentation : TabMessage
  added_credential : String → TabMessage
  generated_presentation : Presentation → TabMessage

-- What leaves the background page, by kind: a message to the popup's store, a notification with its
-- title and message, an event for the tabs of an origin, a popup opened at a page, a popup that was
-- open already and was focused, a closed popup, a resolved promise of `awaitUnlock`, a message for
-- the active tabs, the queue of requests for the popup's store, a settled promise of `newRequest`.
pub data Effect : Type 0 where
  set_identities : List IdentityData → Effect
  set_status : LockStatus → Effect
  set_selected_account : String → Effect
  notification : String → String → Effect
  event : BrowserEvent → Option String → Effect
  opened : Page → Effect
  focused_popup closed_popup : Effect
  resolved : ℕ → Effect
  tab_message : TabMessage → Effect
  set_pending_requests : List PendingRequest → Effect
  settled : String → Outcome → Effect

pub record Ext : Type 0 where
  pub storage : Storage
  pub secrets : Secrets
  pub locker : Base
  pub approval : Base
  pub identity : Base
  pub connection : Base
  pub identities : JsMap String
  pub allowed_hosts : JsMap HostPermission
  pub connections : JsMap IdentityConnection
  pub operations : List Operation
  pub settings : Option HistorySettings
  -- RequestManager: the queue, the promises that wait, and the number of the next request
  pub pending_requests : List PendingRequest
  pub waiters : List Waiter
  pub nonce : ℕ
  -- the window of the popup that is open, and the windows that the browser has opened so far
  pub popup : Option ℕ
  pub windows : ℕ
  -- the random values and times drawn so far
  pub draws : ℕ
  -- the newest first
  pub effects : List Effect

abbrev locked_base : Base
locked_base = record { is_unlocked = false; unlock_cb = none }

-- The state right after installation.
abbrev pub installed : Ext
installed = record {
  storage = record {
    password = none;
    mnemonic = none;
    accounts = none;
    selected_account = none;
    approvals = none;
    identities = none;
    connections = none;
    credentials = none;
    history = none;
    history_settings = none;
    initialization = none;
    external_wallet = none;
  };
  secrets = record { password = none; mnemonic = none };
  locker = locked_base;
  approval = locked_base;
  identity = locked_base;
  connection = locked_base;
  identities = [];
  allowed_hosts = [];
  connections = [];
  operations = [];
  settings = none;
  pending_requests = [];
  waiters = [];
  nonce = 0;
  popup = none;
  windows = 0;
  draws = 0;
  effects = [];
}
