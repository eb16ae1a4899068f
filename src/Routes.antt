-- ===== src/Routes.antt =====
-- packages/app/src/background/cryptKeeper.ts: which middlewares and handler each method has, and
-- which methods a page may call.
pub mod Guards
pub mod Locked
use crypt_keeper_extension.Prelude.{String, Bool, true, false, List, [], ◌∷◌, Option, none, some}
use crypt_keeper_extension.JsMap
use crypt_keeper_extension.JsMap.{JsMap}
use crypt_keeper_extension.Exec.{M}
use crypt_keeper_extension.Handler
use crypt_keeper_extension.Handler.{Chain, Request}

-- The functions that are registered, each named for its service and method.
pub data HandlerName : Type 0 where
  injector_get_connected_identity_metadata injector_connect lock_ensure : HandlerName
  approval_is_origin_approved connection_is_origin_connected : HandlerName
  protocol_generate_semaphore_proof protocol_generate_rlnproof : HandlerName
  connection_reveal_connected_identity_commitment_request group_join_group_request : HandlerName
  group_generate_group_merkle_proof_request zk_identity_import_request lock_unlock : HandlerName
  approval_unlock zk_identity_unlock connection_unlock lock_on_unlocked : HandlerName
  approval_on_unlocked zk_identity_on_unlocked connection_on_unlocked lock_lock : HandlerName
  zk_identity_lock approval_lock lock_get_status requests_get_requests : HandlerName
  requests_finalize_request lock_setup_password lock_reset_password : HandlerName
  lock_check_password connection_connect connection_disconnect : HandlerName
  connection_reveal_connected_identity_commitment connection_get_connections : HandlerName
  zk_identity_get_identities zk_identity_import zk_identity_set_identity_name : HandlerName
  zk_identity_create_identity_request zk_identity_create_identity : HandlerName
  zk_identity_delete_identity connection_clear zk_identity_delete_all_identities : HandlerName
  group_join_group group_generate_group_merkle_proof group_check_group_membership : HandlerName
  history_get_operations history_load_operations history_remove_operation : HandlerName
  history_clear history_enable_history backup_download : HandlerName
  backup_create_upload_backup_request backup_create_onboarding_backup_request : HandlerName
  backup_upload wallet_generate_mnemonic wallet_generate_key_pair wallet_accounts : HandlerName
  wallet_select_account wallet_get_selected_account wallet_check_mnemonic : HandlerName
  wallet_get_mnemonic credentials_add_verifiable_credential : HandlerName
  validate_serialized_verifiable_credential : HandlerName
  credentials_add_verifiable_credential_request : HandlerName
  credentials_reject_verifiable_credential_request : HandlerName
  credentials_rename_verifiable_credential : HandlerName
  credentials_get_all_verifiable_credentials : HandlerName
  credentials_delete_verifiable_credential : HandlerName
  credentials_delete_all_verifiable_credentials : HandlerName
  credentials_generate_verifiable_presentation : HandlerName
  credentials_generate_verifiable_presentation_with_cryptkeeper : HandlerName
  credentials_generate_verifiable_presentation_request : HandlerName
  credentials_reject_verifiable_presentation_request approval_add : HandlerName
  approval_is_approved approval_remove approval_get_permission : HandlerName
  approval_set_permission approval_clear misc_set_external_wallet_connection : HandlerName
  misc_get_external_wallet_connection browser_close_popup browser_clear_storage : HandlerName
  browser_push_event : HandlerName

-- A registration: the method, its first function and the others.
abbrev pub Registration : Type 0
Registration = String × HandlerName × List HandlerName

abbrev pub external_routes : List Registration
external_routes =
    ("rpc/injector/identity/getConnectedIdentityData", injector_get_connected_identity_metadata, [])
    ∷ ("rpc/injector/connect", injector_connect, [])
    ∷ (
      "rpc/injector/proofs/generateSemaphoreProof",
      lock_ensure,
      approval_is_origin_approved ∷ connection_is_origin_connected
          ∷ protocol_generate_semaphore_proof ∷ [],
    )
    ∷ (
      "rpc/injector/proofs/generateRlnProof",
      lock_ensure,
      approval_is_origin_approved ∷ connection_is_origin_connected ∷ protocol_generate_rlnproof
          ∷ [],
    )
    ∷ (
      "rpc/injector/identity/revealConnectedIdentityCommitment",
      lock_ensure,
      approval_is_origin_approved ∷ connection_is_origin_connected
          ∷ connection_reveal_connected_identity_commitment_request ∷ [],
    )
    ∷ (
      "rpc/injector/group/join",
      lock_ensure,
      approval_is_origin_approved ∷ connection_is_origin_connected ∷ group_join_group_request ∷ [],
    )
    ∷ (
      "rpc/injector/groups/generateGroupMerkleProof",
      lock_ensure,
      approval_is_origin_approved ∷ connection_is_origin_connected
          ∷ group_generate_group_merkle_proof_request ∷ [],
    )
    ∷ (
      "rpc/injector/identity/import",
      lock_ensure,
      approval_is_origin_approved ∷ connection_is_origin_connected ∷ zk_identity_import_request
          ∷ [],
    )
    ∷ []

abbrev pub common_routes : List Registration
common_routes =
    (
      "rpc/unlock",
      lock_unlock,
      approval_unlock ∷ zk_identity_unlock ∷ connection_unlock ∷ lock_on_unlocked
          ∷ approval_on_unlocked ∷ zk_identity_on_unlocked ∷ connection_on_unlocked ∷ [],
    )
    ∷ ("rpc/lock", lock_lock, zk_identity_lock ∷ approval_lock ∷ [])
    ∷ ("rpc/getStatus", lock_get_status, [])
    ∷ ("rpc/requests/get", requests_get_requests, [])
    ∷ ("rpc/requests/finalize", requests_finalize_request, [])
    ∷ ("rpc/lock/setupPassword", lock_setup_password, [])
    ∷ ("rpc/lock/resetPassword", lock_reset_password, [])
    ∷ ("rpc/lock/checkPassword", lock_ensure, lock_check_password ∷ [])
    ∷ []

abbrev pub connections_routes : List Registration
connections_routes =
    ("rpc/connection/connect", lock_ensure, connection_connect ∷ [])
    ∷ ("rpc/connection/disconnect", lock_ensure, connection_disconnect ∷ [])
    ∷ (
      "rpc/identity/revealConnectedIdentityCommitment",
      lock_ensure,
      connection_reveal_connected_identity_commitment ∷ [],
    )
    ∷ ("rpc/connection/get", lock_ensure, connection_get_connections ∷ [])
    ∷ []

abbrev pub identities_routes : List Registration
identities_routes =
    ("rpc/identity/getIdentities", lock_ensure, zk_identity_get_identities ∷ [])
    ∷ ("rpc/identity/import", lock_ensure, zk_identity_import ∷ [])
    ∷ ("rpc/identity/setIdentityName", lock_ensure, zk_identity_set_identity_name ∷ [])
    ∷ ("rpc/identity/createRequest", lock_ensure, zk_identity_create_identity_request ∷ [])
    ∷ ("rpc/identity/create", lock_ensure, zk_identity_create_identity ∷ [])
    ∷ (
      "rpc/identity/deleteIdentity",
      lock_ensure,
      zk_identity_delete_identity ∷ connection_disconnect ∷ [],
    )
    ∷ (
      "rpc/identity/deleteAllIdentities",
      lock_ensure,
      connection_clear ∷ zk_identity_delete_all_identities ∷ [],
    )
    ∷ []

abbrev pub groups_routes : List Registration
groups_routes =
    ("rpc/group/join", lock_ensure, group_join_group ∷ [])
    ∷ ("rpc/groups/generateMerkleProof", lock_ensure, group_generate_group_merkle_proof ∷ [])
    ∷ ("rpc/groups/checkMembership", lock_ensure, group_check_group_membership ∷ [])
    ∷ []

abbrev pub histories_routes : List Registration
histories_routes =
    ("rpc/identity/getHistory", lock_ensure, history_get_operations ∷ [])
    ∷ ("rpc/identity/loadHistory", lock_ensure, history_load_operations ∷ [])
    ∷ ("rpc/identity/deleteHistoryOperation", lock_ensure, history_remove_operation ∷ [])
    ∷ ("rpc/identity/deleteHistory", lock_ensure, history_clear ∷ [])
    ∷ ("rpc/identity/historyEnable", lock_ensure, history_enable_history ∷ [])
    ∷ []

abbrev pub backups_routes : List Registration
backups_routes =
    ("rpc/backup/download", lock_ensure, backup_download ∷ [])
    ∷ ("rpc/backup/requestUpload", lock_ensure, backup_create_upload_backup_request ∷ [])
    ∷ ("rpc/backup/requestOnboarding", backup_create_onboarding_backup_request, [])
    ∷ ("rpc/backup/upload", backup_upload, [])
    ∷ ("rpc/mnemonic/generate", lock_ensure, wallet_generate_mnemonic ∷ [])
    ∷ ("rpc/mnemonic/save", lock_ensure, wallet_generate_key_pair ∷ [])
    ∷ ("rpc/accounts/get", lock_ensure, wallet_accounts ∷ [])
    ∷ ("rpc/accounts/select-account", lock_ensure, wallet_select_account ∷ [])
    ∷ ("rpc/accounts/get-selected-account", lock_ensure, wallet_get_selected_account ∷ [])
    ∷ ("rpc/mnemonic/check", wallet_check_mnemonic, [])
    ∷ ("rpc/mnemonic/get", lock_ensure, wallet_get_mnemonic ∷ [])
    ∷ []

abbrev pub credentials_routes : List Registration
credentials_routes =
    (
      "rpc/credentials/addVerifiableCredential",
      lock_ensure,
      credentials_add_verifiable_credential ∷ [],
    )
    ∷ (
      "rpc/injector/credentials/addVerifiableCredential",
      lock_ensure,
      validate_serialized_verifiable_credential ∷ credentials_add_verifiable_credential_request
          ∷ [],
    )
    ∷ (
      "rpc/credentials/rejectVerifiableCredentialRequest",
      lock_ensure,
      credentials_reject_verifiable_credential_request ∷ [],
    )
    ∷ (
      "rpc/credentials/renameVerifiableCredential",
      lock_ensure,
      credentials_rename_verifiable_credential ∷ [],
    )
    ∷ (
      "rpc/credentials/getAllVerifiableCredentials",
      lock_ensure,
      credentials_get_all_verifiable_credentials ∷ [],
    )
    ∷ (
      "rpc/credentials/deleteVerifiableCredential",
      lock_ensure,
      credentials_delete_verifiable_credential ∷ [],
    )
    ∷ (
      "rpc/credentials/deleteAllVerifiableCredentials",
      lock_ensure,
      credentials_delete_all_verifiable_credentials ∷ [],
    )
    ∷ (
      "rpc/credentials/generateVerifiablePresentation",
      lock_ensure,
      credentials_generate_verifiable_presentation ∷ [],
    )
    ∷ (
      "rpc/credentials/generateVerifiablePresentationWithCryptkeeper",
      lock_ensure,
      credentials_generate_verifiable_presentation_with_cryptkeeper ∷ [],
    )
    ∷ (
      "rpc/injector/credentials/generateVerifiablePresentation",
      lock_ensure,
      credentials_generate_verifiable_presentation_request ∷ [],
    )
    ∷ (
      "rpc/credentials/rejectVerifiablePresentationRequest",
      lock_ensure,
      credentials_reject_verifiable_presentation_request ∷ [],
    )
    ∷ []

abbrev pub hosts_routes : List Registration
hosts_routes =
    ("rpc/hosts/approve", lock_ensure, approval_add ∷ [])
    ∷ ("rpc/hosts/isHostApprove", lock_ensure, approval_is_approved ∷ [])
    ∷ ("rpc/hosts/remove", lock_ensure, approval_remove ∷ [])
    ∷ ("rpc/hosts/getHostPermissions", lock_ensure, approval_get_permission ∷ [])
    ∷ ("rpc/hosts/setHostPermissions", lock_ensure, approval_set_permission ∷ [])
    ∷ ("rpc/hosts/clear", approval_clear, [])
    ∷ []

abbrev pub miscs_routes : List Registration
miscs_routes =
    ("rpc/wallet/connect", lock_ensure, misc_set_external_wallet_connection ∷ [])
    ∷ ("rpc/wallet/get/connect", lock_ensure, misc_get_external_wallet_connection ∷ [])
    ∷ ("rpc/popup/close", browser_close_popup, [])
    ∷ ("rpc/browser/clear", lock_ensure, browser_clear_storage ∷ [])
    ∷ ("rpc/browser/tabs/pushEvent", lock_ensure, browser_push_event ∷ [])
    ∷ []

unfoldable pub add_all : List Registration → JsMap (Chain HandlerName) → JsMap (Chain HandlerName)
add_all [] handlers = handlers
add_all ((method, h, hs) ∷ rest) handlers = add_all rest (Handler.add method h hs handlers)

-- `initialize`
unfoldable pub initialize : JsMap (Chain HandlerName) → JsMap (Chain HandlerName)
unfolding add_all Handler.add JsMap.set
initialize handlers = add_all miscs_routes (
    add_all hosts_routes (
      add_all credentials_routes (
        add_all backups_routes (
          add_all histories_routes (
            add_all groups_routes (
              add_all identities_routes (
                add_all connections_routes
                  (add_all common_routes (add_all external_routes handlers)))))))))

-- `RPC_METHOD_ACCESS`: the methods that a page may call
abbrev pub rpc_method_access : JsMap Bool
rpc_method_access =
    ("rpc/injector/proofs/generateSemaphoreProof", true)
    ∷ ("rpc/injector/proofs/generateRlnProof", true)
    ∷ ("rpc/injector/connect", true)
    ∷ ("rpc/injector/identity/getConnectedIdentityData", true)
    ∷ ("rpc/injector/group/join", true)
    ∷ ("rpc/injector/groups/generateGroupMerkleProof", true)
    ∷ ("rpc/injector/identity/import", true)
    ∷ ("rpc/injector/identity/revealConnectedIdentityCommitment", true)
    ∷ ("rpc/injector/credentials/generateVerifiablePresentation", true)
    ∷ ("rpc/injector/credentials/addVerifiableCredential", true)
    ∷ []

-- `bypass = RPC_METHOD_ACCESS[method]`, false where the method is not listed
abbrev pub or_false : Option Bool → Bool
or_false none = false
or_false (some b) = b

-- `CryptKeeperController.handle`, for the controller that has been initialised
unfoldable pub handle :
    {P : Type 0}
    → (HandlerName → P → Option String → M P)
    → (String → Option String)
    → String
    → Request P
    → Option String
    → M P
handle call origin extension_url request sender_url =
    Handler.handle call origin extension_url (initialize []) request sender_url
      (or_false (JsMap.get request.method rpc_method_access))
