-- ===== src/Types.antt =====
-- The data that the services share: packages/types/src and packages/app/src/types.
use crypt_keeper_extension.Prelude.{ℕ, String, Bool, Option, List}

-- packages/types/src/identity/index.ts
pub record GroupData : Type 0 where
  pub id : String
  pub name : String
  pub favicon : Option String
  pub description : Option String
  pub api : Option String
  pub contract : Option String

pub record IdentityMetadata : Type 0 where
  pub name : String
  pub groups : List GroupData
  pub is_deterministic : Bool
  pub is_imported : Bool
  pub account : Option String
  pub nonce : Option ℕ

pub record IdentityData : Type 0 where
  pub commitment : String
  pub metadata : IdentityMetadata

-- `Partial<ISerializedIdentity>`: what `JSON.parse` may give.
pub record SerializedIdentity : Type 0 where
  pub secret : Option String
  pub metadata : Option IdentityMetadata

pub data Wallet : Type 0 where
  cryptkeeper_wallet eth_wallet : Wallet

pub record CreateIdentityOptions : Type 0 where
  pub message : String
  pub account : String
  pub nonce : ℕ
  pub name : Option String

pub record NewIdentityRequest : Type 0 where
  pub options : CreateIdentityOptions
  pub wallet_type : Wallet
  pub groups : List GroupData
  pub is_deterministic : Bool
  pub url_origin : Option String
  pub message_signature : Option String

pub record ImportIdentityArgs : Type 0 where
  pub name : String
  pub trapdoor : String
  pub nullifier : String
  pub message_signature : String
  pub url_origin : Option String

pub record CreateIdentityArgs : Type 0 where
  pub name : String
  pub groups : List GroupData
  pub is_deterministic : Bool
  pub is_imported : Bool
  pub account : Option String
  pub message_signature : Option String
  pub nonce : Option ℕ
  pub trapdoor : Option String
  pub nullifier : Option String

pub record IdentityConnection : Type 0 where
  pub commitment : String
  pub name : String
  pub url_origin : String

-- `IHostPermission`, and the origin that a request carries, `IZkMetadata`.
pub record HostPermission : Type 0 where
  pub url_origin : String
  pub can_skip_approve : Bool

pub record ZkMetadata : Type 0 where
  pub url_origin : Option String

-- packages/app/src/types/history/index.ts
pub data OperationType : Type 0 where
  create_identity import_identity delete_identity delete_all_identities : OperationType
  download_backup upload_backup reset_password : OperationType
  add_verifiable_credential rename_verifiable_credential : OperationType
  delete_verifiable_credential delete_all_verifiable_credentials : OperationType
  reject_verifiable_credential_request generate_verifiable_presentation : OperationType
  reject_verifiable_presentation_request reveal_identity_commitment join_group : OperationType

-- The group of an operation carries its id alone.
pub record Operation : Type 0 where
  pub id : String
  pub type : OperationType
  pub identity : Option IdentityData
  pub group : Option String
  pub created_at : String

pub record HistorySettings : Type 0 where
  pub is_enabled : Bool

-- packages/app/src/types/misc/index.ts
pub data InitializationStep : Type 0 where
  new password mnemonic : InitializationStep

abbrev pub step_number : InitializationStep → ℕ
step_number new = 0
step_number password = 1
step_number mnemonic = 2

-- packages/app/src/background/services/wallet/types.ts
pub record Account : Type 0 where
  pub public_key : String
  pub private_key : String
  pub address : String

pub record LockStatus : Type 0 where
  pub is_initialized : Bool
  pub is_unlocked : Bool
  pub is_mnemonic_generated : Bool
