-- ===== src/Requests.antt =====
-- packages/types/src/proof, request and group: proof requests, pending requests, groups.
use crypt_keeper_extension.Prelude.{ℕ, String, Bool, Option, List}

pub record MerkleProofArtifacts : Type 0 where
  pub leaves : List String
  pub depth : ℕ
  pub leaves_per_node : ℕ

-- `MerkleProof` of @zk-kit/incremental-merkle-tree, its big numbers as texts.
pub record MerkleProof : Type 0 where
  pub root : String
  pub leaf : String
  pub siblings : List String
  pub path_indices : List ℕ

-- What `validateMerkleProofSource` makes of a source.
pub record MerkleProofInputs : Type 0 where
  pub merkle_storage_url : Option String
  pub merkle_proof_artifacts : Option MerkleProofArtifacts
  pub merkle_proof_provided : Option MerkleProof

pub record Circuit : Type 0 where
  pub circuit_file_path : String
  pub zkey_file_path : String
  pub verification_key : String

pub record SemaphoreProofRequest : Type 0 where
  pub external_nullifier : String
  pub signal : String
  pub merkle : MerkleProofInputs
  pub identity_serialized : Option String
  pub circuit : Circuit
  pub url_origin : String

pub record RlnProofRequest : Type 0 where
  pub rln_identifier : String
  pub message : String
  pub epoch : String
  pub message_limit : ℕ
  pub message_id : ℕ
  pub merkle : MerkleProofInputs
  pub identity_serialized : Option String
  pub circuit : Circuit
  pub url_origin : String

pub data PendingRequestType : Type 0 where
  semaphore_proof rln_proof approve connect connect_identity : PendingRequestType

-- The payloads with which this code makes requests.
pub data RequestPayload : Type 0 where
  semaphore_payload : SemaphoreProofRequest → RequestPayload
  rln_payload : RlnProofRequest → RequestPayload
  origin_payload : String → RequestPayload

pub record PendingRequest : Type 0 where
  pub id : String
  pub window_id : ℕ
  pub type : PendingRequestType
  pub payload : RequestPayload

pub data ResolutionStatus : Type 0 where
  accept reject : ResolutionStatus
  other_status : String → ResolutionStatus

-- `data` of an answer: for an approval, whether the host can skip approval from then on.
pub record ResolutionAction : Type 0 where
  pub id : String
  pub status : ResolutionStatus
  pub answer : Option Bool

-- A promise of `newRequest`: which request it waits for, at which popup, and whether the closing of
-- the popup has rejected it.
pub record Waiter : Type 0 where
  pub id : String
  pub window_id : ℕ
  pub is_settled : Bool

pub data Outcome : Type 0 where
  resolved_with : Option Bool → Outcome
  rejected_with : String → Outcome

pub record JoinGroupArgs : Type 0 where
  pub group_id : String
  pub api_key : Option String
  pub invite_code : Option String
