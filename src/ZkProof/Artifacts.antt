-- ===== src/ZkProof/Artifacts.antt =====
-- What a proof takes from the artifacts of a Merkle tree.
use crypt_keeper_extension.Prelude.{String, ◌≡◌, refl, List, none, some, ℕ}
use crypt_keeper_extension.Requests.{
  MerkleProofArtifacts, MerkleProofInputs, SemaphoreProofRequest, RlnProofRequest,
}
use crypt_keeper_extension.Env.{Env}
use crypt_keeper_extension.ZkIdentitySemaphore.{ZkIdentitySemaphore}
use crypt_keeper_extension.ZkProof.{ZkApi, generate_semaphore_proof, generate_rln_proof}

-- The inputs of a request that comes with artifacts.
abbrev pub with_artifacts : MerkleProofArtifacts → MerkleProofInputs
with_artifacts a = record {
  merkle_storage_url = none;
  merkle_proof_artifacts = some a;
  merkle_proof_provided = none;
}

-- Two lists of leaves in the artifacts, with any numbers of leaves per node, make no difference to
-- either proof: only the depth of the tree counts.
pub leaves_ignored :
    (api : ZkApi) (env : Env) (z : ZkIdentitySemaphore) (depth : ℕ) (leaves others : List String)
    (per_node other_per_node : ℕ) (r : SemaphoreProofRequest) (q : RlnProofRequest)
    → let a : MerkleProofArtifacts = record {
      leaves = leaves;
      depth = depth;
      leaves_per_node = per_node;
    } in
      let b : MerkleProofArtifacts = record {
        leaves = others;
        depth = depth;
        leaves_per_node = other_per_node;
      } in
      (generate_semaphore_proof api env z (record r { merkle = with_artifacts a })
        ≡ generate_semaphore_proof api env z (record r { merkle = with_artifacts b }))
      × (generate_rln_proof api env z (record q { merkle = with_artifacts a })
          ≡ generate_rln_proof api env z (record q { merkle = with_artifacts b }))
unfolding generate_semaphore_proof generate_rln_proof
leaves_ignored api env z depth leaves others per_node other_per_node r q = (refl, refl)
