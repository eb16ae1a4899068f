-- ===== src/ZkProof.antt =====
-- packages/zk/src/proof: proofs for an identity, from the Merkle proof that a request names.
pub mod Artifacts
use Prim.Native.Char.{code}
use crypt_keeper_extension.Prelude.{
  ℕ, String, ◌||◌, not, Option, none, some, List, [], ◌∷◌, truthy, present, if◌then◌else◌,
}
use crypt_keeper_extension.Prelude.Text.{◌⧺◌, decimal}
use crypt_keeper_extension.Requests.{
  MerkleProof, MerkleProofArtifacts, MerkleProofInputs, SemaphoreProofRequest, RlnProofRequest,
}
use crypt_keeper_extension.Env.{Env}
use crypt_keeper_extension.Exec.{Result, ok, err}
use crypt_keeper_extension.ZkIdentitySemaphore.{
  ZkIdentitySemaphore, gen_identity_commitment, gen_from_serialized,
}

-- The inputs of the RLN prover, big numbers as decimal texts.
pub record RlnProverInputs : Type 0 where
  pub rln_identifier : String
  pub identity_secret : String
  pub user_message_limit : String
  pub message_id : String
  pub merkle_proof : MerkleProof
  pub x : String
  pub epoch : String

-- What the code calls: the libraries of semaphore, RLN and Poseidon, `BigInt` and `fetch`. A proof
-- stands as its text, and so do big numbers; a commitment is in hexadecimal.
pub record ZkApi : Type 0 where
  -- `BigInt(text)`, printed again
  pub big_int : String → Result String
  pub hex_to_bigint : String → Result String
  pub poseidon1 : String → String
  pub poseidon2 : String → String → String
  -- `identity.getSecret()` of the identity that prints so
  pub identity_secret : String → String
  -- the answer of a URL to a POST of a commitment: `response.data.merkleProof`
  pub fetch_merkle_proof : String → String → Result MerkleProof
  -- `new Group(depth)`, `addMembers(members)`, `generateMerkleProof(indexOf(member))`
  pub group_merkle_proof : ℕ → List String → String → Result MerkleProof
  -- `generateProof(identity, merkleProof, externalNullifier, signal, { wasm, zkey })`
  pub semaphore_prove : String → MerkleProof → String → String → String → String → Result String
  -- `new RLNProver(wasm, zkey).generateProof(inputs)`
  pub rln_prove : String → String → RlnProverInputs → Result String

abbrev pub and_then : {A B : Type 0} → Result A → (A → Result B) → Result B
and_then (ok a) f = f a
and_then (err e) f = err e

-- A `catch` that throws the error behind a prefix.
abbrev pub prefixed : {A : Type 0} → String → Result A → Result A
prefixed text (ok a) = ok a
prefixed text (err e) = err (text ⧺ e)

-- The digits that `str2BigInt` puts together: the codes of the characters, one after another. The
-- texts are taken to have no character beyond 16 bits.
pub char_digits : String → String
char_digits String.[] = ""
char_digits (String.◌∷◌ c s) = decimal (code c) ⧺ char_digits s

module _ (api : ZkApi) where
  unfoldable pub str2_big_int : String → Result String
  unfolding char_digits
  str2_big_int text = api.big_int (char_digits text)

  unfoldable pub get_message_hash : String → Result String
  unfolding str2_big_int
  get_message_hash message = and_then (str2_big_int message) λ n. ok (api.poseidon1 n)

  unfoldable pub get_rate_commitment_hash : String → String → String
  get_rate_commitment_hash commitment limit = api.poseidon2 commitment limit

  unfoldable pub calculate_identity_secret : Option String → Option String → String
  calculate_identity_secret nullifier trapdoor = elim (present nullifier) [
    | none ↦ ""
    | some n ↦ elim (present trapdoor) [ none ↦ "" | some t ↦ api.poseidon2 n t ]
  ]

  unfoldable pub calculate_identity_commitment : Option String → String
  calculate_identity_commitment secret = elim (present secret) [
    | none ↦ ""
    | some s ↦ api.poseidon1 s
  ]

  all_bigints : List String → Result (List String)
  all_bigints [] = ok []
  all_bigints (h ∷ rest) =
      and_then (api.hex_to_bigint h) λ n. and_then (all_bigints rest) λ ns. ok (n ∷ ns)

  unfoldable pub deserialize_merkle_proof : MerkleProof → Result MerkleProof
  unfolding all_bigints
  deserialize_merkle_proof p = and_then (api.hex_to_bigint p.root) λ root.
      and_then (all_bigints p.siblings) λ siblings. and_then (api.hex_to_bigint p.leaf) λ leaf.
        ok (record { root = root; leaf = leaf; siblings = siblings; path_indices = p.path_indices })

  unfoldable pub get_remote_merkle_proof : String → String → Result MerkleProof
  unfolding deserialize_merkle_proof
  get_remote_merkle_proof url commitment =
      prefixed "Error in fetching Mock Merkle Proof "
        (and_then (api.fetch_merkle_proof url commitment) deserialize_merkle_proof)

  -- The members of the group are the identity alone, whatever leaves the artifacts list.
  unfoldable pub generate_merkle_proof : MerkleProofArtifacts → String → Result MerkleProof
  generate_merkle_proof a commitment = api.group_merkle_proof a.depth (commitment ∷ []) commitment

  proof_from : Option String → Option MerkleProofArtifacts → String → Result MerkleProof
  unfolding get_remote_merkle_proof generate_merkle_proof
  proof_from (some url) artifacts commitment = get_remote_merkle_proof url commitment
  proof_from none (some a) commitment = generate_merkle_proof a commitment
  proof_from none none commitment = err "ZK: Cannot get MerkleProof"

  unfoldable pub get_merkle_proof : MerkleProofInputs → String → Result MerkleProof
  unfolding proof_from
  get_merkle_proof inputs commitment =
      proof_from (present inputs.merkle_storage_url) inputs.merkle_proof_artifacts commitment

  -- `merkleProofProvided || await getMerkleProof(…)`
  unfoldable pub proof_or_get : MerkleProofInputs → String → Result MerkleProof
  unfolding get_merkle_proof
  proof_or_get inputs commitment = elim inputs.merkle_proof_provided [
    | some p ↦ ok p
    | none ↦ get_merkle_proof inputs commitment
  ]

  module _ (env : Env) where
    -- `SemaphoreProofService.genProof`
    unfoldable pub generate_semaphore_proof :
        ZkIdentitySemaphore → SemaphoreProofRequest → Result String
    unfolding proof_or_get gen_identity_commitment
    generate_semaphore_proof z r =
        if not (truthy r.circuit.circuit_file_path) || not (truthy r.circuit.zkey_file_path)
        then err "Zk service: Must set circuitFilePath and zkeyFilePath"
        else and_then (proof_or_get r.merkle (gen_identity_commitment env z)) λ p.
          api.semaphore_prove z.zk_identity p r.external_nullifier r.signal
            r.circuit.circuit_file_path r.circuit.zkey_file_path

    -- `RLNProofService.genProof`
    unfoldable pub generate_rln_proof : ZkIdentitySemaphore → RlnProofRequest → Result String
    unfolding proof_or_get gen_identity_commitment get_message_hash
    generate_rln_proof z r =
        if not (truthy r.circuit.circuit_file_path) || not (truthy r.circuit.zkey_file_path)
        then err "Zk service: Must set circuitFilePath and zkeyFilePath"
        else and_then (api.big_int r.rln_identifier) λ identifier.
          and_then (get_message_hash r.message) λ x. and_then (api.big_int r.epoch) λ epoch.
            and_then (proof_or_get r.merkle (gen_identity_commitment env z)) λ p.
              api.rln_prove r.circuit.circuit_file_path r.circuit.zkey_file_path (record {
                rln_identifier = identifier;
                identity_secret = api.identity_secret z.zk_identity;
                user_message_limit = decimal r.message_limit;
                message_id = decimal r.message_id;
                merkle_proof = p;
                x = x;
                epoch = epoch;
              })

    -- The identity that the offscreen page reads from a request.
    offscreen_identity : Option String → Result ZkIdentitySemaphore
    offscreen_identity serialized = elim (present serialized) [
      | none ↦ err "Offscreen: Serialized Identity is not set"
      | some text ↦ gen_from_serialized env text
    ]

    -- `OffscreenController.generateSemaphoreProof` and `generateRlnProof`
    unfoldable pub offscreen_semaphore_proof : SemaphoreProofRequest → Result String
    unfolding offscreen_identity generate_semaphore_proof
    offscreen_semaphore_proof r =
        and_then (offscreen_identity r.identity_serialized) λ z. generate_semaphore_proof z r

    unfoldable pub offscreen_rln_proof : RlnProofRequest → Result String
    unfolding offscreen_identity generate_rln_proof
    offscreen_rln_proof r =
        and_then (offscreen_identity r.identity_serialized) λ z. generate_rln_proof z r
