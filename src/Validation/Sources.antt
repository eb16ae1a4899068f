-- ===== src/Validation/Sources.antt =====
-- Which sources of a Merkle proof pass.
use crypt_keeper_extension.Prelude.{
  String, true, ◌≡◌, ◌≢◌, none, some, [], arith, truthy, Bool-cases, Option-cases, inl, inr,
}
use crypt_keeper_extension.Requests.{MerkleProof, MerkleProofArtifacts, MerkleProofInputs}
use crypt_keeper_extension.Exec.{ok, Result-cases}
use crypt_keeper_extension.Validation.{
  SourceObject, MerkleProofSource, text_source, object_source, is_url, as_artifacts,
  as_merkle_proof, validate_proof, validate_merkle_proof_source, required_texts, of_text, of_proof,
  of_artifacts,
}

-- The inputs hold one thing, which is what the source gave.
pub data IsSource : MerkleProofSource → MerkleProofInputs → Type 0 where
  from_url :
      {s : String} {i : MerkleProofInputs}
      → is_url s ≡ true
      → i ≡ record {
        merkle_storage_url = some s;
        merkle_proof_artifacts = none;
        merkle_proof_provided = none;
      }
      → IsSource (text_source s) i
  from_artifacts :
      {o : SourceObject} {i : MerkleProofInputs} (a : MerkleProofArtifacts)
      → o.leaves ≡ some a.leaves
      → o.depth ≡ some a.depth
      → o.leaves_per_node ≡ some a.leaves_per_node
      → required_texts a.leaves ≡ true
      → i ≡ record {
        merkle_storage_url = none;
        merkle_proof_artifacts = some a;
        merkle_proof_provided = none;
      }
      → IsSource (object_source o) i
  from_proof :
      {o : SourceObject} {i : MerkleProofInputs} (p : MerkleProof)
      → as_artifacts o ≡ none
      → o.root ≡ some p.root
      → o.leaf ≡ some p.leaf
      → o.siblings ≡ some p.siblings
      → o.path_indices ≡ some p.path_indices
      → (p.siblings ≢ []) × (p.path_indices ≢ []) × (truthy p.root ≡ true) × (truthy p.leaf ≡ true)
      → i ≡ record {
        merkle_storage_url = none;
        merkle_proof_artifacts = none;
        merkle_proof_provided = some p;
      }
      → IsSource (object_source o) i

text_lem : (s : String) (i : MerkleProofInputs) → of_text s ≡ ok i → IsSource (text_source s) i
unfolding of_text
text_lem s i h = elim (Bool-cases (is_url s)) [
  | inl url ↦ from_url url (ground (arith, url, h))
  | inr other ↦ absurd (ground (arith, other, h))
]

artifacts_lem :
    (o : SourceObject) (a : MerkleProofArtifacts)
    → as_artifacts o ≡ some a
    → (o.leaves ≡ some a.leaves)
      × (o.depth ≡ some a.depth)
      × (o.leaves_per_node ≡ some a.leaves_per_node)
      × (required_texts a.leaves ≡ true)
unfolding as_artifacts
artifacts_lem o a h = ground (arith, h)

proof_lem :
    (o : SourceObject) (p : MerkleProof)
    → as_merkle_proof o ≡ some p
    → (o.root ≡ some p.root)
      × (o.leaf ≡ some p.leaf)
      × (o.siblings ≡ some p.siblings)
      × (o.path_indices ≡ some p.path_indices)
unfolding as_merkle_proof
proof_lem o p h = ground (arith, h)

validated_lem :
    (p q : MerkleProof)
    → validate_proof p ≡ ok q
    → (p ≡ q)
      × (p.siblings ≢ [])
      × (p.path_indices ≢ [])
      × (truthy p.root ≡ true)
      × (truthy p.leaf ≡ true)
unfolding validate_proof
validated_lem p q h = ground (arith, h)

given_lem :
    (o : SourceObject) (i : MerkleProofInputs)
    → as_artifacts o ≡ none
    → of_proof (as_merkle_proof o) ≡ ok i
    → IsSource (object_source o) i
unfolding of_proof
given_lem o i lacks h = elim (Option-cases (as_merkle_proof o)) [
  | inl missing ↦ absurd (ground (arith, missing, h))
  | inr (p, found) ↦
      let (root, leaf, siblings, indices) = proof_lem o p found in
      elim (Result-cases (validate_proof p)) [
        | inl (e, broken) ↦ absurd (ground (arith, found, broken, h))
        | inr (q, valid) ↦
            let (same, siblings_filled, indices_filled, root_filled, leaf_filled) =
              validated_lem p q valid in
            from_proof p lacks root leaf siblings indices
              (siblings_filled, indices_filled, root_filled, leaf_filled)
              (ground (arith, found, valid, same, h))
      ]
]

object_lem :
    (o : SourceObject) (i : MerkleProofInputs)
    → of_artifacts (as_artifacts o) o ≡ ok i
    → IsSource (object_source o) i
unfolding of_artifacts
object_lem o i h = elim (Option-cases (as_artifacts o)) [
  | inl missing ↦ given_lem o i missing (ground (arith, missing, h))
  | inr (a, found) ↦
      let (leaves, depth, per_node, filled) = artifacts_lem o a found in
      from_artifacts a leaves depth per_node filled (ground (arith, found, h))
]

-- A source that passes gives exactly one of the three inputs, with the content of the source: a text
-- that is a URL; an object with leaves, of which none is empty, a depth and the leaves per node; or,
-- where it lacks those, an object with a Merkle proof whose root, leaf, siblings and path are not
-- empty.
pub validate_merkle_proof_source-IsSource :
    (source : MerkleProofSource) (i : MerkleProofInputs)
    → validate_merkle_proof_source (some source) ≡ ok i
    → IsSource source i
unfolding validate_merkle_proof_source
validate_merkle_proof_source-IsSource (text_source s) i h = text_lem s i h
validate_merkle_proof_source-IsSource (object_source o) i h = object_lem o i h
