-- ===== src/Validation.antt =====
-- services/validation: where the Merkle proof of a request comes from.
pub mod Sources
use Prim.Native.String.{[], ◌∷◌}
use Prim.Native.Char.{Char, code}
use crypt_keeper_extension.Prelude.{
  ℕ, String, Bool, true, false, not, ◌&&◌, ◌||◌, Option, none, some, List, eqb, leb, any, length,
  truthy, if◌then◌else◌,
}
use crypt_keeper_extension.Prelude.Text.{drop, starts_with}
use crypt_keeper_extension.Requests.{MerkleProof, MerkleProofArtifacts, MerkleProofInputs}
use crypt_keeper_extension.Exec.{Result, ok, err}

-- An object that a page gives as its source: each field is missing or has the type that the schemas
-- ask for.
pub record SourceObject : Type 0 where
  pub leaves : Option (List String)
  pub depth : Option ℕ
  pub leaves_per_node : Option ℕ
  pub root : Option String
  pub leaf : Option String
  pub siblings : Option (List String)
  pub path_indices : Option (List ℕ)

pub data MerkleProofSource : Type 0 where
  text_source : String → MerkleProofSource
  object_source : SourceObject → MerkleProofSource

-- `\s` below 128 and the other code points that JavaScript counts as space
abbrev pub is_space : ℕ → Bool
is_space c =
    (leb 9 c && leb c 13)
    || eqb c 32
    || eqb c 160
    || eqb c 5760
    || (leb 8192 c && leb c 8202)
    || eqb c 8232
    || eqb c 8233
    || eqb c 8239
    || eqb c 8287
    || eqb c 12288
    || eqb c 65279

-- What `.` does not match.
abbrev pub is_line_end : ℕ → Bool
is_line_end c = eqb c 10 || eqb c 13 || eqb c 8232 || eqb c 8233

-- `[^\s/$.?#]`
abbrev pub starts_host : ℕ → Bool
starts_host c =
    not (is_space c || eqb c b'/' || eqb c b'$' || eqb c b'.' || eqb c b'?' || eqb c b'#')

-- `[^\s]*$`
unfoldable pub has_no_space : String → Bool
has_no_space [] = true
has_no_space (c ∷ s) = not (is_space (code c)) && has_no_space s

-- `[^\s/$.?#].[^\s]*$`; a code point beyond 16 bits is two characters to a pattern.
unfoldable pub is_host : String → Bool
unfolding has_no_space
is_host [] = false
is_host (c ∷ []) = leb 65536 (code c)
is_host (c ∷ (d ∷ s)) =
    if leb 65536 (code c)
    then has_no_space (d ∷ s)
    else starts_host (code c) && not (is_line_end (code d)) && has_no_space s

-- `URL_PATTERN`; no two of the schemes fit one text.
unfoldable pub is_url : String → Bool
unfolding is_host starts_with
is_url s =
    (starts_with s "http://" && is_host (drop 7 s))
    || (starts_with s "https://" && is_host (drop 8 s))
    || (starts_with s "ftp://" && is_host (drop 6 s))

-- `yup.string().required()` takes no empty text, `yup.array().required()` takes an empty array.
abbrev pub required_texts : List String → Bool
required_texts texts = not (any (λ t. not (truthy t)) texts)

-- `merkleProofArtifactsSchema.isValidSync`, with what it lets through.
unfoldable pub as_artifacts : SourceObject → Option MerkleProofArtifacts
as_artifacts o = elim o.leaves [
  | none ↦ none
  | some leaves ↦ elim o.depth [
    | none ↦ none
    | some depth ↦ elim o.leaves_per_node [
      | none ↦ none
      | some leaves_per_node ↦
          if required_texts leaves
          then some (record { leaves = leaves; depth = depth; leaves_per_node = leaves_per_node })
          else none
    ]
  ]
]

-- `merkleProofSchema.isValidSync`
unfoldable pub as_merkle_proof : SourceObject → Option MerkleProof
as_merkle_proof o = elim o.root [
  | none ↦ none
  | some root ↦ elim o.leaf [
    | none ↦ none
    | some leaf ↦ elim o.siblings [
      | none ↦ none
      | some siblings ↦ elim o.path_indices [
        | none ↦ none
        | some path_indices ↦
            if truthy root && truthy leaf && required_texts siblings
            then some (record {
              root = root;
              leaf = leaf;
              siblings = siblings;
              path_indices = path_indices;
            })
            else none
      ]
    ]
  ]
]

abbrev is_empty : {A : Type 0} → List A → Bool
is_empty xs = eqb (length xs) 0

-- `MerkleProofValidator.validateProof`: its four checks in order.
unfoldable pub validate_proof : MerkleProof → Result MerkleProof
validate_proof p =
    if truthy p.root
    then (if is_empty p.siblings
        then err "invalid-siblings"
        else (if is_empty p.path_indices
            then err "invalid-path-indices"
            else (if truthy p.leaf then ok p else err "invalid-leaf")))
    else err "invalid-root"

-- `ArtifactsProofValidator.validateProof`, which no other code calls.
unfoldable pub validate_artifacts : MerkleProofArtifacts → Result MerkleProofArtifacts
validate_artifacts a =
    if eqb a.depth 0
    then err "invalid-depth"
    else (if is_empty a.leaves
        then err "invalid-leaves"
        else (if eqb a.leaves_per_node 0 then err "invalid-leaves-per-node" else ok a))

abbrev invalid : Result MerkleProofInputs
invalid = err "CryptKeeper: invalid ZK merkle tree inputs"

abbrev provided_by : Result MerkleProof → Result MerkleProofInputs
provided_by (err e) = err e
provided_by (ok p) = ok (record {
  merkle_storage_url = none;
  merkle_proof_artifacts = none;
  merkle_proof_provided = some p;
})

of_proof : Option MerkleProof → Result MerkleProofInputs
unfolding validate_proof
of_proof none = invalid
of_proof (some p) = provided_by (validate_proof p)

of_artifacts : Option MerkleProofArtifacts → SourceObject → Result MerkleProofInputs
unfolding of_proof as_merkle_proof
of_artifacts none o = of_proof (as_merkle_proof o)
of_artifacts (some a) o = ok (record {
  merkle_storage_url = none;
  merkle_proof_artifacts = some a;
  merkle_proof_provided = none;
})

of_text : String → Result MerkleProofInputs
unfolding is_url
of_text s =
    if truthy s
    then (if is_url s
        then ok (record {
          merkle_storage_url = some s;
          merkle_proof_artifacts = none;
          merkle_proof_provided = none;
        })
        else invalid)
    else err "CryptKeeper: please set a merkle proof source."

-- `validateMerkleProofSource`; a missing source is `undefined` or null.
unfoldable pub validate_merkle_proof_source : Option MerkleProofSource → Result MerkleProofInputs
unfolding of_text of_artifacts as_artifacts
validate_merkle_proof_source none = err "CryptKeeper: please set a merkle proof source."
validate_merkle_proof_source (some (text_source s)) = of_text s
validate_merkle_proof_source (some (object_source o)) = of_artifacts (as_artifacts o) o
