-- ===== src/Credentials/Format.antt =====
-- util/credentials: the texts of credentials and presentations. A credential stands as its canonical
-- text.
use crypt_keeper_extension.Prelude.{String, none, some, List, [], ◌∷◌, map, truthy}
use crypt_keeper_extension.Prelude.Codec.{Codec}
use crypt_keeper_extension.State.{Presentation}
use crypt_keeper_extension.Exec.{M, Result, pure, lift, ◌>>=◌, ◌>>◌, require, or_throw}

-- packages/app/src/types/verifiableCredentials
pub record Metadata : Type 0 where
  pub name : String
  pub hash : String

pub record CryptkeeperCredential : Type 0 where
  pub verifiable_credential : String
  pub metadata : Metadata

-- What the code calls for credentials, beside `Env`: yup, json-stable-stringify, SHA-256 and JSON.
pub record CredentialApi : Type 0 where
  -- `JSON.parse`, `verifiableCredentialSchema.validate`, and the canonical text of its result; the
  -- error is that of the one that throws
  pub validate : String → Result String
  -- `SHA256(text).toString()`
  pub sha256 : String → String
  -- an object with the text of a credential as `verifiableCredential`, and `metadata`
  pub json_credential : Codec CryptkeeperCredential
  -- the canonical text of a presentation whose credentials are texts
  pub json_presentation : Presentation → String

-- `serializeVerifiableCredential`: the canonical text.
abbrev pub serialize_credential : String → String
serialize_credential credential = credential

module _ (api : CredentialApi) where
  unfoldable pub deserialize_credential : String → M String
  deserialize_credential serialized = do
    require (truthy serialized) "Serialized Verifiable Credential is not provided"
    lift (api.validate serialized)

  unfoldable pub validate_serialized : String → M String
  unfolding deserialize_credential
  validate_serialized serialized = do deserialize_credential serialized; pure serialized

  unfoldable pub serialize : CryptkeeperCredential → String
  serialize c = api.json_credential.stringify (record {
    verifiable_credential = serialize_credential c.verifiable_credential;
    metadata = c.metadata;
  })

  unfoldable pub deserialize : String → M CryptkeeperCredential
  unfolding deserialize_credential
  deserialize serialized = do
    require (truthy serialized) "Serialized CryptKeeper Verifiable Credential is not provided"
    parsed ← or_throw (api.json_credential.parse serialized) "Unexpected token in JSON"
    credential ← deserialize_credential parsed.verifiable_credential
    pure (record { verifiable_credential = credential; metadata = parsed.metadata })

  unfoldable pub hash_credential : String → String
  hash_credential credential = api.sha256 (serialize_credential credential)

  unfoldable pub initial_metadata : String → String → Metadata
  unfolding hash_credential
  initial_metadata credential name = record { name = name; hash = hash_credential credential }

  unfoldable pub serialize_presentation : Presentation → String
  serialize_presentation p = elim p.verifiable_credential [
    | none ↦ api.json_presentation p
    | some credentials ↦
        api.json_presentation
          (record p { verifiable_credential = some (map serialize_credential credentials) })
  ]

-- `generateVerifiablePresentationFromVerifiableCredentials`
pub presentation_of : List String → Presentation
presentation_of credentials = record {
  context = "https://www.w3.org/2018/credentials/v1" ∷ [];
  id = none;
  type = "VerifiablePresentation" ∷ [];
  verifiable_credential = some credentials;
  holder = none;
  proof = none;
}
