-- ===== src/Credentials.antt =====
-- services/credentials: verifiable credentials, which are kept encrypted in storage only.
pub mod Format
pub mod Backup
pub mod Store
pub mod Ledger
pub mod Spec
pub mod Steps
pub mod Adding
pub mod Changing
pub mod Keeping
pub use crypt_keeper_extension.Credentials.Format.{
  Metadata, CryptkeeperCredential, CredentialApi, presentation_of,
}
unfoldable pub use crypt_keeper_extension.Credentials.Format.{
  serialize_credential, deserialize_credential, validate_serialized, serialize, deserialize,
  hash_credential, initial_metadata, serialize_presentation,
}
use crypt_keeper_extension.Prelude.{
  String, Bool, false, true, not, ◌&&◌, ◌||◌, Option, none, some, List, [], ◌∷◌, map, present,
  truthy, eqb, if◌then◌else◌,
}
use crypt_keeper_extension.Prelude.Codec.{Codec}
use crypt_keeper_extension.Prelude.Text.{◌⧺◌, decimal}
use crypt_keeper_extension.JsMap
use crypt_keeper_extension.JsMap.{JsMap}
use crypt_keeper_extension.Types
use crypt_keeper_extension.State.{
  Presentation, PresentationProof, TabMessage, rejected_credential, rejected_presentation,
  added_credential, generated_presentation, tab_message, add_credential_page,
  presentation_request_page,
}
use crypt_keeper_extension.Env.{Env}
use crypt_keeper_extension.Exec.{
  M, Result, pure, throw, lift, catch, ◌>>=◌, ◌>>◌, require, or_throw, draw, send,
}
use crypt_keeper_extension.SimpleStorage
use crypt_keeper_extension.SimpleStorage.{credentials_key}
use crypt_keeper_extension.Crypto
use crypt_keeper_extension.Crypto.{mnemonic}
use crypt_keeper_extension.Browser
use crypt_keeper_extension.History
use crypt_keeper_extension.Wallet

-- The messages that go to each active tab; one that is not received is dropped.
unfoldable pub send_to_tabs : TabMessage → M Unit
send_to_tabs message = send (tab_message message)

module _ (api : CredentialApi) where
  -- `Promise.all` over the values, in their order.
  unfoldable pub deserialize_all : List String → M (List CryptkeeperCredential)
  unfolding deserialize
  deserialize_all [] = pure []
  deserialize_all (serialized ∷ rest) = do
    c ← deserialize api serialized
    others ← deserialize_all rest
    pure (c ∷ others)

  -- `addVerifiableCredentialRequest`
  unfoldable pub add_request : String → M Unit
  unfolding validate_serialized
  add_request serialized = do
    validate_serialized api serialized
    Browser.open_popup (add_credential_page serialized)
    pure tt

unfoldable pub reject_credential_request : M Unit
unfolding send_to_tabs
reject_credential_request = do
  Browser.notify "Request rejected" "Rejected a request to add Verifiable Credential."
  send_to_tabs rejected_credential

unfoldable pub presentation_request : String → M Unit
presentation_request request = do Browser.open_popup (presentation_request_page request); pure tt

module _ (env : Env) where
  load_from : Option String → M (JsMap String)
  load_from none = pure []
  load_from (some ciphertext) = do
    decrypted ← Crypto.decrypt env ciphertext none mnemonic
    entries ← or_throw (env.json_entries.parse decrypted) "Unexpected token in JSON"
    pure (JsMap.of_entries entries)

  -- `getCryptkeeperVerifiableCredentialsFromStore` and `writeCryptkeeperVerifiableCredentials`
  unfoldable pub get_from_store : M (JsMap String)
  unfolding load_from
  get_from_store = do ciphertext ← SimpleStorage.get credentials_key; load_from (present ciphertext)

  unfoldable pub write_store : JsMap String → M Unit
  write_store credentials = do
    ciphertext ← Crypto.encrypt env (env.json_entries.stringify credentials) none mnemonic
    SimpleStorage.set credentials_key (some ciphertext)

  module _ (api : CredentialApi) where
    -- `insertCryptkeeperVerifiableCredentialIntoStore`
    insert_new : JsMap String → CryptkeeperCredential → M Unit
    unfolding write_store send_to_tabs
    insert_new credentials c = do
      write_store (JsMap.set c.metadata.hash (serialize api c) credentials)
      History.track_operation env Types.add_verifiable_credential History.no_options
      Browser.notify "Verifiable Credential added." "Added 1 Verifiable Credential."
      send_to_tabs (added_credential c.metadata.hash)

    reject_known : M Unit
    reject_known = do
      Browser.notify "Failed to add Verifiable Credential."
          "The Verifiable Credential you are trying to add already exists in your wallet."
      throw "Verifiable Credential already exists."

    unfoldable pub insert : CryptkeeperCredential → M Unit
    unfolding get_from_store insert_new reject_known
    insert c = do
      credentials ← get_from_store
      if JsMap.has c.metadata.hash credentials then reject_known else insert_new credentials c

    add_valid : String → String → M Unit
    unfolding insert deserialize_credential
    add_valid serialized name = do
      credential ← deserialize_credential api serialized
      insert (record {
        verifiable_credential = credential;
        metadata = initial_metadata api credential name;
      })

    -- The `catch` of `addVerifiableCredential`: it notifies and throws the error again.
    unfoldable pub add_failed : String → M Unit
    add_failed error = do
      Browser.notify "Failed to add Verifiable Credential."
          "The Verifiable Credential you are trying to add is invalid."
      throw error

    unfoldable pub add : String → String → M Unit
    unfolding add_valid add_failed
    add serialized name = do
      require (truthy serialized) "Serialized Verifiable Credential is required."
      catch (add_valid serialized name) add_failed

    unfoldable pub rename : String → String → M Unit
    unfolding get_from_store write_store deserialize serialize
    rename hash name = do
      require (not (not (truthy hash) || not (truthy name)))
          "Verifiable Credential hash and name are required."
      credentials ← get_from_store
      serialized ← or_throw (JsMap.get hash credentials) "Verifiable Credential does not exist."
      c ← deserialize api serialized
      write_store (
          JsMap.set hash (serialize api (record c { metadata = record c.metadata { name = name } }))
            credentials)
      History.track_operation env Types.rename_verifiable_credential History.no_options
      Browser.notify "Verifiable Credential renamed." "Renamed 1 Verifiable Credential."

    unfoldable pub get_all : M (List CryptkeeperCredential)
    unfolding get_from_store
    get_all = do credentials ← get_from_store; deserialize_all api (JsMap.values credentials)

  -- `deleteVerifiableCredential`
  unfoldable pub delete : String → M Unit
  unfolding get_from_store write_store
  delete hash = do
    require (truthy hash) "Verifiable Credential hash is required."
    credentials ← get_from_store
    require (JsMap.has hash credentials) "Verifiable Credential does not exist."
    write_store (JsMap.delete hash credentials)
    History.track_operation env Types.delete_verifiable_credential History.no_options
    Browser.notify "Verifiable Credential deleted." "Deleted 1 Verifiable Credential."

  unfoldable pub delete_all : M Unit
  unfolding get_from_store
  delete_all = do
    credentials ← get_from_store
    require (not (eqb (JsMap.size credentials) 0)) "No Verifiable Credentials to delete."
    SimpleStorage.clear credentials_key
    History.track_operation env Types.delete_all_verifiable_credentials History.no_options
    Browser.notify "All Verifiable Credentials deleted."
        ("Deleted " ⧺ decimal (JsMap.size credentials) ⧺ " Verifiable Credential(s).")

  -- `generateVerifiablePresentation`
  unfoldable pub generate_presentation : Presentation → M Unit
  unfolding send_to_tabs
  generate_presentation presentation = do
    History.track_operation env Types.generate_verifiable_presentation History.no_options
    Browser.notify "Verifiable Presentation generated." "Generated 1 Verifiable Presentation."
    send_to_tabs (generated_presentation presentation)

  unfoldable pub reject_presentation_request : M Unit
  unfolding send_to_tabs
  reject_presentation_request = do
    History.track_operation env Types.reject_verifiable_presentation_request History.no_options
    Browser.notify "Request to generate Verifiable Presentation rejected"
        "Rejected a request to generate 1 Verifiable Presentation."
    send_to_tabs rejected_presentation

  -- `created = new Date()`
  created_or_now : Option String → M String
  created_or_now none = do n ← draw; pure (env.iso_now n)
  created_or_now (some created) = pure created

  abbrev signed_by : String → String → String → PresentationProof
  signed_by address created signature = record {
    type = "EthereumEip712Signature2021" ∷ [];
    proof_purpose = "assertionMethod";
    verification_method = address;
    created = created;
    proof_value = signature;
  }

  -- `generateVerifiablePresentationWithCryptkeeper`
  unfoldable pub generate_signed_presentation :
      CredentialApi → Presentation → String → Option String → M Unit
  unfolding created_or_now generate_presentation
  generate_signed_presentation api presentation address created = do
    date ← created_or_now created
    signature ← Wallet.sign_message env (serialize_presentation api presentation) address
    generate_presentation
        (record presentation { proof = some (signed_by address date signature ∷ []) })
