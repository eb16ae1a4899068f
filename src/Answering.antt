-- ===== src/Answering.antt =====
-- The pages of ui/pages on which the user answers what a web page has asked for: JoinGroup,
-- GroupMerkleProof, RevealIdentityCommitment, ConnectIdentity and AddVerifiableCredential; and Identity,
-- on which an identity is renamed or deleted. `EventName` and paths are their texts.
pub mod Connecting
use crypt_keeper_extension.Prelude.{String, Bool, true, false, not, Option, none, some}
use crypt_keeper_extension.Types.{IdentityConnection}
use crypt_keeper_extension.Requests.{JoinGroupArgs}
use crypt_keeper_extension.State.{BrowserEvent, user_reject, no_event}
use crypt_keeper_extension.Env.{Env}
use crypt_keeper_extension.Exec.{M, pure, throw, catch, ◌>>=◌, ◌>>◌}
use crypt_keeper_extension.Browser
use crypt_keeper_extension.Lock
use crypt_keeper_extension.Connection
use crypt_keeper_extension.ZkIdentity
use crypt_keeper_extension.Group
use crypt_keeper_extension.Bandada.{BandadaApi}
use crypt_keeper_extension.Credentials
use crypt_keeper_extension.Credentials.{
  CredentialApi, CryptkeeperCredential, deserialize_credential, hash_credential,
  serialize_credential,
}
use crypt_keeper_extension.Store.{Store, use_connection}
use crypt_keeper_extension.Store.Thunks.{post, close_popup}
use crypt_keeper_extension.Entry.{Outcome, went, failed, submitted}

-- What the tabs get of an event that `ensure` has passed on or not.
abbrev passed_event : Option BrowserEvent → BrowserEvent
passed_event none = no_event
passed_event (some e) = e

-- ducks/requests.ts; the payload of an event is the id of a group, if there is one. PUSH_EVENT is
-- registered with `ensure`.
unfoldable pub reject_user_request : String → Option String → Option String → M Unit
reject_user_request type group_id url_origin = post (do
  passed ← Lock.ensure (user_reject type group_id)
  Browser.push_event (passed_event passed) url_origin)

-- `connection?.urlOrigin`
abbrev pub origin_of : Option IdentityConnection → Option String
origin_of none = none
origin_of (some connection) = some connection.url_origin

-- `connection!.urlOrigin`, read before anything is sent
unfoldable pub needed_origin : Option IdentityConnection → M String
needed_origin none = throw "Cannot read properties of undefined (reading 'urlOrigin')"
needed_origin (some connection) = pure connection.url_origin

-- `onGoBack` of the three pages that have one
unfoldable pub go_back : String → Option String → Option IdentityConnection → M Outcome
unfolding reject_user_request
go_back type group_id connection = do
  reject_user_request type group_id (origin_of connection)
  close_popup
  pure (went "/home")

unfoldable pub leave_join_group : String → Option String → Store → M Outcome
unfolding go_back
leave_join_group group_id url_origin store =
    go_back "joinGroup" (some group_id) (use_connection url_origin store)

unfoldable pub leave_merkle_proof : String → Option String → Store → M Outcome
unfolding go_back
leave_merkle_proof group_id url_origin store =
    go_back "groupMerkleProof" (some group_id) (use_connection url_origin store)

unfoldable pub leave_reveal : Option String → Store → M Outcome
unfolding go_back
leave_reveal url_origin store = go_back "revealCommitment" none (use_connection url_origin store)

module _ (env : Env) where
  module _ (api : BandadaApi) where
    -- `onJoin`
    unfoldable pub on_join : JoinGroupArgs → Option String → Store → M Outcome
    unfolding needed_origin
    on_join args url_origin store = do
      origin ← needed_origin (use_connection url_origin store)
      submitted (do post (Group.join_group env api args (some origin)); close_popup) "/home"

    -- `onGenerateMerkleProof`
    unfoldable pub on_generate_merkle_proof : String → Option String → Store → M Outcome
    unfolding needed_origin
    on_generate_merkle_proof group_id url_origin store = do
      origin ← needed_origin (use_connection url_origin store)
      submitted
          (do post (Group.generate_group_merkle_proof env api group_id (some origin)); close_popup)
          "/home"

  -- `onReveal`; the background page gets no url.
  unfoldable pub on_reveal : Option String → Store → M Outcome
  unfolding needed_origin
  on_reveal url_origin store = do
    origin ← needed_origin (use_connection url_origin store)
    submitted
        (do
          post (Connection.reveal_connected_identity_commitment env none (some origin))
          close_popup)
        "/home"

  -- `onConnect` of useConnectIdentity: its errors are shown nowhere.
  unfoldable pub on_connect : String → String → M Outcome
  on_connect commitment url_origin = do
    post (Connection.connect env commitment (some url_origin))
    close_popup
    pure (went "/home")

  -- `onDeleteIdentity` and `onConfirmUpdate` of useIdentityPage; the second gives whether the name is
  -- still edited, or an error.
  unfoldable pub on_delete_identity : String → M Outcome
  on_delete_identity commitment =
      submitted (post (ZkIdentity.delete_identity env commitment)) "/home"

  unfoldable pub on_confirm_update : String → String → M (Bool × Option String)
  on_confirm_update commitment name =
      catch (do post (ZkIdentity.set_identity_name env commitment name); pure (false, none))
        (λ e. pure (true, some e))

  module _ (api : CredentialApi) where
    -- `deserialize` of useAddVerifiableCredential, for a text that is not empty
    unfoldable pub offered : String → String → M CryptkeeperCredential
    offered default_name serialized = do
      credential ← deserialize_credential api serialized
      pure (record {
        verifiable_credential = credential;
        metadata = record { name = default_name; hash = hash_credential api credential };
      })

    -- `onRenameVerifiableCredential`
    unfoldable pub renamed : String → CryptkeeperCredential → CryptkeeperCredential
    renamed name c = record c { metadata = record c.metadata { name = name } }

    -- `onApproveVerifiableCredential`: the error, if there is one
    unfoldable pub on_approve : CryptkeeperCredential → M (Option String)
    on_approve c =
        catch
          (do
            post (
                Credentials.add env api (serialize_credential c.verifiable_credential)
                  c.metadata.name)
            close_popup
            pure none)
          (λ e. pure (some e))

    -- `onRejectVerifiableCredential`
    unfoldable pub on_reject_credential : M Unit
    on_reject_credential = do post Credentials.reject_credential_request; close_popup; pure tt
