-- ===== src/Group.antt =====
-- services/group: the connected identity joins a group, or proves its membership.
pub mod Joining
use crypt_keeper_extension.Prelude.{String, Bool, Option, none, some}
use crypt_keeper_extension.Types
use crypt_keeper_extension.Types.{IdentityData}
use crypt_keeper_extension.Requests.{MerkleProof, JoinGroupArgs}
use crypt_keeper_extension.State.{
  join_group_page, group_merkle_proof_page, joined_group, group_merkle_proof,
}
use crypt_keeper_extension.Env.{Env}
use crypt_keeper_extension.Exec.{M, pure, lift, ◌>>=◌, ◌>>◌, or_throw}
use crypt_keeper_extension.Browser
use crypt_keeper_extension.History
use crypt_keeper_extension.Connection
use crypt_keeper_extension.ZkIdentitySemaphore.{gen_identity_commitment}
use crypt_keeper_extension.Bandada
use crypt_keeper_extension.Bandada.{BandadaApi}

unfoldable pub join_group_request : JoinGroupArgs → Option String → M Unit
join_group_request args url_origin = do
  Browser.open_popup (join_group_page args url_origin)
  pure tt

unfoldable pub generate_group_merkle_proof_request : String → Option String → M Unit
generate_group_merkle_proof_request group_id url_origin = do
  Browser.open_popup (group_merkle_proof_page group_id url_origin)
  pure tt

module _ (env : Env) where
  unfoldable pub get_connected_identity : Option String → M IdentityData
  get_connected_identity url_origin = do
    found ← Connection.get_connected_identity env url_origin
    z ← or_throw found "No connected identity found"
    pure (record { commitment = gen_identity_commitment env z; metadata = z.metadata })

  module _ (api : BandadaApi) where
    unfoldable pub join_group : JoinGroupArgs → Option String → M Bool
    unfolding get_connected_identity
    join_group args url_origin = do
      identity ← get_connected_identity url_origin
      result ← lift (Bandada.add_member api args identity)
      History.track_operation env Types.join_group
          (record { identity = some identity; group = some args.group_id })
      Browser.notify "Joined group" "You've been successfully joined the group"
      Browser.push_event (joined_group args.group_id) url_origin
      pure result

    unfoldable pub generate_group_merkle_proof : String → Option String → M MerkleProof
    unfolding get_connected_identity
    generate_group_merkle_proof group_id url_origin = do
      identity ← get_connected_identity url_origin
      proof ← lift (Bandada.generate_merkle_proof api group_id identity)
      Browser.notify "Generated Group Merkle Proof"
          "You've been successfully generated Group Merkle Proof"
      Browser.push_event (group_merkle_proof proof) url_origin
      pure proof

    unfoldable pub check_group_membership : String → Option String → M Bool
    unfolding get_connected_identity
    check_group_membership group_id url_origin = do
      identity ← get_connected_identity url_origin
      lift (Bandada.check_group_membership api group_id identity)
