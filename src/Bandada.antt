-- ===== src/Bandada.antt =====
-- services/bandada: the HTTP calls to the groups of Bandada.
pub mod Members
use crypt_keeper_extension.Prelude.{
  String, Bool, true, false, not, ◌&&◌, Option, none, some, is_some, present, if◌then◌else◌,
}
use crypt_keeper_extension.Prelude.Text.{◌⧺◌}
use crypt_keeper_extension.Types.{IdentityData}
use crypt_keeper_extension.Requests.{MerkleProof, JoinGroupArgs}
use crypt_keeper_extension.Exec.{Result, ok, err}
use crypt_keeper_extension.ZkProof.{and_then}

pub data Method : Type 0 where
  get_method post_method : Method

pub record Fetch : Type 0 where
  pub method : Method
  pub url : String
  pub api_key : Option String
  pub body : Option String

-- A response, and what each caller reads from its JSON; the error is that of the reading.
pub record Response : Type 0 where
  pub is_ok : Bool
  pub message : Result String
  pub membership : Result Bool
  pub merkle_proof : Result MerkleProof

-- What the service calls: the configuration, `hexToBigint` printed in a URL, `JSON` and `fetch`.
pub record BandadaApi : Type 0 where
  pub api_url : String
  pub hex_to_bigint : String → Result String
  pub json_invite_code : String → String
  pub fetch : Fetch → Result Response

abbrev failed : {A : Type 0} → Result String → Result A
failed (ok message) = err message
failed (err e) = err e

module _ (api : BandadaApi) where
  member_url : String → String → Result String
  member_url group_id commitment =
      and_then (api.hex_to_bigint commitment)
        λ n. ok (api.api_url ⧺ "/groups/" ⧺ group_id ⧺ "/members/" ⧺ n)

  added_by : Response → Result Bool
  added_by r = if r.is_ok then ok true else failed r.message

  post_member : JoinGroupArgs → String → Result Bool
  unfolding member_url added_by
  post_member args commitment = and_then (member_url args.group_id commitment) λ url.
      and_then
        (api.fetch (record {
          method = post_method;
          url = url;
          api_key = present args.api_key;
          body = elim (present args.invite_code) [
            | none ↦ none
            | some code ↦ some (api.json_invite_code code)
          ];
        }))
        added_by

  unfoldable pub add_member : JoinGroupArgs → IdentityData → Result Bool
  unfolding post_member
  add_member args identity =
      if not (is_some (present args.api_key)) && not (is_some (present args.invite_code))
      then err "Provide api key or invide code"
      else (if is_some (present args.api_key) && is_some (present args.invite_code)
          then err "Don't provide both api key and invide code"
          else post_member args identity.commitment)

  get_from : Result String → Result Response
  get_from url =
      and_then url
        λ u. api.fetch (record { method = get_method; url = u; api_key = none; body = none })

  unfoldable pub check_group_membership : String → IdentityData → Result Bool
  unfolding member_url get_from
  check_group_membership group_id identity =
      and_then (get_from (member_url group_id identity.commitment))
        λ r. if r.is_ok then r.membership else failed r.message

  unfoldable pub generate_merkle_proof : String → IdentityData → Result MerkleProof
  unfolding member_url get_from
  generate_merkle_proof group_id identity =
      and_then
        (get_from (and_then (member_url group_id identity.commitment) λ url. ok (url ⧺ "/proof")))
        λ r. if r.is_ok then r.merkle_proof else failed r.message
