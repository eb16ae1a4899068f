-- ===== src/Tests/Access.antt =====
-- A page connects and joins a group, in the sample state.
use crypt_keeper_extension.Prelude.{
  String, Bool, true, false, not, ◌≡◌, ◌≤◌, refl, none, some, [], ◌∷◌, is_some, present, leb, ◌==◌,
  if◌then◌else◌,
}
use crypt_keeper_extension.Prelude.Text.{◌⧺◌, size, decimal}
use crypt_keeper_extension.JsMap
use crypt_keeper_extension.Requests.{
  accept, MerkleProof, JoinGroupArgs, rejected_with, resolved_with,
}
use crypt_keeper_extension.Exec.{ok, err, ◌>>=◌, after, result}
use crypt_keeper_extension.SimpleStorage
use crypt_keeper_extension.Crypto
use crypt_keeper_extension.ZkIdentity
use crypt_keeper_extension.ZkIdentity.{ellipsify}
use crypt_keeper_extension.ZkIdentity.Ellipsis.{ellipsify_bounds}
use crypt_keeper_extension.Connection
use crypt_keeper_extension.History
use crypt_keeper_extension.Browser
use crypt_keeper_extension.ZkIdentitySemaphore.{
  ZkIdentitySemaphore, gen_from_serialized, gen_identity_commitment,
}
use crypt_keeper_extension.Bandada.{BandadaApi, Response, add_member}
use crypt_keeper_extension.Bandada.Members.{IsPosted}
use crypt_keeper_extension.Group.{join_group}
use crypt_keeper_extension.Group.Joining.{join_group_ok}
use crypt_keeper_extension.Injector.{begin_connect, end_connect}
use crypt_keeper_extension.Injector.{get_connection_data}
use crypt_keeper_extension.Injector.Access.{connect_needs_consent}
use crypt_keeper_extension.Injector.Granting.{acceptance_connects}
use crypt_keeper_extension.Approval
use crypt_keeper_extension.State.{installed, set_pending_requests, settled}
use crypt_keeper_extension.RequestManager.{new_request, finalize_request}
use crypt_keeper_extension.RequestManager.Queue.{Reach, here, next, elsewhere}
use crypt_keeper_extension.Tests.Sample.{sample}
use crypt_keeper_extension.Tests.States.{ready}

consent_example :
    ((after (begin_connect sample true (some "https://b.org")) ready).allowed_hosts
      ≡ ready.allowed_hosts)
    × (end_connect sample true false (some "https://b.org") (rejected_with "no") ready
        ≡ (err ("CryptKeeper: error in the connect request, " ⧺ "no"), ready))
consent_example = connect_needs_consent sample true false (some "https://b.org") "no" ready

asks : result (begin_connect sample false (some "https://b.org")) ready ≡ ok (false, some "0")
unfolding begin_connect get_connection_data Approval.is_approved Approval.can_skip_approve
    Connection.get_connected_identity JsMap.get JsMap.has new_request Browser.open_popup decimal
    ◌>>=◌
asks = refl

ready-Reach : Reach installed ready
ready-Reach = next here (elsewhere refl refl refl)

accepted_example :
    let t = after (begin_connect sample false (some "https://b.org")) ready in
    let u = after (finalize_request (record { id = "0"; status = accept; answer = some true })) t in
    let v =
      after (end_connect sample false false (some "https://b.org") (resolved_with (some true))) u in
    (JsMap.has "https://b.org" ready.allowed_hosts ≡ false)
    × (u.pending_requests ≡ [])
    × (u.waiters ≡ [])
    × (u.effects ≡ set_pending_requests [] ∷ settled "0" (resolved_with (some true)) ∷ t.effects)
    × ((j : String)
        → JsMap.get j v.allowed_hosts ≡ (
            if "https://b.org" == j
            then some (record { url_origin = "https://b.org"; can_skip_approve = true })
            else JsMap.get j ready.allowed_hosts))
accepted_example =
    acceptance_connects sample false false true "https://b.org" "0" ready ready-Reach asks

abbrev proof : MerkleProof
proof = record { root = "1"; leaf = "2"; siblings = "3" ∷ []; path_indices = 0 ∷ [] }

abbrev response : Response
response = record { is_ok = true; message = ok ""; membership = ok true; merkle_proof = ok proof }

abbrev bandada : BandadaApi
bandada = record {
  api_url = "https://api.bandada.pse.dev";
  hex_to_bigint = λ h. ok h;
  json_invite_code = λ code. code;
  fetch = λ request. ok response;
}

abbrev join_args : JoinGroupArgs
join_args = record { group_id = "7"; api_key = some "key"; invite_code = none }

joins : result (join_group sample bandada join_args (some "https://a.org")) ready ≡ ok true
unfolding join_group add_member Connection.get_connected_identity ZkIdentity.get_identity
    gen_from_serialized JsMap.get History.track_operation SimpleStorage.set Crypto.encrypt
    Browser.notify Browser.push_event ◌>>=◌
joins = refl

joins_example :
    (◌≡◌ {A = Bool} true true)
    × (is_some (present join_args.api_key) ≡ not (is_some (present join_args.invite_code)))
    × (z : ZkIdentitySemaphore) × (result
          (Connection.get_connected_identity sample (some "https://a.org"))
          ready
        ≡ ok (some z))
    × IsPosted bandada join_args (gen_identity_commitment sample z)
joins_example = join_group_ok sample bandada join_args (some "https://a.org") true ready joins

abbrev commitment : String
commitment = "0123456789abcdef"

ellipsis_example :
    (size (ellipsify commitment) ≤ 13)
    × (if leb (size commitment) 10
        then ellipsify commitment ≡ commitment
        else (before : String) × (mid : String) × (last : String) × (commitment
            ≡ before ⧺ mid ⧺ last)
          × (size before ≡ 6)
          × (size last ≡ 4)
          × (ellipsify commitment ≡ before ⧺ "..." ⧺ last))
ellipsis_example = ellipsify_bounds commitment
