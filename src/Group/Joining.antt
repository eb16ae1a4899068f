-- ===== src/Group/Joining.antt =====
-- When the connected identity has joined a group.
use crypt_keeper_extension.Prelude.{
  String, Bool, true, not, ◌≡◌, sym, subst, ◌∙◌, Option, none, some, present, is_some, arith, inl,
  inr,
}
use crypt_keeper_extension.Types.{IdentityData}
use crypt_keeper_extension.Requests.{JoinGroupArgs}
use crypt_keeper_extension.State.{Ext}
use crypt_keeper_extension.Env.{Env}
use crypt_keeper_extension.Exec.{
  ok_injective, ok, Result-cases, ◌>>=◌, >>=-eq-ok, lift, pure, result,
}
use crypt_keeper_extension.Connection
use crypt_keeper_extension.ZkIdentitySemaphore.{ZkIdentitySemaphore, gen_identity_commitment}
use crypt_keeper_extension.Bandada.{BandadaApi, add_member}
use crypt_keeper_extension.Bandada.Members.{IsPosted, add_member_ok}
use crypt_keeper_extension.Group.{join_group, get_connected_identity}

module _ (env : Env) where
  connected_ok :
      (url_origin : Option String) (s : Ext) {i : IdentityData}
      → result (get_connected_identity env url_origin) s ≡ ok i
      → (z : ZkIdentitySemaphore) × (result (Connection.get_connected_identity env url_origin) s
          ≡ ok (some z))
        × (i.commitment ≡ gen_identity_commitment env z)
  unfolding get_connected_identity ◌>>=◌
  connected_ok url_origin s h =
      elim (Result-cases (result (Connection.get_connected_identity env url_origin) s)) [
        | inl (e, thrown) ↦ absurd (ground (arith, thrown, h))
        | inr (none, missing) ↦ absurd (ground (arith, missing, h))
        | inr (some z, there) ↦ (z, there, ground (arith, there, h))
      ]

  -- `joinGroup` returns only true, and only where an identity is connected to the origin, exactly one
  -- of an API key and an invite code was given, and Bandada has answered the post of that identity's
  -- commitment to the group, with the key and the code, with success.
  pub join_group_ok :
      (api : BandadaApi) (args : JoinGroupArgs) (url_origin : Option String) (joined : Bool)
      (s : Ext)
      → result (join_group env api args url_origin) s ≡ ok joined
      → (joined ≡ true)
        × (is_some (present args.api_key) ≡ not (is_some (present args.invite_code)))
        × (z : ZkIdentitySemaphore) × (result (Connection.get_connected_identity env url_origin) s
            ≡ ok (some z))
        × IsPosted api args (gen_identity_commitment env z)
  unfolding join_group lift pure
  join_group_ok api args url_origin joined s h =
      let (identity, got, rest) = >>=-eq-ok (get_connected_identity env url_origin) _ s h in
      let (z, connected, named) = connected_ok url_origin s got in
      let (answer, added, told) = >>=-eq-ok (lift (add_member api args identity)) _ _ rest in
      let (_, _, noted) = >>=-eq-ok _ _ _ told in
      let (_, _, pushed) = >>=-eq-ok _ _ _ noted in
      let (_, _, returned) = >>=-eq-ok _ _ _ pushed in
      let (right, only, posted) = add_member_ok api args identity answer added in
      let same : answer ≡ joined = ok_injective returned in
      (
        sym same ∙ right,
        only,
        z,
        connected,
        subst (λ (c : String). IsPosted api args c) named posted,
      )
