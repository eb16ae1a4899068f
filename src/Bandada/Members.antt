-- ===== src/Bandada/Members.antt =====
-- Which call to Bandada adds a member.
use crypt_keeper_extension.Prelude.{
  String, Bool, true, not, ◌≡◌, none, some, present, is_some, arith, Bool-cases, inl, inr,
}
use crypt_keeper_extension.Prelude.Text.{◌⧺◌}
use crypt_keeper_extension.Types.{IdentityData}
use crypt_keeper_extension.Requests.{JoinGroupArgs}
use crypt_keeper_extension.Exec.{ok, Result-cases}
use crypt_keeper_extension.Bandada.{
  BandadaApi, Fetch, Response, post_method, add_member, member_url, post_member, added_by,
}

module _ (api : BandadaApi) where
  -- What is sent to add an identity.
  abbrev pub post_of : JoinGroupArgs → String → Fetch
  post_of args member = record {
    method = post_method;
    url = api.api_url ⧺ "/groups/" ⧺ args.group_id ⧺ "/members/" ⧺ member;
    api_key = present args.api_key;
    body = elim (present args.invite_code) [
      | none ↦ none
      | some code ↦ some (api.json_invite_code code)
    ];
  }

  -- Bandada has taken the member in.
  abbrev pub IsPosted : JoinGroupArgs → String → Type 0
  IsPosted args commitment =
      (member : String) × (api.hex_to_bigint commitment ≡ ok member)
      × (r : Response) × (api.fetch (post_of args member) ≡ ok r)
      × (r.is_ok ≡ true)

  added_ok :
      (r : Response) (joined : Bool)
      → added_by api r ≡ ok joined
      → (joined ≡ true) × (r.is_ok ≡ true)
  unfolding added_by
  added_ok r joined h = elim (Result-cases r.message) [
    | inl (e, unread) ↦ ground (arith, unread, h)
    | inr (m, told) ↦ ground (arith, told, h)
  ]

  post_member_ok :
      (args : JoinGroupArgs) (commitment : String) (joined : Bool)
      → post_member api args commitment ≡ ok joined
      → (joined ≡ true) × IsPosted args commitment
  unfolding post_member member_url
  post_member_ok args commitment joined h = elim (Result-cases (api.hex_to_bigint commitment)) [
    | inl (e, bad) ↦ absurd (ground (arith, bad, h))
    | inr (member, good) ↦ elim (Result-cases (api.fetch (post_of args member))) [
      | inl (e, unanswered) ↦ absurd (ground (arith, good, unanswered, h))
      | inr (r, answered) ↦
          let (yes_, fine) = added_ok r joined (ground (arith, good, answered, h)) in
          (yes_, (member, good, r, answered, fine))
    ]
  ]

  -- Where a member is added, the caller has given exactly one of an API key and an invite code.
  pub add_member_ok :
      (args : JoinGroupArgs) (identity : IdentityData) (joined : Bool)
      → add_member api args identity ≡ ok joined
      → (joined ≡ true)
        × (is_some (present args.api_key) ≡ not (is_some (present args.invite_code)))
        × IsPosted args identity.commitment
  unfolding add_member
  add_member_ok args identity joined h =
      let only : (is_some (present args.api_key) ≡ not (is_some (present args.invite_code)))
          × (post_member api args identity.commitment ≡ ok joined) =
        elim (Bool-cases (is_some (present args.api_key))) [
          | inl key ↦ elim (Bool-cases (is_some (present args.invite_code))) [
            | inl code ↦ absurd (ground (arith, key, code, h))
            | inr no_code ↦ ground (arith, key, no_code, h)
          ]
          | inr no_key ↦ elim (Bool-cases (is_some (present args.invite_code))) [
            | inl code ↦ ground (arith, no_key, code, h)
            | inr no_code ↦ absurd (ground (arith, no_key, no_code, h))
          ]
        ] in
      let (joined_true, posted) = post_member_ok args identity.commitment joined only.1 in
      (joined_true, only.0, posted)
