-- ===== src/Injector/Access.antt =====
-- A page is let in only by the user.
use crypt_keeper_extension.Prelude.{
  some_of_present, String, Bool, true, ◌≡◌, refl, Option, none, some, present, is_some, arith,
  Option-cases, inl, inr, ◌==◌, if◌then◌else◌,
}
use crypt_keeper_extension.JsMap
use crypt_keeper_extension.Prelude.Text.{◌⧺◌}
use crypt_keeper_extension.Requests.{
  resolved_with, rejected_with, PendingRequestType, RequestPayload, approve, origin_payload,
}
use crypt_keeper_extension.State.{Ext}
use crypt_keeper_extension.Env.{Env}
use crypt_keeper_extension.Exec.{Result, ok, err, Result-cases, ◌>>=◌, after, after-pure, result}
use crypt_keeper_extension.Browser
use crypt_keeper_extension.Browser.Closing.{close_popup_ok, close_popup_keeps}
use crypt_keeper_extension.RequestManager
use crypt_keeper_extension.Approval
use crypt_keeper_extension.Approval.{add, skips}
use crypt_keeper_extension.Connection
use crypt_keeper_extension.Connection.Reading.{get_connected_identity-reads}
use crypt_keeper_extension.Approval.Permissions.{add_memory, get-add}
use crypt_keeper_extension.Protocol.{answered}
use crypt_keeper_extension.Injector.{
  begin_connect, end_connect, begin_body, ask_or_give, give_access, get_connection_data,
  ConnectionData,
}

close_popup_hosts :
    (s : Ext)
    → (Browser.close_popup s ≡ (ok true, after Browser.close_popup s))
      × ((after Browser.close_popup s).allowed_hosts ≡ s.allowed_hosts)
close_popup_hosts s =
    (close_popup_ok s, close_popup_keeps (λ t. t.allowed_hosts) (λ p q w e t. refl) s)

new_request_hosts :
    (type : PendingRequestType) (payload : RequestPayload) (s : Ext)
    → (after (RequestManager.new_request type payload) s).allowed_hosts ≡ s.allowed_hosts
unfolding RequestManager.new_request Browser.open_popup ◌>>=◌
new_request_hosts type payload s = ground arith

module _ (env : Env) where
  give_access_hosts :
      (is_change is_connected : Bool) (origin : String) (skip : Bool) (s : Ext)
      → (after (give_access env is_change is_connected origin skip) s).allowed_hosts
        ≡ (after
            (add env (record { url_origin = origin; can_skip_approve = skip }))
            s).allowed_hosts
  unfolding give_access Connection.connect_request Browser.open_popup ◌>>=◌
  give_access_hosts is_change is_connected origin skip s = ground arith

  pub data_lem :
      (url_origin : Option String) (origin : String) (s : Ext)
      → present url_origin ≡ some origin
      → (r : Result ConnectionData) × (get_connection_data env url_origin s ≡ (r, s))
        × ((d : ConnectionData) → r ≡ ok d → d.is_approved ≡ JsMap.has origin s.allowed_hosts)
  unfolding get_connection_data Approval.is_approved Approval.can_skip_approve ◌>>=◌
  data_lem url_origin origin s given =
      elim (Result-cases (result (Connection.get_connected_identity env (some origin)) s)) [
        | inl (e, broken) ↦ (
          err e,
          ground (arith, given, broken, get_connected_identity-reads env (some origin) s),
          λ d h. absurd (ground (arith, h)),
        )
        | inr (found, there) ↦ (
          ok (record {
            is_approved = JsMap.has origin s.allowed_hosts;
            is_connected = is_some found;
            can_skip_approve = skips (JsMap.get origin s.allowed_hosts);
          }),
          ground (arith, given, there, get_connected_identity-reads env (some origin) s),
          λ d h. ground (arith, h),
        )
      ]

  pub data_missing :
      (url_origin : Option String) (s : Ext)
      → present url_origin ≡ none
      → get_connection_data env url_origin s ≡ (err "CryptKeeper: Origin is not set", s)
  unfolding get_connection_data ◌>>=◌
  data_missing url_origin s missing = ground (arith, missing)

  -- A host that is approved stays as it is, and one that is not is not added.
  ask_or_give_hosts :
      (is_change : Bool) (url_origin : Option String) (origin : String) (d : ConnectionData)
      (s : Ext)
      → url_origin ≡ some origin
      → d.is_approved ≡ JsMap.has origin s.allowed_hosts
      → (after (ask_or_give env is_change url_origin d) s).allowed_hosts ≡ s.allowed_hosts
  unfolding ask_or_give JsMap.has ◌>>=◌
  ask_or_give_hosts is_change url_origin origin d s given approved = ground (
    arith,
    given,
    approved,
    give_access_hosts is_change d.is_connected origin d.can_skip_approve s,
    add_memory env (record { url_origin = origin; can_skip_approve = d.can_skip_approve }) s,
    new_request_hosts approve (origin_payload origin) s,
  )

  -- Before the answer, a host is given access only where it has it.
  pub begin_connect_hosts :
      (is_change : Bool) (url_origin : Option String) (s : Ext)
      → (after (begin_connect env is_change url_origin) s).allowed_hosts ≡ s.allowed_hosts
  unfolding begin_connect begin_body ◌>>=◌
  begin_connect_hosts is_change url_origin s = elim (Option-cases (present url_origin)) [
    | inl missing ↦ ground (arith, data_missing url_origin s missing)
    | inr (origin, given) ↦
        let (r, run, approved) = data_lem url_origin origin s given in
        elim (Result-cases r) [
          | inl (e, thrown) ↦ ground (arith, run, thrown)
          | inr (d, made) ↦ ground (
            arith,
            run,
            made,
            after-pure {B = Bool × Option String} (ask_or_give env is_change url_origin d)
                (λ (waiting : Option String). (d.is_connected, waiting)) s,
            ask_or_give_hosts is_change url_origin origin d s
                (some_of_present url_origin origin given) (approved d made),
          )
        ]
  ]

  -- The part of `connect` that runs before the user's answer approves no host and takes none away,
  -- whether it returns or throws. A refusal throws and changes nothing.
  pub connect_needs_consent :
      (is_change_identity is_connected : Bool) (url_origin : Option String) (reason : String)
      (s : Ext)
      → ((after (begin_connect env is_change_identity url_origin) s).allowed_hosts
          ≡ s.allowed_hosts)
        × (end_connect env is_change_identity is_connected url_origin (rejected_with reason) s
            ≡ (err ("CryptKeeper: error in the connect request, " ⧺ reason), s))
  unfolding end_connect answered ◌>>=◌
  connect_needs_consent is_change_identity is_connected url_origin reason s =
      (begin_connect_hosts is_change_identity url_origin s, refl)

  -- An accepted request approves its host with the permission that the user chose, if it was not
  -- approved, and changes no other host.
  pub end_connect_accepted :
      (is_change_identity is_connected can_skip : Bool) (origin j : String) (s : Ext)
      → JsMap.get j
          (after
            (end_connect env is_change_identity is_connected
              (some origin)
              (resolved_with (some can_skip)))
            s).allowed_hosts
        ≡ (if is_some (JsMap.get j s.allowed_hosts)
            then JsMap.get j s.allowed_hosts
            else if origin == j
            then some (record { url_origin = origin; can_skip_approve = can_skip })
            else none)
  unfolding end_connect answered ◌>>=◌
  end_connect_accepted is_change_identity is_connected can_skip origin j s =
      let t = after Browser.close_popup s in
      let (run, hosts) = close_popup_hosts s in
      ground (
        arith,
        run,
        hosts,
        give_access_hosts is_change_identity is_connected origin can_skip t,
        get-add env (record { url_origin = origin; can_skip_approve = can_skip }) j t,
      )
