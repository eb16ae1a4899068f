-- ===== src/Modals/Refusing.antt =====
-- A host that the user has refused, after the box for its permission was ticked or unticked.
use crypt_keeper_extension.Prelude.{
  String, Bool, true, ◌≡◌, refl, ap, ◌∙◌, Option, none, some, List, [], ◌∷◌, arith, truthy, inl,
  inr,
}
use crypt_keeper_extension.JsMap
use crypt_keeper_extension.JsMap.Laws.{get-set_self}
use crypt_keeper_extension.Types.{HostPermission}
use crypt_keeper_extension.Requests.{PendingRequest, ResolutionAction, reject}
use crypt_keeper_extension.State.{Ext}
use crypt_keeper_extension.Env.{Env}
use crypt_keeper_extension.Exec.{Result, ok, ◌>>=◌, after, result, Result-cases}
use crypt_keeper_extension.Browser
use crypt_keeper_extension.Browser.Closing.{close_popup_keeps}
use crypt_keeper_extension.Lock
use crypt_keeper_extension.Approval
use crypt_keeper_extension.Approval.Permissions.{set_permission_memory}
use crypt_keeper_extension.RequestManager
use crypt_keeper_extension.Injector.Granting.{finalize_request_hosts}
use crypt_keeper_extension.Modals.Answers.{closed_lem, finalize_lem}
use crypt_keeper_extension.Store.{Store}
use crypt_keeper_extension.Store.Posting.{post_of_ok}
use crypt_keeper_extension.Store.Thunks.{
  post, close_popup, set_host_permissions, ensured_set_permission, set_passed,
}
use crypt_keeper_extension.Modals.{
  finalize, on_reject, on_set_approval, url_origin_of, reject_first,
}

close_popup_hosts : (s : Ext) → (after Browser.close_popup s).allowed_hosts ≡ s.allowed_hosts
close_popup_hosts s = close_popup_keeps (λ t. t.allowed_hosts) (λ p q w e t. refl) s

answer_hosts :
    (action : ResolutionAction) (store : Store) (s : Ext)
    → (after (finalize action store) s).allowed_hosts ≡ s.allowed_hosts
answer_hosts action store s =
    let t = after (RequestManager.finalize_request action) s in
    ap (λ (r : Result (Option String × Store) × Ext). r.1.allowed_hosts)
      (finalize_lem action store s)
    ∙ close_popup_hosts t
    ∙ finalize_request_hosts action s

reject_first_hosts :
    (rs : List PendingRequest) (store : Store) (s : Ext)
    → (after (reject_first rs store) s).allowed_hosts ≡ s.allowed_hosts
unfolding reject_first close_popup ◌>>=◌
reject_first_hosts [] store s =
    ground (arith, post_of_ok Browser.close_popup s true (closed_lem s), close_popup_hosts s)
reject_first_hosts (r ∷ rs) store s =
    answer_hosts (record { id = r.id; status = reject; answer = none }) store s

module _ (env : Env) where
  ticked_hosts :
      (request : PendingRequest) (checked : Bool) (store : Store) (s : Ext)
      → s.locker.is_unlocked ≡ true
      → let o = url_origin_of request.payload in
        (after (on_set_approval env request checked store) s).allowed_hosts
        ≡ JsMap.set o (record { url_origin = o; can_skip_approve = checked }) s.allowed_hosts
  unfolding on_set_approval set_host_permissions ensured_set_permission set_passed Lock.ensure post
      ◌>>=◌
  ticked_hosts request checked store s unlocked =
      let o = url_origin_of request.payload in
      let p : HostPermission = record { url_origin = o; can_skip_approve = checked } in
      elim (Result-cases (result (Approval.set_permission env p) s)) [
        | inl (e, thrown) ↦ ground (arith, unlocked, thrown, set_permission_memory env p s)
        | inr (q, made) ↦ ground (arith, unlocked, made, set_permission_memory env p s)
      ]

  -- Where the user ticks or unticks the box of a host that asks to connect, while the extension is
  -- unlocked, and then rejects the request, the host is approved all the same: its permission is the
  -- value of the box, and the middleware passes its calls. It holds whatever the modal shows, also
  -- where writing the permission has thrown; the origin of the host is not empty.
  pub refused_host_approved :
      {P : Type 0} (payload : P) (request : PendingRequest) (checked : Bool) (store later : Store)
      (s : Ext)
      → s.locker.is_unlocked ≡ true
      → truthy (url_origin_of request.payload) ≡ true
      → let o = url_origin_of request.payload in
        let u = after (on_reject later) (after (on_set_approval env request checked store) s) in
        (result (Approval.get_permission o) u
          ≡ ok (record { url_origin = o; can_skip_approve = checked }))
        × (result (Approval.is_origin_approved payload (some o)) u ≡ ok payload)
  unfolding on_reject Approval.get_permission Approval.is_origin_approved Approval.is_approved
      JsMap.has ◌>>=◌
  refused_host_approved payload request checked store later s unlocked named =
      let o = url_origin_of request.payload in
      let p : HostPermission = record { url_origin = o; can_skip_approve = checked } in
      let t = after (on_set_approval env request checked store) s in
      ground (
        arith,
        named,
        reject_first_hosts later.pending_requests later t,
        ticked_hosts request checked store s unlocked,
        get-set_self o p s.allowed_hosts,
      )
