-- ===== src/Tests/Popup.antt =====
-- The popup, and the extension in the sample state.
use crypt_keeper_extension.Prelude.{true, ◌≡◌, refl, some, [], ◌∷◌}
use crypt_keeper_extension.JsMap
use crypt_keeper_extension.Types.{HostPermission}
use crypt_keeper_extension.Requests.{PendingRequest, approve, origin_payload}
use crypt_keeper_extension.State.{Ext, installed}
use crypt_keeper_extension.Exec.{ok, ◌>>=◌, result, after}
use crypt_keeper_extension.SimpleStorage
use crypt_keeper_extension.Crypto
use crypt_keeper_extension.Browser
use crypt_keeper_extension.Lock
use crypt_keeper_extension.Approval
use crypt_keeper_extension.RequestManager.{new_request}
use crypt_keeper_extension.RequestManager.Queue.{here, next, requests}
use crypt_keeper_extension.Store.{
  Store, initial_store, dispatch, set_permission, remove_host_permission,
}
use crypt_keeper_extension.Store.Thunks.{set_host_permissions, ensured_set_permission, remove_host}
use crypt_keeper_extension.Store.Permissions
use crypt_keeper_extension.Store.Permissions.{
  IsShown, Call, Calls, sets, removes, call, calls-IsShown,
}
use crypt_keeper_extension.Modals.{on_accept, on_reject, on_set_approval}
use crypt_keeper_extension.Modals.Answers.{IsAnswered, first_leaves}
use crypt_keeper_extension.Modals.Refusing.{refused_host_approved}
use crypt_keeper_extension.Tests.Sample.{sample}
use crypt_keeper_extension.Tests.States.{ready}

abbrev ask_request : PendingRequest
ask_request = record {
  id = "0";
  window_id = 1;
  type = approve;
  payload = origin_payload "https://b.org";
}

refused_host_example :
    let u =
      after
        (on_reject initial_store)
        (after (on_set_approval sample ask_request true initial_store) ready) in
    (result (Approval.get_permission "https://b.org") u
      ≡ ok (record { url_origin = "https://b.org"; can_skip_approve = true }))
    × (result (Approval.is_origin_approved true (some "https://b.org")) u ≡ ok true)
refused_host_example =
    refused_host_approved sample true ask_request true initial_store initial_store ready refl refl

abbrev asked : Ext
asked = after (new_request approve (origin_payload "https://b.org")) installed

abbrev asked_twice : Ext
asked_twice = after (new_request approve (origin_payload "https://c.org")) asked

abbrev shows_both : Store
shows_both = record initial_store { pending_requests = asked_twice.pending_requests }

queued : (r q : PendingRequest) × (asked_twice.pending_requests ≡ r ∷ q ∷ [])
unfolding new_request Browser.open_popup ◌>>=◌
queued = (_, _, refl)

in_popup : asked_twice.popup ≡ some 1
unfolding new_request Browser.open_popup ◌>>=◌
in_popup = refl

first_example :
    IsAnswered (queued.1 ∷ []) 1 shows_both (on_accept (some true) shows_both asked_twice)
    × IsAnswered (queued.1 ∷ []) 1 shows_both (on_reject shows_both asked_twice)
first_example =
    first_leaves queued.0 (queued.1 ∷ []) (some true) 0 shows_both asked_twice
      (next (next here (requests approve (origin_payload "https://b.org")))
        (requests approve (origin_payload "https://c.org")))
      queued.2 in_popup refl

abbrev shown_host : HostPermission
shown_host = record { url_origin = "https://b.org"; can_skip_approve = true }

abbrev once : Store
once = dispatch (set_permission shown_host) initial_store

sets_it : result (set_host_permissions sample shown_host initial_store) ready ≡ ok (tt, once)
unfolding set_host_permissions ensured_set_permission Lock.ensure Approval.set_permission
    SimpleStorage.set Crypto.encrypt ◌>>=◌
sets_it = refl

abbrev hosted : Ext
hosted = after (set_host_permissions sample shown_host initial_store) ready

abbrev twice : Store
twice = dispatch (remove_host_permission "https://b.org") once

removes_it : result (remove_host sample "https://b.org" once) hosted ≡ ok (tt, twice)
unfolding set_host_permissions ensured_set_permission Lock.ensure remove_host Approval.remove
    Approval.set_permission SimpleStorage.set Crypto.encrypt Browser.push_event Browser.close_popup
    JsMap.has JsMap.get JsMap.set ◌>>=◌
removes_it = refl

ready-IsShown : IsShown initial_store ready
unfolding JsMap.get
ready-IsShown = record { shown = λ o p found. absurd (cc); store_map = tt; hosts_map = (tt, tt) }

shown_example : IsShown twice (after (remove_host sample "https://b.org" once) hosted)
shown_example =
    calls-IsShown sample
      (Permissions.next (sets shown_host) sets_it
        (Permissions.next (removes "https://b.org") removes_it Permissions.here))
      ready-IsShown
