-- ===== src/Modals.antt =====
-- packages/app/src/ui/components/ConfirmRequestModal: the user answers the first of the requests that
-- wait, and sets the permission of a host that asks to connect.
pub mod Answers
pub mod Refusing
use crypt_keeper_extension.Prelude.{String, Bool, Option, none, some, List, [], ◌∷◌}
use crypt_keeper_extension.Requests.{
  PendingRequest, RequestPayload, semaphore_payload, rln_payload, origin_payload, ResolutionAction,
  ResolutionStatus, accept, reject,
}
use crypt_keeper_extension.Types.{HostPermission}
use crypt_keeper_extension.Env.{Env}
use crypt_keeper_extension.Exec.{M, pure, throw, ◌>>=◌, ◌>>◌, catch}
use crypt_keeper_extension.Store.{Store}
use crypt_keeper_extension.Store.Thunks.{
  Thunk, finalize_request, fetch_pending_requests, close_popup, set_host_permissions,
}

-- `finalize` of useConfirmRequestModal: the error that is shown, or none. Of its steps only the first
-- can throw, and the store is then as it was.
unfoldable pub finalize : ResolutionAction → Thunk (Option String)
finalize action store =
    catch
      (do
        finalize_request action
        fetched ← fetch_pending_requests store
        close_popup
        pure (none, fetched.1))
      (λ e. pure (some e, store))

-- `reject` of the modal, without an error of its own.
reject_first : List PendingRequest → Thunk (Option String)
unfolding finalize
reject_first [] store = do close_popup; pure (none, store)
reject_first (r ∷ rs) store = finalize (record { id = r.id; status = reject; answer = none }) store

unfoldable pub on_reject : Thunk (Option String)
unfolding reject_first
on_reject store = reject_first store.pending_requests store

-- `accept`: there is a request where the modal is shown.
accept_first : Option Bool → List PendingRequest → Thunk (Option String)
unfolding finalize
accept_first data_given [] store = throw "Cannot read properties of undefined (reading 'id')"
accept_first data_given (r ∷ rs) store =
    finalize (record { id = r.id; status = accept; answer = data_given }) store

unfoldable pub on_accept : Option Bool → Thunk (Option String)
unfolding accept_first
on_accept data_given store = accept_first data_given store.pending_requests store

-- `urlOrigin` of useConnectionApprovalModal, whose request is made by `connect`: `payload?.urlOrigin`.
abbrev pub url_origin_of : RequestPayload → String
url_origin_of (origin_payload url_origin) = url_origin
url_origin_of (semaphore_payload request) = request.url_origin
url_origin_of (rln_payload request) = request.url_origin

-- `onSetApproval` of useConnectionApprovalModal: the box is ticked or not, and the permission of the
-- host is set at once. The store and whether the box is ticked; the errors of the thunk are dropped.
unfoldable pub on_set_approval : Env → PendingRequest → Bool → Thunk Bool
on_set_approval env request checked store = do
  set ←
      catch
        (set_host_permissions env
          (record { url_origin = url_origin_of request.payload; can_skip_approve = checked }) store)
        (λ e. pure (tt, store))
  pure (checked, set.1)

-- `onAccept` of useConnectionApprovalModal; of its answer `connect` reads `canSkipApprove`.
unfoldable pub on_accept_connection : Bool → Thunk (Option String)
unfolding on_accept
on_accept_connection checked store = on_accept (some checked) store
