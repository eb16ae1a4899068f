-- ===== src/RequestManager.antt =====
-- controllers/requestManager: the requests that wait for the user, and the promises of those who
-- made them.
pub mod Queue
pub mod Settling
pub mod Distinct
pub mod Keys
pub mod Interleaving
use crypt_keeper_extension.Prelude.{
  ℕ, suc, String, Bool, true, false, not, ◌&&◌, Option, none, some, List, [], ◌∷◌, ◌++◌, eqb,
  filter, if◌then◌else◌, ◌==◌,
}
use crypt_keeper_extension.Prelude.Text.{◌⧺◌, decimal}
use crypt_keeper_extension.Requests.{
  PendingRequest, PendingRequestType, RequestPayload, ResolutionAction, ResolutionStatus, accept,
  reject, other_status, Waiter, Outcome, resolved_with, rejected_with,
}
use crypt_keeper_extension.State.{Ext, Effect, default_page, set_pending_requests, settled}
use crypt_keeper_extension.Exec.{M, pure, ◌>>=◌, ◌>>◌, gets, modify, send}
use crypt_keeper_extension.Browser
unfoldable pub use crypt_keeper_extension.Browser.{
  rejection, settle_all, clear_requests, is_waiting_at, closed_at, close_all, reject_waiters,
  window_closed,
}

unfoldable pub get_nonce : M ℕ
get_nonce = gets (λ s. s.nonce)

unfoldable pub get_requests : M (List PendingRequest)
get_requests = gets (λ s. s.pending_requests)

-- `addToQueue`; its first three statements run with nothing in between.
unfoldable pub add_to_queue : PendingRequestType → ℕ → RequestPayload → M String
add_to_queue type window_id payload = do
  n ← gets (λ s. s.nonce)
  modify (λ s. record s {
    nonce = suc n;
    pending_requests =
        s.pending_requests
        ++ record { id = decimal n; window_id = window_id; type = type; payload = payload } ∷ [];
  })
  pending ← gets (λ s. s.pending_requests)
  send (set_pending_requests pending)
  pure (decimal n)

-- The promise of `newRequest`, named by the request's id: it waits for the event `finalized` of that
-- id, and for the closing of the popup.
unfoldable pub register : String → ℕ → M Unit
register id popup = modify (λ s. record s {
  waiters = s.waiters ++ record { id = id; window_id = popup; is_settled = false } ∷ [];
})

-- `newRequest`, up to the promise that it returns, where nothing runs while it waits for the browser
-- to open the popup and to tell it the queue.
unfoldable pub new_request : PendingRequestType → RequestPayload → M String
unfolding add_to_queue register
new_request type payload = do
  popup ← Browser.open_popup default_page
  id ← add_to_queue type popup payload
  register id popup
  pure id

-- What the listener of `finalized` does with an action.
abbrev pub outcome_of : ResolutionAction → ResolutionStatus → Outcome
outcome_of action accept = resolved_with action.answer
outcome_of action reject = rejected_with rejection
outcome_of action (other_status status) = rejected_with ("action: " ⧺ status ⧺ " not supported")

-- `eventEmitter.emit`: each listener of the id is called once and taken off.
unfoldable pub emit_finalized : ResolutionAction → M Unit
unfolding settle_all
emit_finalized action = modify (λ s. record s {
  waiters = filter (λ w. not (w.id == action.id)) s.waiters;
  effects =
      settle_all (outcome_of action action.status) (filter (λ w. w.id == action.id) s.waiters)
        s.effects;
})

unfoldable pub finalize_request : ResolutionAction → M Bool
unfolding emit_finalized
finalize_request action = do
  modify (λ s. record s {
    pending_requests = filter (λ r. not (r.id == action.id)) s.pending_requests;
  })
  emit_finalized action
  pending ← gets (λ s. s.pending_requests)
  send (set_pending_requests pending)
  pure true
