-- ===== src/Browser.antt =====
-- controllers/browserUtils and services/notification: the one popup window, events for the tabs of
-- an origin, and notifications; and the listeners of controllers/requestManager that run when a
-- window is closed.
pub mod Closing
use crypt_keeper_extension.Prelude.{
  ℕ, zero, suc, String, Bool, true, not, ◌&&◌, Option, none, some, List, [], ◌∷◌, eqb, filter,
  if◌then◌else◌,
}
use crypt_keeper_extension.Requests.{Waiter, Outcome, rejected_with}
use crypt_keeper_extension.State.{
  BrowserEvent, Effect, Page, settled, notification, event, opened, focused_popup, closed_popup,
}
use crypt_keeper_extension.Exec.{M, pure, ◌>>=◌, ◌>>◌, gets, modify, send}

-- Window ids are positive, so `cached?.id` holds as soon as a window is cached.
open_from : Page → Option ℕ → M ℕ
open_from page (some id) = do send focused_popup; pure id
open_from page none = do
  modify (λ s. record s { windows = suc s.windows; popup = some (suc s.windows) })
  send (opened page)
  gets (λ s. s.windows)

-- A popup that is open already is focused, and stays at its page.
unfoldable pub open_popup : Page → M ℕ
unfolding open_from
open_popup page = do cached ← gets (λ s. s.popup); open_from page cached

cleaned : ℕ → Option ℕ → Option ℕ
cleaned id none = none
cleaned id (some cached) = if eqb cached id then none else some cached

-- The listener that runs when a window is closed.
unfoldable pub clean_cache : ℕ → M Unit
unfolding cleaned
clean_cache id = modify (λ s. record s { popup = cleaned id s.popup })

-- A promise that was settled before stays as it is.
unfoldable pub settle_all : Outcome → List Waiter → List Effect → List Effect
settle_all outcome [] effects = effects
settle_all outcome (w ∷ ws) effects =
    settle_all outcome ws (if w.is_settled then effects else settled w.id outcome ∷ effects)

abbrev pub rejection : String
rejection = "User rejected your request."

-- `clearRequests`, the listener of the manager; window ids are positive.
unfoldable pub clear_requests : ℕ → M Unit
clear_requests window_id = modify (λ s. record s {
  pending_requests =
      if eqb window_id 0
      then s.pending_requests
      else filter (λ r. not (eqb r.window_id window_id)) s.pending_requests;
})

abbrev pub is_waiting_at : ℕ → Waiter → Bool
is_waiting_at window_id w = eqb w.window_id window_id && not w.is_settled

-- `onPopupClose`: the promise is rejected, and its listener of the closing is taken off; that of
-- `finalized` stays.
abbrev pub closed_at : ℕ → Waiter → Waiter
closed_at window_id w = if eqb w.window_id window_id then record w { is_settled = true } else w

unfoldable pub close_all : ℕ → List Waiter → List Waiter
close_all window_id [] = []
close_all window_id (w ∷ ws) = closed_at window_id w ∷ close_all window_id ws

unfoldable pub reject_waiters : ℕ → M Unit
unfolding settle_all close_all
reject_waiters window_id = modify (λ s. record s {
  waiters = close_all window_id s.waiters;
  effects =
      settle_all (rejected_with rejection) (filter (is_waiting_at window_id) s.waiters) s.effects;
})

-- The browser closes a window: the listeners run in the order in which they were added.
unfoldable pub window_closed : ℕ → M Unit
unfolding clear_requests reject_waiters
window_closed window_id = do
  clean_cache window_id
  clear_requests window_id
  reject_waiters window_id

-- Closing the cached window runs the listeners of its closing. An id that is 0 counts as no window.
close_from : Option ℕ → M Unit
unfolding window_closed
close_from none = pure tt
close_from (some zero) = pure tt
close_from (some (suc n)) = do
  send closed_popup
  window_closed (suc n)
  modify (λ s. record s { popup = none })

unfoldable pub close_popup : M Bool
unfolding close_from
close_popup = do cached ← gets (λ s. s.popup); close_from cached; pure true

unfoldable pub push_event : BrowserEvent → Option String → M Unit
push_event e url_origin = send (event e url_origin)

-- NotificationService.create, once for the active tabs
unfoldable pub notify : String → String → M Unit
notify title message = send (notification title message)
