-- ===== src/RequestManager/Queue.antt =====
-- Who waits for which request: pages make requests, each with nothing in between, the user answers
-- them, windows are opened and closed.
use crypt_keeper_extension.Prelude.{
  ℕ, zero, suc, ◌<◌, String, Bool, false, not, ◌≡◌, refl, ap, sym, ◌∙◌, List, [], ◌∷◌, ◌++◌, map,
  arith, eqb, inl, inr, Option-cases, filter, ◌==◌,
}
use mathlib.Core.List.{map-append}
use crypt_keeper_extension.Prelude.Text.{decimal}
use crypt_keeper_extension.Requests.{
  PendingRequest, PendingRequestType, RequestPayload, ResolutionAction, Waiter,
}
use crypt_keeper_extension.State.{Ext, Page}
use crypt_keeper_extension.Exec.{ok, ◌>>=◌, after, result}
use crypt_keeper_extension.Browser
use crypt_keeper_extension.Browser.Closing.{close_popup_cases}
use crypt_keeper_extension.RequestManager.{new_request, finalize_request, window_closed, close_all}

-- What happens to the popup and the queue. A window that the browser closes has a positive id.
pub data Step : Ext → Ext → Type 0 where
  requests :
      {s : Ext} (type : PendingRequestType) (payload : RequestPayload)
      → Step s (after (new_request type payload) s)
  finalizes : {s : Ext} (action : ResolutionAction) → Step s (after (finalize_request action) s)
  closes : {s : Ext} (window_id : ℕ) → 0 < window_id → Step s (after (window_closed window_id) s)
  opens_page : {s : Ext} (page : Page) → Step s (after (Browser.open_popup page) s)
  closes_popup : {s : Ext} → Step s (after Browser.close_popup s)
  -- the calls of the other services, which leave the memory of the manager alone
  elsewhere :
      {s t : Ext}
      → t.pending_requests ≡ s.pending_requests
      → t.waiters ≡ s.waiters
      → t.nonce ≡ s.nonce
      → Step s t

pub data Reach (s : Ext) : Ext → Type 0 where
  here : Reach s s
  next : {t u : Ext} → Reach s t → Step t u → Reach s u

-- The id and the window of a request, and of a promise.
abbrev pub request_key : PendingRequest → String × ℕ
request_key r = (r.id, r.window_id)

abbrev pub waiter_key : Waiter → String × ℕ
waiter_key w = (w.id, w.window_id)

abbrev pub is_open : Waiter → Bool
is_open w = not w.is_settled

-- The requests of the queue and the promises that are not settled belong together, one by one and in
-- the same order.
abbrev pub IsServed : Ext → Type 0
IsServed s = map request_key s.pending_requests ≡ map waiter_key (filter is_open s.waiters)

pub map-filter :
    {A B : Type 0} (f : A → B) (keep : B → Bool) (xs : List A)
    → map f (filter (λ x. keep (f x)) xs) ≡ filter keep (map f xs)
map-filter f keep [] = refl
map-filter f keep (x ∷ xs) = ground (arith, map-filter f keep xs)

pub filter-append :
    {A : Type 0} (p : A → Bool) (xs ys : List A) → filter p (xs ++ ys) ≡ filter p xs ++ filter p ys
filter-append p [] ys = refl
filter-append p (x ∷ xs) ys = ground (arith, filter-append p xs ys)

pub filter_comm :
    {A : Type 0} (p q : A → Bool) (xs : List A) → filter p (filter q xs) ≡ filter q (filter p xs)
filter_comm p q [] = refl
filter_comm p q (x ∷ xs) = ground (arith, filter_comm p q xs)

pub filter-close_all :
    (id : ℕ) (ws : List Waiter)
    → filter is_open (close_all id ws) ≡ filter (λ w. not (eqb w.window_id id)) (filter is_open ws)
unfolding close_all
filter-close_all id [] = refl
filter-close_all id (w ∷ ws) = ground (arith, filter-close_all id ws)

-- A filter by key keeps the two lists together.
both_filtered :
    (keep : String × ℕ → Bool) (rs : List PendingRequest) (ws : List Waiter)
    → map request_key rs ≡ map waiter_key ws
    → map request_key (filter (λ r. keep (request_key r)) rs)
      ≡ map waiter_key (filter (λ w. keep (waiter_key w)) ws)
both_filtered keep rs ws h =
    map-filter request_key keep rs ∙ ap (filter keep) h ∙ sym (map-filter waiter_key keep ws)

both_extended :
    (rs : List PendingRequest) (ws : List Waiter) (r : PendingRequest) (w : Waiter)
    → map request_key rs ≡ map waiter_key (filter is_open ws)
    → request_key r ≡ waiter_key w
    → w.is_settled ≡ false
    → map request_key (rs ++ r ∷ []) ≡ map waiter_key (filter is_open (ws ++ w ∷ []))
both_extended rs ws r w h e open_ =
    rw (map-append, filter-append is_open ws (w ∷ []), open_, map-append, h, e) refl

abbrev queued : PendingRequestType → RequestPayload → ℕ → Ext → PendingRequest
queued type payload window s = record {
  id = decimal s.nonce;
  window_id = window;
  type = type;
  payload = payload;
}

abbrev waiter : ℕ → Ext → Waiter
waiter window s = record { id = decimal s.nonce; window_id = window; is_settled = false }

-- What a new request adds to the two lists.
pub new_request_memory :
    (type : PendingRequestType) (payload : RequestPayload) (s : Ext)
    → (window : ℕ) × ((after (new_request type payload) s).pending_requests
        ≡ s.pending_requests ++ queued type payload window s ∷ [])
      × ((after (new_request type payload) s).waiters ≡ s.waiters ++ waiter window s ∷ [])
      × ((after (new_request type payload) s).nonce ≡ suc s.nonce)
      × (result (new_request type payload) s ≡ ok (decimal s.nonce))
unfolding new_request Browser.open_popup ◌>>=◌
new_request_memory type payload s = elim (Option-cases s.popup) [
  | inl shut ↦ rw shut (suc s.windows, refl, refl, refl, refl)
  | inr (window, cached) ↦ rw cached (window, refl, refl, refl, refl)
]

request-IsServed :
    (type : PendingRequestType) (payload : RequestPayload) (s : Ext)
    → IsServed s
    → IsServed (after (new_request type payload) s)
request-IsServed type payload s h =
    let (window, queue, promises, _, _) = new_request_memory type payload s in
    rw (queue, promises)
      (both_extended s.pending_requests s.waiters (queued type payload window s) (waiter window s) h
        refl refl)

finalize-IsServed :
    (action : ResolutionAction) (s : Ext)
    → IsServed s
    → IsServed (after (finalize_request action) s)
unfolding finalize_request ◌>>=◌
finalize-IsServed action s h =
    both_filtered (λ k. not (k.0 == action.id)) s.pending_requests (filter is_open s.waiters) h
    ∙ ap (map waiter_key) (filter_comm (λ w. not (w.id == action.id)) is_open s.waiters)

left-IsServed :
    (id : ℕ) (s : Ext)
    → IsServed s
    → map request_key (filter (λ r. not (eqb r.window_id id)) s.pending_requests)
      ≡ map waiter_key (filter is_open (close_all id s.waiters))
left-IsServed id s h =
    both_filtered (λ k. not (eqb k.1 id)) s.pending_requests (filter is_open s.waiters) h
    ∙ ap (map waiter_key) (sym (filter-close_all id s.waiters))

close-IsServed : (id : ℕ) (s : Ext) → 0 < id → IsServed s → IsServed (after (window_closed id) s)
unfolding window_closed Browser.clean_cache ◌>>=◌
close-IsServed zero s pos h = absurd (omega arith)
close-IsServed (suc n) s pos h =
    let positive : eqb (suc n) 0 ≡ false = ground arith in rw positive (left-IsServed (suc n) s h)

open_popup-IsServed :
    (page : Page) (s : Ext) → IsServed s → IsServed (after (Browser.open_popup page) s)
unfolding Browser.open_popup ◌>>=◌
open_popup-IsServed page s h = elim (Option-cases s.popup) [
  | inl shut ↦ rw shut h
  | inr (window, cached) ↦ rw cached h
]

close_popup-IsServed : (s : Ext) → IsServed s → IsServed (after Browser.close_popup s)
close_popup-IsServed s h = elim (close_popup_cases s) [
  | inl (queue, promises) ↦ rw (queue, promises) h
  | inr (n, (queue, promises)) ↦ rw (queue, promises) (left-IsServed (suc n) s h)
]

Step-IsServed : {s t : Ext} → Step s t → IsServed s → IsServed t
Step-IsServed (requests {s} type payload) h = request-IsServed type payload s h
Step-IsServed (finalizes {s} action) h = finalize-IsServed action s h
Step-IsServed (closes {s} id pos) h = close-IsServed id s pos h
Step-IsServed (opens_page {s} page) h = open_popup-IsServed page s h
Step-IsServed (closes_popup {s}) h = close_popup-IsServed s h
Step-IsServed (elsewhere queue promises count) h = rw (queue, promises) h

-- In whatever order such steps follow, where nothing runs within the making of a request, the queue
-- and the promises that are not settled belong together, one by one and in the same order.
pub Reach-IsServed : {s t : Ext} → Reach s t → IsServed s → IsServed t
Reach-IsServed here h = h
Reach-IsServed (next r st) h = Step-IsServed st (Reach-IsServed r h)
