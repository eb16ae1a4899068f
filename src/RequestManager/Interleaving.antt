-- ===== src/RequestManager/Interleaving.antt =====
-- `newRequest` is cut where it waits: it opens the popup, puts its request into the queue, and then
-- listens. Whatever happens in between, each request of the queue is heard.
use crypt_keeper_extension.Prelude.{
  ℕ, zero, suc, ◌<◌, String, Bool, false, not, ◌≡◌, refl, ap, sym, subst, ◌∙◌, List, [], ◌∷◌, ◌++◌,
  map, arith, eqb, ◌⊎◌, inl, inr, filter, ◌==◌, All, All-append, Option-cases,
}
use mathlib.Core.List.{map-append}
use crypt_keeper_extension.Prelude.Text.{decimal}
use crypt_keeper_extension.Requests.{
  PendingRequest, PendingRequestType, RequestPayload, ResolutionAction, Waiter,
}
use crypt_keeper_extension.State.{Ext, Page}
use crypt_keeper_extension.Exec.{◌>>=◌, after, modify}
use crypt_keeper_extension.Browser
use crypt_keeper_extension.Browser.Closing.{close_popup_cases}
use crypt_keeper_extension.RequestManager.{
  add_to_queue, register, finalize_request, window_closed, close_all,
}
use crypt_keeper_extension.RequestManager.Keys.{
  IsIn, IsIn-append_l, IsIn-append_last, IsIn-without, IsIn-filter, All-weaken, All-kept,
}
use crypt_keeper_extension.RequestManager.Queue.{
  request_key, waiter_key, is_open, map-filter, filter-append, filter_comm, filter-close_all,
}

-- What happens to the popup and the queue, and the ids and windows of the requests whose
-- `newRequest` does not listen yet.
pub data Move : Ext → List (String × ℕ) → Ext → List (String × ℕ) → Type 0 where
  queues :
      {s : Ext} {ks : List (String × ℕ)} (type : PendingRequestType) (window_id : ℕ)
      (payload : RequestPayload)
      → Move s ks
          (after (add_to_queue type window_id payload) s)
          ((decimal s.nonce, window_id) ∷ ks)
  listens :
      {s : Ext} {ks ls : List (String × ℕ)} (before rest : List (String × ℕ)) (k : String × ℕ)
      → ks ≡ before ++ k ∷ rest
      → ls ≡ before ++ rest
      → Move s ks (after (register k.0 k.1) s) ls
  finalizes :
      {s : Ext} {ks : List (String × ℕ)} (action : ResolutionAction)
      → Move s ks (after (finalize_request action) s) ks
  closes :
      {s : Ext} {ks : List (String × ℕ)} (window_id : ℕ)
      → 0 < window_id
      → Move s ks (after (window_closed window_id) s) ks
  opens_page :
      {s : Ext} {ks : List (String × ℕ)} (page : Page)
      → Move s ks (after (Browser.open_popup page) s) ks
  closes_popup : {s : Ext} {ks : List (String × ℕ)} → Move s ks (after Browser.close_popup s) ks

pub data Moves (s : Ext) (ks : List (String × ℕ)) : Ext → List (String × ℕ) → Type 0 where
  here : Moves s ks s ks
  next :
      {t u : Ext} {ls js : List (String × ℕ)} → Moves s ks t ls → Move t ls u js → Moves s ks u js

-- The ids and windows of the promises that are not settled.
abbrev pub listening : List Waiter → List (String × ℕ)
listening ws = map waiter_key (filter is_open ws)

-- Each request of the queue has a promise that is not settled, or is of a `newRequest` that does not
-- listen yet.
abbrev pub IsHeard : Ext → List (String × ℕ) → Type 0
IsHeard s ks =
    All (λ r. IsIn (request_key r) ks ⊎ IsIn (request_key r) (listening s.waiters))
      s.pending_requests

-- A filter of the queue and of the promises by their ids and windows.
filtered-IsHeard :
    (keep : String × ℕ → Bool) (ks : List (String × ℕ)) (rs : List PendingRequest)
    (xs : List (String × ℕ))
    → All (λ r. IsIn (request_key r) ks ⊎ IsIn (request_key r) xs) rs
    → All
        (λ r. IsIn (request_key r) ks ⊎ IsIn (request_key r) (filter keep xs))
        (filter (λ r. keep (request_key r)) rs)
filtered-IsHeard keep ks rs xs h =
    All-kept (λ r. keep (request_key r))
      (λ r kept heard. elim heard [
        | inl begun ↦ inl begun
        | inr there ↦ inr (IsIn-filter keep (request_key r) xs kept there)
      ])
      rs h

abbrev not_of : ℕ → String × ℕ → Bool
not_of id k = not (eqb k.1 id)

left_waiters :
    (id : ℕ) (ws : List Waiter) → filter (not_of id) (listening ws) ≡ listening (close_all id ws)
left_waiters id ws =
    sym (map-filter waiter_key (not_of id) (filter is_open ws))
    ∙ ap (map waiter_key) (sym (filter-close_all id ws))

left-IsHeard :
    (id : ℕ) (s : Ext) (ks : List (String × ℕ))
    → IsHeard s ks
    → All
        (λ r. IsIn (request_key r) ks ⊎ IsIn (request_key r) (listening (close_all id s.waiters)))
        (filter (λ r. not (eqb r.window_id id)) s.pending_requests)
left-IsHeard id s ks h =
    subst
      (λ (xs : List (String × ℕ)).
        All (λ r. IsIn (request_key r) ks ⊎ IsIn (request_key r) xs)
          (filter (λ r. not (eqb r.window_id id)) s.pending_requests))
      (left_waiters id s.waiters)
      (filtered-IsHeard (not_of id) ks s.pending_requests (listening s.waiters) h)

queues-IsHeard :
    (type : PendingRequestType) (window_id : ℕ) (payload : RequestPayload) (s : Ext)
    (ks : List (String × ℕ))
    → IsHeard s ks
    → IsHeard (after (add_to_queue type window_id payload) s) ((decimal s.nonce, window_id) ∷ ks)
unfolding add_to_queue ◌>>=◌
queues-IsHeard type window_id payload s ks h =
    All-append _ s.pending_requests _
      (All-weaken (λ r heard. elim heard [ inl begun ↦ inl (inr begun) | inr there ↦ inr there ])
        s.pending_requests h)
      (inl (inl refl), tt)

listens_lem :
    (k : String × ℕ) (s : Ext)
    → listening (after (register k.0 k.1) s).waiters ≡ listening s.waiters ++ k ∷ []
unfolding register modify
listens_lem k s = rw (filter-append is_open s.waiters, map-append) refl

listens-IsHeard :
    (before rest : List (String × ℕ)) (k : String × ℕ) (s : Ext)
    → IsHeard s (before ++ k ∷ rest)
    → IsHeard (after (register k.0 k.1) s) (before ++ rest)
unfolding register modify
listens-IsHeard before rest k s h =
    All-weaken
      (λ r heard. elim heard [
        | inl begun ↦ elim (IsIn-without (request_key r) k before rest begun) [
          | inl same ↦ inr (
              subst (λ (xs : List (String × ℕ)). IsIn (request_key r) xs) (sym (listens_lem k s))
                (subst (λ (j : String × ℕ). IsIn (request_key r) (listening s.waiters ++ j ∷ []))
                  same (IsIn-append_last (request_key r) (listening s.waiters))))
          | inr other ↦ inl other
        ]
        | inr there ↦ inr (
            subst (λ (xs : List (String × ℕ)). IsIn (request_key r) xs) (sym (listens_lem k s))
              (IsIn-append_l (request_key r) (listening s.waiters) (k ∷ []) there))
      ])
      s.pending_requests h

finalizes_lem :
    (action : ResolutionAction) (ws : List Waiter)
    → filter (λ k. not (k.0 == action.id)) (listening ws)
      ≡ listening (filter (λ w. not (w.id == action.id)) ws)
finalizes_lem action ws =
    sym (map-filter waiter_key (λ k. not (k.0 == action.id)) (filter is_open ws))
    ∙ ap (map waiter_key) (sym (filter_comm is_open (λ w. not (w.id == action.id)) ws))

finalizes-IsHeard :
    (action : ResolutionAction) (s : Ext) (ks : List (String × ℕ))
    → IsHeard s ks
    → IsHeard (after (finalize_request action) s) ks
unfolding finalize_request ◌>>=◌
finalizes-IsHeard action s ks h =
    subst
      (λ (xs : List (String × ℕ)).
        All (λ r. IsIn (request_key r) ks ⊎ IsIn (request_key r) xs)
          (filter (λ r. not (r.id == action.id)) s.pending_requests))
      (finalizes_lem action s.waiters)
      (filtered-IsHeard (λ k. not (k.0 == action.id)) ks s.pending_requests (listening s.waiters) h)

closes-IsHeard :
    (id : ℕ) (s : Ext) (ks : List (String × ℕ))
    → 0 < id
    → IsHeard s ks
    → IsHeard (after (window_closed id) s) ks
unfolding window_closed Browser.clean_cache ◌>>=◌
closes-IsHeard zero s ks pos h = absurd (omega arith)
closes-IsHeard (suc n) s ks pos h =
    let positive : eqb (suc n) 0 ≡ false = ground arith in rw positive (left-IsHeard (suc n) s ks h)

opens_page-IsHeard :
    (page : Page) (s : Ext) (ks : List (String × ℕ))
    → IsHeard s ks
    → IsHeard (after (Browser.open_popup page) s) ks
unfolding Browser.open_popup ◌>>=◌
opens_page-IsHeard page s ks h = elim (Option-cases s.popup) [
  | inl shut ↦ rw shut h
  | inr (window, cached) ↦ rw cached h
]

closes_popup-IsHeard :
    (s : Ext) (ks : List (String × ℕ)) → IsHeard s ks → IsHeard (after Browser.close_popup s) ks
closes_popup-IsHeard s ks h = elim (close_popup_cases s) [
  | inl (queue, promises) ↦ rw (queue, promises) h
  | inr (n, (queue, promises)) ↦ rw (queue, promises) (left-IsHeard (suc n) s ks h)
]

Move-IsHeard :
    {s t : Ext} {ks ls : List (String × ℕ)} → Move s ks t ls → IsHeard s ks → IsHeard t ls
Move-IsHeard (queues {s} {ks} type window_id payload) h =
    queues-IsHeard type window_id payload s ks h
Move-IsHeard (listens {s} {ks} {ls} before rest k from to) h =
    subst (IsHeard (after (register k.0 k.1) s)) (sym to)
      (listens-IsHeard before rest k s (subst (IsHeard s) from h))
Move-IsHeard (finalizes {s} {ks} action) h = finalizes-IsHeard action s ks h
Move-IsHeard (closes {s} {ks} id pos) h = closes-IsHeard id s ks pos h
Move-IsHeard (opens_page {s} {ks} page) h = opens_page-IsHeard page s ks h
Move-IsHeard (closes_popup {s} {ks}) h = closes_popup-IsHeard s ks h

-- In whatever order popups are opened and closed, answers are given and windows closed, and requests
-- made, also between the putting of a request into the queue and the listening of its newRequest: each
-- request of the queue has a promise of its id and its window that is not settled, or its newRequest
-- does not listen yet, if that held before.
pub Moves-IsHeard :
    {s : Ext} {ks : List (String × ℕ)} {t : Ext} {ls : List (String × ℕ)}
    → Moves s ks t ls
    → IsHeard s ks
    → IsHeard t ls
Moves-IsHeard here h = h
Moves-IsHeard (next r m) h = Move-IsHeard m (Moves-IsHeard r h)
