-- ===== src/Modals/Answers.antt =====
-- What the user's answers do in the background page.
use crypt_keeper_extension.Prelude.{
  ℕ, suc, eqb, some, String, filter, not, ◌==◌, Bool, true, ◌≡◌, refl, ap, ◌∙◌, sym, subst, Option,
  none, List, ◌∷◌, filter, map, arith,
}
use crypt_keeper_extension.Requests.{PendingRequest, ResolutionAction, accept, reject}
use crypt_keeper_extension.State.{Ext, installed}
use crypt_keeper_extension.Exec.{Result, pure, ok, ◌>>=◌, ◌>>◌, >>=_of_ok, after, result}
use crypt_keeper_extension.Browser
use crypt_keeper_extension.Browser.Closing.{close_popup_ok, close_popup_window}
use crypt_keeper_extension.RequestManager
use crypt_keeper_extension.RequestManager.Queue.{
  Reach, next, finalizes, closes_popup, IsServed, Reach-IsServed, request_key, waiter_key, is_open,
}
use crypt_keeper_extension.RequestManager.Distinct.{installed-AreDistinct, first_left, AreDistinct}
use crypt_keeper_extension.Store.{Store, dispatch}
use crypt_keeper_extension.Store.Posting.{post_of_ok, catch_of_ok}
use crypt_keeper_extension.Store.Thunks.{
  Thunk, post, finalize_request, fetch_pending_requests, close_popup,
}
use crypt_keeper_extension.Modals.{finalize, on_reject, on_accept, reject_first, accept_first}

-- The requests that are not of a window.
abbrev pub elsewhere_than : ℕ → List PendingRequest → List PendingRequest
elsewhere_than window = filter (λ q. not (eqb q.window_id window))

-- The outcome of an answer that leaves these requests, and closes this window.
abbrev pub IsAnswered :
    List PendingRequest → ℕ → Store → Result (Option String × Store) × Ext → Type 0
IsAnswered rs window store (r, s) =
    (r ≡ ok (none, record store { pending_requests = rs }))
    × (s.pending_requests ≡ elsewhere_than window rs)
    × (map request_key (elsewhere_than window rs) ≡ map waiter_key (filter is_open s.waiters))

answered_lem :
    (action : ResolutionAction) (s : Ext)
    → result (RequestManager.finalize_request action) s ≡ ok true
unfolding RequestManager.finalize_request ◌>>=◌
answered_lem action s = refl

fetched_lem : (s : Ext) → post RequestManager.get_requests s ≡ (ok s.pending_requests, s)
unfolding RequestManager.get_requests post ◌>>=◌
fetched_lem s = refl

pub closed_lem : (s : Ext) → result Browser.close_popup s ≡ ok true
closed_lem s = ap (λ (r : Result Bool × Ext). r.0) (close_popup_ok s)

abbrev shown : Thunk (Option String)
shown store = do fetched ← fetch_pending_requests store; close_popup; pure (none, fetched.1)

-- The modal shows the requests that are left.
shown_lem :
    (store : Store) (t : Ext)
    → shown store t ≡ (
      ok (none, record store { pending_requests = t.pending_requests }),
      after Browser.close_popup t,
    )
unfolding fetch_pending_requests close_popup dispatch ◌>>=◌
shown_lem store t =
    ground (arith, fetched_lem t, post_of_ok Browser.close_popup t true (closed_lem t))

-- The state after an answer: the queue and the promises without the request.
pub finalize_lem :
    (action : ResolutionAction) (store : Store) (s : Ext)
    → let t = after (RequestManager.finalize_request action) s in
      finalize action store s ≡ (
        ok (none, record store { pending_requests = t.pending_requests }),
        after Browser.close_popup t,
      )
unfolding finalize finalize_request
finalize_lem action store s =
    let t = after (RequestManager.finalize_request action) s in
    let answered =
      post_of_ok (RequestManager.finalize_request action) s true (answered_lem action s) in
    catch_of_ok _ _ s _ _ (
      >>=_of_ok (finalize_request action) _ s true (ap (λ (r : Result Bool × Ext). r.0) answered)
      ∙ ap (shown store) (ap (λ (r : Result Bool × Ext). r.1) answered)
      ∙ shown_lem store t)

queue_left :
    (action : ResolutionAction) (r : PendingRequest) (rs : List PendingRequest) (s : Ext)
    → Reach installed s
    → s.pending_requests ≡ r ∷ rs
    → action.id ≡ r.id
    → (after (RequestManager.finalize_request action) s).pending_requests ≡ rs
unfolding RequestManager.finalize_request ◌>>=◌
queue_left action r rs s reached waiting same =
    let apart : AreDistinct (r ∷ rs) = subst AreDistinct waiting (installed-AreDistinct reached) in
    ap (filter (λ q. not (q.id == action.id))) waiting
    ∙ ap (λ (id : String). filter (λ q. not (q.id == id)) (r ∷ rs)) same
    ∙ first_left r rs apart

finalize_popup :
    (action : ResolutionAction) (s : Ext)
    → (after (RequestManager.finalize_request action) s).popup ≡ s.popup
unfolding RequestManager.finalize_request ◌>>=◌
finalize_popup action s = refl

-- The answer to the first of the requests that wait.
first-IsAnswered :
    (action : ResolutionAction) (r : PendingRequest) (rs : List PendingRequest) (n : ℕ)
    (store : Store) (s : Ext)
    → Reach installed s
    → s.pending_requests ≡ r ∷ rs
    → s.popup ≡ some (suc n)
    → action.id ≡ r.id
    → IsAnswered rs (suc n) store (finalize action store s)
first-IsAnswered action r rs n store s reached waiting shown same =
    let t = after (RequestManager.finalize_request action) s in
    let queue = queue_left action r rs s reached waiting same in
    let (closed, _) = close_popup_window n t (finalize_popup action s ∙ shown) in
    let left = closed ∙ ap (elsewhere_than (suc n)) queue in
    let served : IsServed (after Browser.close_popup t) =
      Reach-IsServed (next (next reached (finalizes action)) closes_popup) refl in
    rw (finalize_lem action store s) (
      ap (λ (q : List PendingRequest). ok (none, record store { pending_requests = q })) queue,
      left,
      sym (ap (map request_key) left) ∙ served,
    )

-- In a state that is reached from the installation, where the modal is shown in the window of the
-- popup and shows the queue: whether the user accepts or rejects the request that is shown first, no
-- error is shown, and the store has the other requests in their order. Then the popup is closed, and
-- every other request of its window leaves the queue unanswered: what is left are the requests of
-- other windows, in their order, and the promises that are not settled are, in order, those of the
-- requests that are left.
pub first_leaves :
    (r : PendingRequest) (rs : List PendingRequest) (data_given : Option Bool) (n : ℕ)
    (store : Store) (s : Ext)
    → Reach installed s
    → s.pending_requests ≡ r ∷ rs
    → s.popup ≡ some (suc n)
    → store.pending_requests ≡ s.pending_requests
    → IsAnswered rs (suc n) store (on_accept data_given store s)
      × IsAnswered rs (suc n) store (on_reject store s)
unfolding on_accept on_reject accept_first reject_first
first_leaves r rs data_given n store s reached waiting shown shows =
    let accepted : ResolutionAction = record { id = r.id; status = accept; answer = data_given } in
    let rejected : ResolutionAction = record { id = r.id; status = reject; answer = none } in
    subst
      (λ (queue : List PendingRequest).
        IsAnswered rs (suc n) store (accept_first data_given queue store s)
        × IsAnswered rs (suc n) store (reject_first queue store s))
      (sym (shows ∙ waiting))
      (
        first-IsAnswered accepted r rs n store s reached waiting shown refl,
        first-IsAnswered rejected r rs n store s reached waiting shown refl,
      )
