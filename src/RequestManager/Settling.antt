-- ===== src/RequestManager/Settling.antt =====
-- An answer reaches the one who made the request, and nobody else.
use crypt_keeper_extension.Prelude.{
  ℕ, suc, ◌<◌, String, Bool, false, not, ◌≡◌, refl, Option, List, [], ◌∷◌, ◌++◌, arith, eqb, filter,
  All, All-append, All-filter, ◌==◌, eq_iff, Option-cases, Bool-cases, inl, inr,
}
use crypt_keeper_extension.Prelude.Text.{decimal}
use crypt_keeper_extension.Prelude.Decimal.{decimal-injective}
use crypt_keeper_extension.Requests.{
  PendingRequestType, RequestPayload, ResolutionAction, ResolutionStatus, Waiter,
}
use crypt_keeper_extension.State.{Ext, installed, settled, set_pending_requests}
use crypt_keeper_extension.Exec.{ok, ◌>>=◌, after, result}
use crypt_keeper_extension.Browser
use crypt_keeper_extension.Browser.Closing.{close_popup_cases, close_popup_keeps}
use crypt_keeper_extension.RequestManager.{
  new_request, finalize_request, window_closed, close_all, outcome_of,
}
use crypt_keeper_extension.RequestManager.Queue.{
  Step, requests, finalizes, closes, opens_page, closes_popup, elsewhere, Reach, here, next,
  new_request_memory,
}

-- An id that was given out before the n-th request.
abbrev pub IsIssued : ℕ → String → Type 0
IsIssued n id = (k : ℕ) × (id ≡ decimal k) × (k < n)

abbrev pub IsFresh : Ext → Type 0
IsFresh s =
    All (λ r. IsIssued s.nonce r.id) s.pending_requests × All (λ w. IsIssued s.nonce w.id) s.waiters

All-weaken :
    {A : Type 0} (id : A → String) (n : ℕ) (xs : List A)
    → All (λ x. IsIssued n (id x)) xs
    → All (λ x. IsIssued (suc n) (id x)) xs
All-weaken id n [] h = tt
All-weaken id n (x ∷ xs) ((k, e, lt), rest) = ((k, e, omega arith), All-weaken id n xs rest)

All-close_all :
    (n id : ℕ) (ws : List Waiter)
    → All (λ w. IsIssued n w.id) ws
    → All (λ w. IsIssued n w.id) (close_all id ws)
unfolding close_all
All-close_all n id [] h = tt
All-close_all n id (w ∷ ws) h = elim (Bool-cases (eqb w.window_id id)) [
  | inl e ↦ rw e (h.0, All-close_all n id ws h.1)
  | inr e ↦ rw e (h.0, All-close_all n id ws h.1)
]

request-IsFresh :
    (type : PendingRequestType) (payload : RequestPayload) (s : Ext)
    → IsFresh s
    → IsFresh (after (new_request type payload) s)
request-IsFresh type payload s (queue, promises) =
    let (window, q, p, n, _) = new_request_memory type payload s in
    let issued : IsIssued (suc s.nonce) (decimal s.nonce) = (s.nonce, refl, omega arith) in
    rw (q, p, n)
      (
        All-append _ s.pending_requests _ (All-weaken (λ r. r.id) s.nonce s.pending_requests queue)
            (issued, tt),
        All-append _ s.waiters _ (All-weaken (λ w. w.id) s.nonce s.waiters promises) (issued, tt),
      )

finalize-IsFresh :
    (action : ResolutionAction) (s : Ext) → IsFresh s → IsFresh (after (finalize_request action) s)
unfolding finalize_request ◌>>=◌
finalize-IsFresh action s (queue, promises) =
    (All-filter _ _ s.pending_requests queue, All-filter _ _ s.waiters promises)

close-IsFresh : (id : ℕ) (s : Ext) → IsFresh s → IsFresh (after (window_closed id) s)
unfolding window_closed Browser.clean_cache ◌>>=◌
close-IsFresh id s (queue, promises) = elim (Bool-cases (eqb id 0)) [
  | inl e ↦ rw e (queue, All-close_all s.nonce id s.waiters promises)
  | inr e ↦
      rw e (All-filter _ _ s.pending_requests queue, All-close_all s.nonce id s.waiters promises)
]

close_popup_nonce : (s : Ext) → (after Browser.close_popup s).nonce ≡ s.nonce
close_popup_nonce s = close_popup_keeps (λ t. t.nonce) (λ p q w e t. refl) s

close_popup-IsFresh : (s : Ext) → IsFresh s → IsFresh (after Browser.close_popup s)
close_popup-IsFresh s (queue, promises) = elim (close_popup_cases s) [
  | inl (q, p) ↦ rw (q, p, close_popup_nonce s) (queue, promises)
  | inr (n, (q, p)) ↦
      rw (q, p, close_popup_nonce s)
        (All-filter _ _ s.pending_requests queue, All-close_all s.nonce (suc n) s.waiters promises)
]

Step-IsFresh : {s t : Ext} → Step s t → IsFresh s → IsFresh t
unfolding Browser.open_popup ◌>>=◌
Step-IsFresh (requests {s} type payload) h = request-IsFresh type payload s h
Step-IsFresh (finalizes {s} action) h = finalize-IsFresh action s h
Step-IsFresh (closes {s} id pos) h = close-IsFresh id s h
Step-IsFresh (opens_page {s} page) h = elim (Option-cases s.popup) [
  | inl shut ↦ rw shut h
  | inr (window, cached) ↦ rw cached h
]
Step-IsFresh (closes_popup {s}) h = close_popup-IsFresh s h
Step-IsFresh (elsewhere queue promises count) h = rw (queue, promises, count) h

pub Reach-IsFresh : {s t : Ext} → Reach s t → IsFresh s → IsFresh t
Reach-IsFresh here h = h
Reach-IsFresh (next r st) h = Step-IsFresh st (Reach-IsFresh r h)

pub not_issued : (n : ℕ) (id : String) → IsIssued n id → (id == decimal n) ≡ false
not_issued n id (k, e, lt) = ground (arith, eq_iff id (decimal n), decimal-injective k n)

module _ {A : Type 0} (id : A → String) (n : ℕ) where
  kept_before :
      (xs : List A) (x : A)
      → All (λ y. IsIssued n (id y)) xs
      → id x ≡ decimal n
      → (filter (λ y. not (id y == decimal n)) (xs ++ x ∷ []) ≡ xs)
        × (filter (λ y. id y == decimal n) (xs ++ x ∷ []) ≡ x ∷ [])
  kept_before [] x h e = ground (arith, eq_iff (id x) (decimal n))
  kept_before (y ∷ ys) x (issued, rest) e =
      ground (arith, not_issued n (id y) issued, kept_before ys x rest e)

-- In a state that is reached from the installation: the answer to a new request, given by its id,
-- settles the promise of that request with the outcome for the answer's status, and no other; the
-- queue and the promises are then as before the request.
pub finalize_request-new_request :
    (type : PendingRequestType) (payload : RequestPayload) (status : ResolutionStatus)
    (answer : Option Bool) (s : Ext)
    → Reach installed s
    → let action : ResolutionAction = record {
      id = decimal s.nonce;
      status = status;
      answer = answer;
    } in
      let t = after (new_request type payload) s in
      let u = after (finalize_request action) t in
      (result (new_request type payload) s ≡ ok (decimal s.nonce))
      × (u.pending_requests ≡ s.pending_requests)
      × (u.waiters ≡ s.waiters)
      × (u.effects
          ≡ set_pending_requests s.pending_requests
            ∷ settled (decimal s.nonce) (outcome_of action status)
            ∷ t.effects)
unfolding finalize_request ◌>>=◌
finalize_request-new_request type payload status answer s reached =
    let (window, q, p, _, made) = new_request_memory type payload s in
    let (queue, promises) = Reach-IsFresh reached (tt, tt) in
    let (q1, _) = kept_before (λ r. r.id) s.nonce s.pending_requests _ queue refl in
    let (p1, p2) = kept_before (λ w. w.id) s.nonce s.waiters _ promises refl in
    (made, rw q q1, rw p p1, rw (q, p, q1, p2) refl)
