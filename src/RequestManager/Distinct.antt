-- ===== src/RequestManager/Distinct.antt =====
-- No two requests of the queue have the same id, so that an answer is to one of them.
use crypt_keeper_extension.Prelude.{
  ℕ, String, Bool, false, not, ◌≡◌, refl, List, [], ◌∷◌, ◌++◌, arith, eqb, filter, All, All-append,
  All-filter, ◌==◌, eq_iff, Option-cases, Bool-cases, inl, inr,
}
use crypt_keeper_extension.Prelude.Text.{decimal}
use crypt_keeper_extension.Requests.{PendingRequest, PendingRequestType, RequestPayload}
use crypt_keeper_extension.State.{Ext, installed}
use crypt_keeper_extension.Exec.{◌>>=◌, after}
use crypt_keeper_extension.Browser
use crypt_keeper_extension.Browser.Closing.{close_popup_cases}
use crypt_keeper_extension.RequestManager.{new_request, finalize_request, window_closed}
use crypt_keeper_extension.RequestManager.Queue.{
  Step, requests, finalizes, closes, opens_page, closes_popup, elsewhere, Reach, here, next,
  new_request_memory,
}
use crypt_keeper_extension.RequestManager.Settling.{IsIssued, IsFresh, Reach-IsFresh, not_issued}

pub AreDistinct : List PendingRequest → Type 0
AreDistinct [] = Unit
AreDistinct (r ∷ rs) = All (λ q. (q.id == r.id) ≡ false) rs × AreDistinct rs

filter-AreDistinct :
    (p : PendingRequest → Bool) (rs : List PendingRequest)
    → AreDistinct rs
    → AreDistinct (filter p rs)
unfolding AreDistinct
filter-AreDistinct p [] h = tt
filter-AreDistinct p (r ∷ rs) (apart, rest) = elim (Bool-cases (p r)) [
  | inl kept ↦ rw kept (All-filter _ p rs apart, filter-AreDistinct p rs rest)
  | inr dropped ↦ rw dropped (filter-AreDistinct p rs rest)
]

append-AreDistinct :
    (n : ℕ) (rs : List PendingRequest) (r : PendingRequest)
    → r.id ≡ decimal n
    → All (λ q. IsIssued n q.id) rs
    → AreDistinct rs
    → AreDistinct (rs ++ r ∷ [])
unfolding AreDistinct
append-AreDistinct n [] r e issued h = (tt, tt)
append-AreDistinct n (q ∷ qs) r e (before, issued) (apart, rest) = (
  All-append _ qs _ apart
      (ground (arith, e, not_issued n q.id before, eq_iff r.id q.id, eq_iff q.id (decimal n)), tt),
  append-AreDistinct n qs r e issued rest,
)

request-AreDistinct :
    (type : PendingRequestType) (payload : RequestPayload) (s : Ext)
    → IsFresh s
    → AreDistinct s.pending_requests
    → AreDistinct (after (new_request type payload) s).pending_requests
request-AreDistinct type payload s fresh h =
    let (window, queue, _, _, _) = new_request_memory type payload s in
    rw queue (append-AreDistinct s.nonce s.pending_requests _ refl fresh.0 h)

close-AreDistinct :
    (id : ℕ) (s : Ext)
    → AreDistinct s.pending_requests
    → AreDistinct (after (window_closed id) s).pending_requests
unfolding window_closed Browser.clean_cache ◌>>=◌
close-AreDistinct id s h = elim (Bool-cases (eqb id 0)) [
  | inl e ↦ rw e h
  | inr e ↦ rw e (filter-AreDistinct _ s.pending_requests h)
]

Step-AreDistinct :
    {s t : Ext}
    → Step s t
    → IsFresh s
    → AreDistinct s.pending_requests
    → AreDistinct t.pending_requests
unfolding finalize_request Browser.open_popup ◌>>=◌
Step-AreDistinct (requests {s} type payload) fresh h = request-AreDistinct type payload s fresh h
Step-AreDistinct (finalizes {s} action) fresh h = filter-AreDistinct _ s.pending_requests h
Step-AreDistinct (closes {s} id pos) fresh h = close-AreDistinct id s h
Step-AreDistinct (opens_page {s} page) fresh h = elim (Option-cases s.popup) [
  | inl shut ↦ rw shut h
  | inr (window, cached) ↦ rw cached h
]
Step-AreDistinct (closes_popup {s}) fresh h = elim (close_popup_cases s) [
  | inl (queue, _) ↦ rw queue h
  | inr (n, (queue, _)) ↦ rw queue (filter-AreDistinct _ s.pending_requests h)
]
Step-AreDistinct (elsewhere queue promises count) fresh h = rw queue h

Reach-AreDistinct :
    {s t : Ext}
    → Reach s t
    → IsFresh s
    → AreDistinct s.pending_requests
    → AreDistinct t.pending_requests
Reach-AreDistinct here fresh h = h
Reach-AreDistinct (next r st) fresh h =
    Step-AreDistinct st (Reach-IsFresh r fresh) (Reach-AreDistinct r fresh h)

pub installed-AreDistinct : {t : Ext} → Reach installed t → AreDistinct t.pending_requests
unfolding AreDistinct
installed-AreDistinct reached = Reach-AreDistinct reached (tt, tt) tt

others_left :
    (id : String) (rs : List PendingRequest)
    → All (λ q. (q.id == id) ≡ false) rs
    → filter (λ q. not (q.id == id)) rs ≡ rs
others_left id [] h = refl
others_left id (r ∷ rs) (apart, rest) = ground (arith, apart, others_left id rs rest)

-- Without the first request the others are left.
pub first_left :
    (r : PendingRequest) (rs : List PendingRequest)
    → AreDistinct (r ∷ rs)
    → filter (λ q. not (q.id == r.id)) (r ∷ rs) ≡ rs
unfolding AreDistinct
first_left r rs (apart, _) = ground (arith, eq_iff r.id r.id, others_left r.id rs apart)
