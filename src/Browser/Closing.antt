-- ===== src/Browser/Closing.antt =====
-- Closing the popup changes the memory of the request manager and what is sent, and nothing else.
use crypt_keeper_extension.Prelude.{
  ℕ, zero, suc, ◌≡◌, refl, sym, ap, ◌∙◌, Bool, true, false, arith, Option, some, List, eqb, inl,
  inr, ◌⊎◌, not, filter, Option-cases,
}
use crypt_keeper_extension.Requests.{PendingRequest, Waiter}
use crypt_keeper_extension.State.{Ext, Effect}
use crypt_keeper_extension.Exec.{Result, ok, ◌>>=◌, after}
use crypt_keeper_extension.Browser.{close_popup, close_all, clean_cache}

-- The state with the four fields that closing the popup may change.
abbrev pub moved : Option ℕ → List PendingRequest → List Waiter → List Effect → Ext → Ext
moved popup requests waiters effects s = record s {
  popup = popup;
  pending_requests = requests;
  waiters = waiters;
  effects = effects;
}

pub close_popup_moves :
    (s : Ext)
    → (popup : Option ℕ) × (requests : List PendingRequest) × (waiters : List Waiter)
      × (effects : List Effect) × (close_popup s
          ≡ (ok true, moved popup requests waiters effects s))
unfolding close_popup clean_cache ◌>>=◌
close_popup_moves s = elim (Option-cases s.popup) [
  | inl shut ↦ rw shut (_, _, _, _, refl)
  | inr (zero, cached) ↦ rw cached (_, _, _, _, refl)
  | inr (suc n, cached) ↦ rw cached (_, _, _, _, refl)
]

pub close_popup_ok : (s : Ext) → close_popup s ≡ (ok true, after close_popup s)
close_popup_ok s =
    let (popup, requests, waiters, effects, run) = close_popup_moves s in
    run ∙ ap (λ (r : Result Bool × Ext). (ok true, r.1)) (sym run)

-- What does not read the four fields is as before.
pub close_popup_keeps :
    {A : Type 0} (f : Ext → A)
    → ((popup : Option ℕ) (requests : List PendingRequest) (waiters : List Waiter)
          (effects : List Effect) (s : Ext)
        → f (moved popup requests waiters effects s) ≡ f s)
    → (s : Ext) → f (after close_popup s) ≡ f s
close_popup_keeps f kept s =
    let (popup, requests, waiters, effects, run) = close_popup_moves s in
    ap (λ (r : Result Bool × Ext). f r.1) run ∙ kept popup requests waiters effects s

-- The queue and the promises stay, or lose those of the window that was open.
abbrev pub IsClosed : ℕ → Ext → Ext → Type 0
IsClosed id s t =
    (t.pending_requests ≡ filter (λ r. not (eqb r.window_id id)) s.pending_requests)
    × (t.waiters ≡ close_all id s.waiters)

pub close_popup_window :
    (n : ℕ) (s : Ext) → s.popup ≡ some (suc n) → IsClosed (suc n) s (after close_popup s)
unfolding close_popup clean_cache ◌>>=◌
close_popup_window n s cached =
    let positive : eqb (suc n) 0 ≡ false = ground arith in rw cached (rw positive (refl, refl))

pub close_popup_cases :
    (s : Ext)
    → ((after close_popup s).pending_requests ≡ s.pending_requests)
        × ((after close_popup s).waiters ≡ s.waiters)
      ⊎ ((n : ℕ) × IsClosed (suc n) s (after close_popup s))
unfolding close_popup ◌>>=◌
close_popup_cases s = elim (Option-cases s.popup) [
  | inl shut ↦ inl (rw shut (refl, refl))
  | inr (zero, cached) ↦ inl (rw cached (refl, refl))
  | inr (suc n, cached) ↦ inr (n, close_popup_window n s cached)
]
