-- ===== src/Popup/Opening.antt =====
-- Which pages the popup opens, by the state of the background page.
use crypt_keeper_extension.Prelude.{
  if◌then◌else◌, Option-cases, String, Bool, true, false, ◌≡◌, refl, ap, ◌∙◌, some, List, ◌⊎◌, ◌&&◌,
  inl, inr, arith, Bool-cases,
}
use crypt_keeper_extension.Prelude.Text.{◌⧺◌}
use crypt_keeper_extension.Requests.{PendingRequest}
use crypt_keeper_extension.Types.{LockStatus}
use crypt_keeper_extension.State.{Ext}
use crypt_keeper_extension.Env.{Env}
use crypt_keeper_extension.Exec.{M, Result, ok, err, pure, gets, ◌>>=◌, result, Result-cases}
use crypt_keeper_extension.SimpleStorage
use crypt_keeper_extension.Misc
use crypt_keeper_extension.Lock
use crypt_keeper_extension.RequestManager
use crypt_keeper_extension.Wallet
use crypt_keeper_extension.Store.{
  Store, dispatch, set_status, set_pending_requests, set_selected_account,
}
use crypt_keeper_extension.Store.Posting.{post_of_ok}
use crypt_keeper_extension.Store.Thunks.{
  Thunk, post, fetch_status, fetch_pending_requests, get_selected_account,
}
use crypt_keeper_extension.Popup.{
  View, redirect, with_params, is_common_path, has_elements, navigation, or_stop, fetch_data,
  fetch_account,
}

-- The popup shows the status and the queue of the background page.
abbrev pub Shows : Store → LockStatus → Ext → Type 0
Shows store status s =
    (store.app.is_initialized ≡ status.is_initialized)
    × (store.app.is_unlocked ≡ status.is_unlocked)
    × (store.app.is_mnemonic_generated ≡ status.is_mnemonic_generated)
    × (store.pending_requests ≡ s.pending_requests)

-- Why the popup goes to a path: the extension is not set up, or is locked, or has no mnemonic; or it is
-- ready, and a request waits, or none does and the url names a page.
abbrev pub IsDue : View → String → LockStatus → Ext → Type 0
IsDue view path status s =
    ((path ≡ "/onboarding") × (status.is_initialized ≡ false))
    ⊎ ((path ≡ "/login") × (status.is_initialized ≡ true) × (status.is_unlocked ≡ false))
    ⊎ ((path ≡ "/generate-mnemonic")
        × (status.is_initialized ≡ true)
        × (status.is_unlocked ≡ true)
        × (status.is_mnemonic_generated ≡ false))
    ⊎ ((status.is_initialized ≡ true)
        × (status.is_unlocked ≡ true)
        × (status.is_mnemonic_generated ≡ true)
        × (((path ≡ "/requests") × (has_elements s.pending_requests ≡ true))
            ⊎ ((has_elements s.pending_requests ≡ false)
                × (page : String) × (redirect view ≡ some page)
                × (path ≡ page ⧺ "?" ⧺ view.other_params))))

status_lem : (s : Ext) → (status : LockStatus) × (Lock.get_status s ≡ (ok status, s))
unfolding Lock.get_status Misc.get_initialization SimpleStorage.get pure ◌>>=◌
status_lem s = (_, refl)

queue_lem : (s : Ext) → RequestManager.get_requests s ≡ (ok s.pending_requests, s)
unfolding RequestManager.get_requests gets
queue_lem s = refl

abbrev store_or : Store → Result Store → Store
store_or store (ok next) = next
store_or store (err e) = store

-- The store after the popup has fetched.
abbrev pub fetched : Env → Store → Ext → Store
fetched env store s = store_or store (result (fetch_data env store) s)

-- A step that returns: the rest runs on its store.
or_stop_ok :
    {A : Type 0} (thunk : Thunk A) (rest : Store → M Store) (store next : Store) (a : A) (s t : Ext)
    → thunk store s ≡ (ok (a, next), t)
    → or_stop thunk rest store s ≡ rest next t
unfolding or_stop ◌>>=◌
or_stop_ok thunk rest store next a s t made = rw made refl

fetch_status_lem :
    (store : Store) (status : LockStatus) (s : Ext)
    → Lock.get_status s ≡ (ok status, s)
    → fetch_status store s ≡ (ok (status, dispatch (set_status status) store), s)
unfolding fetch_status ◌>>=◌
fetch_status_lem store status s made = ground (
  arith,
  made,
  post_of_ok Lock.get_status s status (ap (λ (r : Result LockStatus × Ext). r.0) made),
)

fetch_pending_lem :
    (store : Store) (s : Ext)
    → fetch_pending_requests store s
      ≡ (ok (s.pending_requests, dispatch (set_pending_requests s.pending_requests) store), s)
unfolding fetch_pending_requests ◌>>=◌
fetch_pending_lem store s = ground (
  arith,
  queue_lem s,
  post_of_ok RequestManager.get_requests s s.pending_requests
      (ap (λ (r : Result (List PendingRequest) × Ext). r.0) (queue_lem s)),
)

module _ (env : Env) where
  -- The account makes no difference to what the popup shows of the status and the queue.
  fetch_account_lem :
      (was_ready : Bool) (store : Store) (status : LockStatus) (s t : Ext)
      → Shows store status s
      → (next : Store) × (result (fetch_account env was_ready store) t ≡ ok next)
        × Shows next status s
  unfolding fetch_account or_stop get_selected_account dispatch ◌>>=◌
  fetch_account_lem false store status s t h = (store, refl, h)
  fetch_account_lem true store status s t h =
      elim (Result-cases (result (post (Wallet.get_selected_account env)) t)) [
        | inl (e, thrown) ↦ (store, ground (arith, thrown), h)
        | inr (account, made) ↦
            (dispatch (set_selected_account account) store, ground (arith, made), h)
      ]

  fetch_data_lem :
      (store : Store) (status : LockStatus) (s : Ext)
      → Lock.get_status s ≡ (ok status, s)
      → (next : Store) × (result (fetch_data env store) s ≡ ok next) × Shows next status s
  unfolding fetch_data dispatch
  fetch_data_lem store status s made =
      let was_ready = store.app.is_unlocked && store.app.is_mnemonic_generated in
      let first = dispatch (set_status status) store in
      let second = dispatch (set_pending_requests s.pending_requests) first in
      let (next, run, shows) =
        fetch_account_lem was_ready second status s s (refl, refl, refl, refl) in
      (
        next,
        ap (λ (r : Result Store × Ext). r.0)
              (or_stop_ok fetch_status
                  (or_stop fetch_pending_requests (fetch_account env was_ready)) store first status
                  s s (fetch_status_lem store status s made)
                ∙ or_stop_ok fetch_pending_requests (fetch_account env was_ready) first second
                    s.pending_requests s s (fetch_pending_lem first s))
            ∙ run,
        shows,
      )

-- A popup that is ready goes to the requests or to the page of its url.
ready_goes :
    (view : View) (waiting : Bool) (path : String)
    → (if waiting then some "/requests" else with_params (redirect view) view.other_params)
      ≡ some path
    → ((path ≡ "/requests") × (waiting ≡ true))
      ⊎ ((waiting ≡ false)
          × (page : String) × (redirect view ≡ some page)
          × (path ≡ page ⧺ "?" ⧺ view.other_params))
ready_goes view true path goes = inl (ground (arith, goes), refl)
ready_goes view false path goes = elim (Option-cases (redirect view)) [
  | inl nowhere ↦ absurd (ground (arith, nowhere, goes))
  | inr (page, there) ↦ inr (refl, page, there, ground (arith, there, goes))
]

-- Where the popup shows the background page, it goes only where that page stands.
navigation-IsDue :
    (view : View) (store : Store) (status : LockStatus) (path : String) (s : Ext)
    → is_common_path view ≡ false
    → Shows store status s
    → navigation view store ≡ some path
    → IsDue view path status s
unfolding navigation
navigation-IsDue view store status path s plain (a, b, c, d) goes =
    elim (Bool-cases view.is_loading) [
      | inl loads ↦ absurd (ground (arith, loads, goes))
      | inr idle ↦ elim (Bool-cases status.is_initialized) [
        | inr fresh ↦ inl (ground (arith, idle, plain, a, fresh, goes), fresh)
        | inl known ↦ elim (Bool-cases status.is_unlocked) [
          | inr locked ↦
              inr (inl (ground (arith, idle, plain, a, known, b, locked, goes), known, locked))
          | inl open_ ↦ elim (Bool-cases status.is_mnemonic_generated) [
            | inr without ↦ inr (
                inr (
                  inl (
                    ground (arith, idle, plain, a, known, b, open_, c, without, goes),
                    known,
                    open_,
                    without,
                  )))
            | inl with ↦ inr (
                inr (
                  inr (
                    known,
                    open_,
                    with,
                    ready_goes view (has_elements s.pending_requests) path
                        (ground (arith, idle, plain, a, known, b, open_, c, with, d, goes)),
                  )))
          ]
        ]
      ]
    ]

module _ (env : Env) where
  -- The popup, at a page that is not open to all, after it has fetched: where it goes to a page, it
  -- goes to the onboarding, the login or the generation of the mnemonic exactly where the background
  -- page is not set up, is locked or has no mnemonic, in this order; and otherwise to the requests,
  -- where one waits, or else to the page that its url names; fetching has then returned.
  pub popup-IsDue :
      (view : View) (store : Store) (path : String) (s : Ext)
      → is_common_path view ≡ false
      → navigation view (fetched env store s) ≡ some path
      → (status : LockStatus) × (Lock.get_status s ≡ (ok status, s))
        × (result (fetch_data env store) s ≡ ok (fetched env store s))
        × IsDue view path status s
  popup-IsDue view store path s plain goes =
      let (status, made) = status_lem s in
      let (next, run, shows) = fetch_data_lem env store status s made in
      let same : fetched env store s ≡ next = ap (store_or store) run in
      (
        status,
        made,
        rw same run,
        navigation-IsDue view next status path s plain shows (rw (← same) goes),
      )
