-- ===== src/Popup.antt =====
-- packages/app/src/ui/pages/Popup/usePopup.ts: what the popup fetches when it is opened, and to which
-- page it goes. A path of constants/paths.ts is its text.
pub mod Opening
use crypt_keeper_extension.Prelude.{
  String, Bool, true, false, not, ◌&&◌, ◌||◌, Option, none, some, List, [], ◌∷◌, any, present,
  is_some, ◌==◌, if◌then◌else◌,
}
use crypt_keeper_extension.Prelude.Text.{◌⧺◌}
use crypt_keeper_extension.Env.{Env}
use crypt_keeper_extension.Exec.{M, Result, ok, err, pure, attempt, ◌>>=◌}
use crypt_keeper_extension.Store.{Store}
use crypt_keeper_extension.Store.Thunks.{
  Thunk, fetch_status, fetch_pending_requests, get_selected_account,
}

-- `REDIRECT_PATHS`, which gives each of these paths for itself
abbrev redirect_paths : List String
redirect_paths =
    "/create-identity" ∷ "/reveal-identity-commitment" ∷ "/connect-identity" ∷ "/import-identity"
    ∷ "/upload-backup" ∷ "/onboarding-backup" ∷ "/add-verifiable-credential"
    ∷ "/generate-verifiable-presentation-request" ∷ "/groups/join" ∷ "/groups/merkle-proof" ∷ []

-- `COMMON_PATHS`
abbrev common_paths : List String
common_paths = "/recover" ∷ "/reset-password" ∷ "/onboarding-backup" ∷ []

-- The popup's window: whether it still fetches, the page that it is at, the path of its url without
-- "/popup.html", the parameter `redirect` of the url, and the other parameters as a text.
pub record View : Type 0 where
  pub is_loading : Bool
  pub location : String
  pub pathname : String
  pub redirect_param : Option String
  pub other_params : String

-- `REDIRECT_PATHS`, whose inherited members no url names
redirect_to : Option String → Option String
redirect_to none = none
redirect_to (some path) = if any (λ p. p == path) redirect_paths then some path else none

-- `redirect`
unfoldable pub redirect : View → Option String
unfolding redirect_to
redirect view = redirect_to (present view.redirect_param)

-- `COMMON_PATHS.includes`, which no missing path is in
abbrev is_common : Option String → Bool
is_common none = false
is_common (some path) = any (λ p. p == path) common_paths

-- `isCommonPath`
unfoldable pub is_common_path : View → Bool
unfolding redirect
is_common_path view =
    is_common (some view.location) || is_common (redirect view) || is_common (some view.pathname)

abbrev pub with_params : Option String → String → Option String
with_params none params = none
with_params (some path) params = some (path ⧺ "?" ⧺ params)

abbrev pub has_elements : {A : Type 0} → List A → Bool
has_elements [] = false
has_elements (x ∷ xs) = true

-- The effect that navigates: the path that it goes to, if it goes anywhere.
unfoldable pub navigation : View → Store → Option String
unfolding redirect is_common_path
navigation view store =
    let common = is_common_path view in
    if view.is_loading
    then none
    else if common && not (is_some (redirect view))
    then none
    else if not store.app.is_initialized && not common
    then some "/onboarding"
    else if not store.app.is_unlocked && not common
    then some "/login"
    else if not store.app.is_mnemonic_generated && not common
    then some "/generate-mnemonic"
    else if has_elements store.pending_requests
    then some "/requests"
    else with_params (redirect view) view.other_params

-- A step of `fetchData`: where it throws, the error is logged, the store is as it was, and no later
-- step runs.
kept : {A : Type 0} → (Store → M Store) → Store → Result (A × Store) → M Store
kept rest store (ok (a, next)) = rest next
kept rest store (err e) = pure store

unfoldable pub or_stop : {A : Type 0} → Thunk A → (Store → M Store) → Store → M Store
unfolding kept
or_stop thunk rest store = do r ← attempt (thunk store); kept rest store r

module _ (env : Env) where
  -- `isUnlocked && isMnemonicGenerated` is of the store before.
  fetch_account : Bool → Store → M Store
  unfolding or_stop
  fetch_account true store = or_stop (get_selected_account env) pure store
  fetch_account false store = pure store

  -- `fetchData`
  unfoldable pub fetch_data : Store → M Store
  unfolding or_stop fetch_account
  fetch_data store =
      let was_ready = store.app.is_unlocked && store.app.is_mnemonic_generated in
      or_stop fetch_status (or_stop fetch_pending_requests (fetch_account was_ready)) store
