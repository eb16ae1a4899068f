-- ===== src/Tests/Chosen.antt =====
-- The popup is opened, and credentials are presented, in the sample state.
use crypt_keeper_extension.Prelude.{
  String, false, ◌≡◌, refl, none, some, [], ◌∷◌, map, any, filter, if◌then◌else◌,
}
use crypt_keeper_extension.Prelude.Text.{◌⧺◌}
use crypt_keeper_extension.Types.{LockStatus}
use crypt_keeper_extension.Exec.{ok, ◌>>=◌, result}
use crypt_keeper_extension.SimpleStorage
use crypt_keeper_extension.Misc
use crypt_keeper_extension.Lock
use crypt_keeper_extension.RequestManager
use crypt_keeper_extension.Credentials.{CryptkeeperCredential, presentation_of}
use crypt_keeper_extension.Store.{initial_store, dispatch}
use crypt_keeper_extension.Store.Thunks.{post, fetch_status, fetch_pending_requests}
use crypt_keeper_extension.Popup.{View, redirect, is_common_path, navigation, or_stop, fetch_data}
use crypt_keeper_extension.Popup.Opening.{fetched, IsDue, popup-IsDue}
use crypt_keeper_extension.Presenting.{Presenting, create}
use crypt_keeper_extension.Presenting.Choosing.{is_odd, toggles, create-toggles}
use crypt_keeper_extension.Tests.Sample.{sample}
use crypt_keeper_extension.Tests.States.{ready}

abbrev view : View
view = record {
  is_loading = false;
  location = "/";
  pathname = "/";
  redirect_param = some "/groups/join";
  other_params = "groupId=7";
}

plain : is_common_path view ≡ false
unfolding is_common_path redirect
plain = refl

goes :
    navigation view (fetched sample initial_store ready) ≡ some ("/groups/join" ⧺ "?" ⧺ "groupId=7")
unfolding navigation is_common_path redirect fetch_data or_stop fetch_status fetch_pending_requests
    post dispatch Lock.get_status Misc.get_initialization SimpleStorage.get
    RequestManager.get_requests ◌>>=◌
goes = refl

opening_example :
    (status : LockStatus) × (Lock.get_status ready ≡ (ok status, ready))
    × (result (fetch_data sample initial_store) ready ≡ ok (fetched sample initial_store ready))
    × IsDue view ("/groups/join" ⧺ "?" ⧺ "groupId=7") status ready
opening_example =
    popup-IsDue sample view initial_store ("/groups/join" ⧺ "?" ⧺ "groupId=7") ready plain goes

abbrev credential : String → CryptkeeperCredential
credential hash = record {
  verifiable_credential = hash ⧺ "!";
  metadata = record { name = "Credential"; hash = hash };
}

abbrev fresh : Presenting
fresh = record {
  request = some "please";
  credentials = credential "a" ∷ credential "b" ∷ credential "c" ∷ [];
  selected = [];
  error = none;
}

chosen_example : create (toggles ("c" ∷ "a" ∷ "b" ∷ "a" ∷ []) fresh) ≡ (
    if any (λ h. is_odd h ("c" ∷ "a" ∷ "b" ∷ "a" ∷ [])) ("c" ∷ "a" ∷ "b" ∷ "a" ∷ [])
    then some (
        presentation_of (
          map
            (λ c. c.verifiable_credential)
            (filter (λ c. is_odd c.metadata.hash ("c" ∷ "a" ∷ "b" ∷ "a" ∷ [])) fresh.credentials)))
    else none)
chosen_example = create-toggles ("c" ∷ "a" ∷ "b" ∷ "a" ∷ []) fresh refl
