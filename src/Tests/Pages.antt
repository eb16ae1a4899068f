-- ===== src/Tests/Pages.antt =====
-- The theorems on pages, hosts and connections in the sample state.
use crypt_keeper_extension.Prelude.{
  String, Bool, true, false, ◌≡◌, ◌≢◌, refl, Option, none, some, [], ◌∷◌, ◌==◌, eq_iff, arith,
  if◌then◌else◌,
}
use crypt_keeper_extension.Types.{IdentityConnection}
use crypt_keeper_extension.JsMap
use crypt_keeper_extension.State.{Ext}
use crypt_keeper_extension.Exec.{M, ok, pure, ◌>>=◌, result, after}
use crypt_keeper_extension.SimpleStorage
use crypt_keeper_extension.Crypto
use crypt_keeper_extension.Browser
use crypt_keeper_extension.Approval.{is_origin_approved}
use crypt_keeper_extension.Connection.{
  disconnect, save, get_connected_identity, connection_of, is_origin_connected,
}
use crypt_keeper_extension.Connection.Connected.{get_connected_identity-disconnect}
use crypt_keeper_extension.Handler
use crypt_keeper_extension.Handler.{Request, get_url_origin}
use crypt_keeper_extension.Routes.{HandlerName, initialize, handle}
use crypt_keeper_extension.Lock
use crypt_keeper_extension.Routes.Guards
use crypt_keeper_extension.Routes.Guards.{
  dispatch, IsAdmitted, join_group, method_text, page_method-IsAdmitted, outside_call_rejected,
}
use crypt_keeper_extension.Routes.Locked.{delete_history, ensured_handler, locked_call_runs}
use crypt_keeper_extension.Tests.Sample.{sample}
use crypt_keeper_extension.Tests.States.{ready}

abbrev a_org : String
a_org = "https://a.org"

abbrev b_org : String
b_org = "https://b.org"

disconnects : result (disconnect sample (some "c#alice") none) ready ≡ ok true
unfolding disconnect save is_origin_connected JsMap.get JsMap.has SimpleStorage.set Crypto.encrypt
    Browser.push_event ◌>>=◌
disconnects = refl

disconnect_example :
    (k : IdentityConnection) × (connection_of none (some "c#alice") ready.connections ≡ some k)
    × (result
          (get_connected_identity sample (some a_org))
          (after (disconnect sample (some "c#alice") none) ready)
        ≡ (if k.url_origin == a_org
            then ok none
            else result (get_connected_identity sample (some a_org)) ready))
disconnect_example =
    get_connected_identity-disconnect sample (some "c#alice") none a_org ready (tt, tt) disconnects

other_origin : a_org ≢ b_org
other_origin e = ground (arith, eq_iff a_org b_org)

-- The identity is connected to a second origin first.
abbrev both_connected : Ext
both_connected = record ready {
  connections =
      (a_org, record { commitment = "c#alice"; name = "A"; url_origin = a_org })
      ∷ (b_org, record { commitment = "c#alice"; name = "A"; url_origin = b_org })
      ∷ [];
}

-- The handlers that are not guards give their payload back; the payload `false` stands for itself.
abbrev other : HandlerName → Bool → Option String → M Bool
other h p meta = pure p

abbrev own_url : String
own_url = "chrome-extension://id"

abbrev join_request : Request Bool
join_request = record { method = method_text join_group; payload = true; meta = some a_org }

join_returns :
    result (handle (dispatch false other) some own_url join_request (some a_org)) ready ≡ ok true
unfolding handle Handler.handle initialize JsMap.get JsMap.has dispatch Guards.ensured Lock.ensure
    is_origin_approved is_origin_connected ◌>>=◌
join_returns = refl

page_method_example : IsAdmitted false other (some a_org) ready
page_method_example =
    page_method-IsAdmitted false other some own_url join_group join_request (some a_org) ready true
      refl join_returns

abbrev clear_request : Request Bool
clear_request = record { method = "rpc/identity/deleteHistory"; payload = true; meta = none }

abbrev locked : Ext
locked = record ready { locker = record { is_unlocked = false; unlock_cb = none } }

locked_call_example :
    handle (dispatch false other) some own_url clear_request (some own_url) locked
    ≡ other (ensured_handler delete_history) false none locked
unfolding get_url_origin ◌>>=◌
locked_call_example =
    locked_call_runs false other some own_url delete_history clear_request (some own_url) locked
      own_url refl refl refl refl
