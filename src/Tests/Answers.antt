-- ===== src/Tests/Answers.antt =====
-- The user connects an identity in the sample state.
use crypt_keeper_extension.Prelude.{◌≡◌, refl, some, ◌==◌, if◌then◌else◌}
use crypt_keeper_extension.JsMap
use crypt_keeper_extension.Exec.{ok, ◌>>=◌, result, after}
use crypt_keeper_extension.SimpleStorage
use crypt_keeper_extension.Crypto
use crypt_keeper_extension.Browser
use crypt_keeper_extension.ZkIdentity.{get_identity}
use crypt_keeper_extension.ZkIdentitySemaphore.{gen_from_serialized}
use crypt_keeper_extension.Connection
use crypt_keeper_extension.Connection.{get_connected_identity}
use crypt_keeper_extension.Store.Thunks.{post, close_popup}
use crypt_keeper_extension.Entry.{went}
use crypt_keeper_extension.Answering.{on_connect}
use crypt_keeper_extension.Answering.Connecting.{on_connect-get_connected_identity}
use crypt_keeper_extension.Tests.Sample.{sample}
use crypt_keeper_extension.Tests.States.{ready, alice}

known : result (get_identity sample "c#alice") ready ≡ ok (some alice)
unfolding get_identity gen_from_serialized JsMap.get ◌>>=◌
known = refl

goes_home : result (on_connect sample "c#alice" "https://b.org") ready ≡ ok (went "/home")
unfolding on_connect post close_popup Connection.connect Connection.save get_identity
    gen_from_serialized JsMap.get SimpleStorage.set Crypto.encrypt Browser.push_event
    Browser.close_popup ◌>>=◌
goes_home = refl

connecting_example :
    result
      (get_connected_identity sample (some "https://b.org"))
      (after (on_connect sample "c#alice" "https://b.org") ready)
    ≡ (if "https://b.org" == "https://b.org"
        then ok (some alice)
        else result (get_connected_identity sample (some "https://b.org")) ready)
connecting_example =
    on_connect-get_connected_identity sample "c#alice" "https://b.org" "https://b.org" alice ready
      known goes_home
