-- ===== src/Tests/Messages.antt =====
-- The page "https://a.org", its provider, and the extension in the sample state.
use crypt_keeper_extension.Prelude.{
  ℕ, String, Bool, true, ◌≡◌, ◌≢◌, refl, Option, none, some, List, [], ◌∷◌, ◌++◌, map, filter, ◌==◌,
  eq_iff, arith, All, eqb, if◌then◌else◌,
}
use crypt_keeper_extension.JsMap
use crypt_keeper_extension.Handler.{Request, get_url_origin}
use crypt_keeper_extension.Exec.{M, ok, pure, or_throw, result, after}
use crypt_keeper_extension.Routes.{HandlerName, rpc_method_access}
use crypt_keeper_extension.Provider.{
  EmitterApi, Provider, Reply, to_content_script, to_injected_script, number, name, settlement,
  rejected, new_handler, request, Window, receive,
}
use crypt_keeper_extension.Provider.Settled.{settlement_of}
use crypt_keeper_extension.Provider.Promises.{
  IsSound, Step, requests, hears, listens, emits, cleans, steps, steps-IsSound, new_handler-IsSound,
  request-IsSound,
}
use crypt_keeper_extension.Provider.Windows.{IsAnswered, receive_settles_all}
use crypt_keeper_extension.Messages.{ask, content_script, reply_of}
use crypt_keeper_extension.Messages.Asking.{
  handled, ask_settles, outside_ask_rejected, sender_ignored,
}
use crypt_keeper_extension.Tests.States.{ready}

abbrev Emitter : Type 0
Emitter = List (String × ℕ)

abbrev emitter : EmitterApi Emitter
emitter = record {
  empty = [];
  on = λ event listener ls. ls ++ (event, listener) ∷ [];
  listeners = λ event ls. map (λ l. l.1) (filter (λ l. l.0 == event) ls);
}

abbrev page : Provider Emitter Bool
page = new_handler emitter (some "https://a.org")

abbrev join_message : Request Bool
join_message = record { method = "rpc/injector/group/join"; payload = true; meta = none }

abbrev clear_message : Request Bool
clear_message = record { method = "rpc/identity/deleteHistory"; payload = true; meta = none }

abbrev done : Reply Bool
done = record { error = none; value = some true }

abbrev failed : Reply Bool
failed = record { error = some "no"; value = none }

page-IsSound : IsSound page
page-IsSound = new_handler-IsSound emitter (some "https://a.org")

abbrev happenings : List (Step Bool)
happenings =
    requests join_message
    ∷ listens "login" 4
    ∷ requests join_message
    ∷ hears (to_injected_script failed (number 1))
    ∷ hears (to_injected_script done (name "login"))
    ∷ hears (to_injected_script done (number 0))
    ∷ emits "logout" none
    ∷ cleans
    ∷ []

IsSound-example : IsSound (steps emitter happenings page)
IsSound-example = steps-IsSound emitter happenings page page-IsSound

abbrev waiting : Provider Emitter Bool
waiting = (request emitter join_message page).1

waiting-IsSound : IsSound waiting
waiting-IsSound = request-IsSound emitter join_message page page-IsSound

still_open : settlement 0 waiting.settled ≡ none
unfolding request new_handler settlement
still_open = refl

begun : waiting.nonce ≡ 1
unfolding request new_handler
begun = refl

abbrev window : Window Emitter Bool
window = record {
  is_cryptkeeper_injected = true;
  origin = "https://a.org";
  providers = waiting ∷ waiting ∷ [];
}

two_providers_example :
    All
      (IsAnswered emitter 0 failed)
      (receive emitter (to_injected_script failed (number 0)) window).providers
two_providers_example = receive_settles_all emitter 0 failed window (
  (waiting-IsSound, omega (arith, begun), still_open),
  ((waiting-IsSound, omega (arith, begun), still_open), tt),
)

abbrev plain : HandlerName → Bool → Option String → M Bool
plain h payload meta = pure payload

abbrev extension : String
extension = "chrome-extension://ck"

ask_example :
    (q : Provider Emitter Bool) × (ask plain some extension emitter "https://a.org" join_message
        page ready
      ≡ (ok q, after (handled plain some extension "https://a.org" join_message page) ready))
    × (settlement 0 q.settled ≡ (
        if eqb page.nonce 0
        then some (
            settlement_of (
              reply_of
                (result (handled plain some extension "https://a.org" join_message page) ready)))
        else settlement 0 page.settled))
ask_example =
    ask_settles plain some extension emitter "https://a.org" join_message page ready 0 page-IsSound

not_own : "https://a.org" ≢ extension
not_own e = ground (arith, eq_iff "https://a.org" extension)

not_listed : JsMap.get clear_message.method rpc_method_access ≢ some true
unfolding JsMap.get
not_listed e = cc

outside_ask_example :
    (q : Provider Emitter Bool) × (e : String) × (ask plain some extension emitter "https://a.org"
        clear_message page ready
      ≡ (ok q, ready))
    × (settlement page.nonce q.settled ≡ some (rejected e))
unfolding get_url_origin or_throw
outside_ask_example =
    outside_ask_rejected plain some extension emitter "https://a.org" clear_message page ready
      "https://a.org" extension refl refl not_own not_listed page-IsSound

listed : JsMap.get join_message.method rpc_method_access ≡ some true
unfolding JsMap.get
listed = refl

abbrev forged : Request Bool
forged = record join_message { meta = some "https://a.org" }

sender_example :
    content_script plain some extension "https://evil.org"
      (to_content_script forged (number 0))
      ready
    ≡ content_script plain some extension "https://a.org"
        (to_content_script forged (number 0))
        ready
unfolding get_url_origin or_throw
sender_example =
    sender_ignored plain some extension "https://evil.org" "https://a.org" "https://evil.org"
      "https://a.org" extension forged (number 0) ready refl refl refl listed
