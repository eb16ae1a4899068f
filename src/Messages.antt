-- ===== src/Messages.antt =====
-- The way of a message: background/contentScript.ts between a page and the background page,
-- background/backgroundPage.ts around `handle`, and util/postMessage.ts of the popup.
pub mod Asking
use crypt_keeper_extension.Prelude.{String, Bool, Option, none, some, present, if◌then◌else◌}
use crypt_keeper_extension.Handler.{Request}
use crypt_keeper_extension.Exec.{Result, ok, err, M, attempt, throw, pure, ◌>>=◌}
use crypt_keeper_extension.State.{Ext}
use crypt_keeper_extension.Routes
use crypt_keeper_extension.Routes.{HandlerName}
use crypt_keeper_extension.Provider.{
  Reply, WindowMessage, to_content_script, to_injected_script, to_other, Nonce, number, name,
  EmitterApi, Provider, request, event_responser,
}

-- `[null, response]`, or `[error.message, null]`
abbrev pub reply_of : {P : Type 0} → Result P → Reply P
reply_of (ok v) = record { error = none; value = some v }
reply_of (err e) = record { error = some e; value = none }

-- The listener of the background page, for a request whose `source` is not the offscreen page.
unfoldable pub respond : {P : Type 0} → M P → M (Reply P)
respond m = do answer ← attempt m; pure (reply_of answer)

-- What `postMessage` makes of the answer: an error with a message is thrown.
unpack : {P : Type 0} → Reply P → M (Option P)
unpack reply = elim (present reply.error) [ some e ↦ throw e | none ↦ pure reply.value ]

unfoldable pub post_message : {P : Type 0} → M P → M (Option P)
unfolding respond unpack
post_message m = do reply ← respond m; unpack reply

-- What the content script posts when the status changes, and for any other event of the background.
unfoldable pub status_message : {P : Type 0} → Bool → WindowMessage P
status_message is_unlocked =
    to_injected_script (record { error = none; value = none })
      (name (if is_unlocked then "login" else "logout"))

unfoldable pub event_message : {P : Type 0} → String → Option P → WindowMessage P
event_message type payload =
    to_injected_script (record { error = none; value = payload }) (name type)

module _ {P : Type 0} (call : HandlerName → P → Option String → M P)
    (origin : String → Option String) (extension_url : String) where
  -- The content script of a page hears a message of the window, whoever has posted it, and sends it on
  -- as it is; `page_url` is the sender's url, that of the page.
  unfoldable pub content_script : String → WindowMessage P → M (Option (WindowMessage P))
  unfolding respond
  content_script page_url (to_content_script message nonce) = do
    reply ← respond (Routes.handle call origin extension_url message (some page_url))
    pure (some (to_injected_script reply nonce))
  content_script page_url (to_injected_script reply nonce) = pure none
  content_script page_url to_other = pure none

  -- A page's request, from the provider to the background page and back.
  unfoldable pub ask :
      {E : Type 0} → EmitterApi E → String → Request P → Provider E P → M (Provider E P)
  unfolding content_script
  ask api page_url message p = do
    answer ← content_script page_url (request api message p).0
    elim answer [
      | some heard ↦ pure (event_responser api heard (request api message p).1)
      | none ↦ pure (request api message p).1
    ]
