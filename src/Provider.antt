-- ===== src/Provider.antt =====
-- packages/providers: what a page calls. A request is posted to the content script under a number, and
-- its promise waits for the answer with that number.
pub mod Settled
pub mod Promises
pub mod Windows
use crypt_keeper_extension.Prelude.{
  ℕ, suc, String, Bool, false, Option, none, some, List, [], ◌∷◌, ◌++◌, map, any, eqb, present,
  ◌==◌, if◌then◌else◌, is_some, find,
}
use crypt_keeper_extension.Prelude.Text.{decimal}
use crypt_keeper_extension.JsMap
use crypt_keeper_extension.JsMap.{JsMap}
use crypt_keeper_extension.Handler.{Request}

-- `EVENTS`, the values of the enumeration `EventName`
abbrev pub events : List String
events =
    "login" ∷ "logout" ∷ "approval" ∷ "addVerifiableCredential" ∷ "verifiablePresentationRequest"
    ∷ "generateVerifiablePresentation" ∷ "revealCommitment" ∷ "joinGroup" ∷ "groupMerkleProof"
    ∷ "importIdentity" ∷ "createIdentity" ∷ "connect" ∷ "disconnect" ∷ "userReject" ∷ []

-- `createNanoEvents()`: an emitter without listeners, `on`, and the listeners that `emit` calls, in
-- order. A listener is named by a number.
pub record EmitterApi (E : Type 0) : Type 0 where
  pub empty : E
  pub on : String → ℕ → E → E
  pub listeners : String → E → List ℕ

-- `nonce` of a message: the number of a request, or a text.
pub data Nonce : Type 0 where
  number : ℕ → Nonce
  name : String → Nonce

-- `nonce.toString()`
abbrev pub nonce_text : Nonce → String
nonce_text (number n) = decimal n
nonce_text (name s) = s

-- `[err, res]`; what is missing stands for `null` and `undefined`.
pub record Reply (P : Type 0) : Type 0 where
  pub error : Option String
  pub value : Option P

-- A message of the window, by its `target`: "injected-contentscript", "injected-injectedscript", or
-- another.
pub data WindowMessage (P : Type 0) : Type 0 where
  to_content_script : Request P → Nonce → WindowMessage P
  to_injected_script : Reply P → Nonce → WindowMessage P
  to_other : WindowMessage P

pub data Settlement (P : Type 0) : Type 0 where
  resolved : Option P → Settlement P
  rejected : String → Settlement P

-- `Handler`. A promise is named by the number of its request; `settled` holds the promises that are
-- settled, the newest first, and `emitted` the calls of listeners, in order.
pub record Provider (E P : Type 0) : Type 0 where
  pub nonce : ℕ
  pub connected_origin : Option String
  pub emitter : E
  pub requests_promises : JsMap ℕ
  pub settled : List (ℕ × Settlement P)
  pub emitted : List (ℕ × Option P)

module _ {P : Type 0} where
  -- How a promise was settled.
  unfoldable pub settlement : ℕ → List (ℕ × Settlement P) → Option (Settlement P)
  settlement id [] = none
  settlement id ((i, how) ∷ rest) = if eqb i id then some how else settlement id rest

  -- `resolve` or `reject`: a promise that was settled before stays as it is.
  unfoldable pub settle : ℕ → Settlement P → List (ℕ × Settlement P) → List (ℕ × Settlement P)
  unfolding settlement
  settle id how before = if is_some (settlement id before) then before else (id, how) ∷ before

-- `EVENTS.includes(nonce)`: a number is no event.
unfoldable pub is_event : Nonce → Bool
is_event (number n) = false
is_event (name s) = any (λ e. e == s) events

module _ {E P : Type 0} (api : EmitterApi E) where
  unfoldable pub new_handler : Option String → Provider E P
  new_handler connected_origin = record {
    nonce = 0;
    connected_origin = connected_origin;
    emitter = api.empty;
    requests_promises = [];
    settled = [];
    emitted = [];
  }

  unfoldable pub on : String → ℕ → Provider E P → Provider E P
  on event listener p = record p { emitter = api.on event listener p.emitter }

  unfoldable pub emit : String → Option P → Provider E P → Provider E P
  emit event payload p = record p {
    emitted = p.emitted ++ map (λ l. (l, payload)) (api.listeners event p.emitter);
  }

  unfoldable pub clean_listeners : Provider E P → Provider E P
  clean_listeners p = record p { emitter = api.empty }

  -- The message that `request` posts, and the provider afterwards. The origin is always the
  -- provider's own.
  unfoldable pub request : Request P → Provider E P → WindowMessage P × Provider E P
  request message p = (
    to_content_script (record message { meta = p.connected_origin }) (number p.nonce),
    record p {
      nonce = suc p.nonce;
      requests_promises = JsMap.set (decimal p.nonce) p.nonce p.requests_promises;
    },
  )

  -- An answer: an error rejects the promise, which stays in the map; a result resolves it.
  answer : Option ℕ → Option String → Option P → String → Provider E P → Provider E P
  unfolding settle
  answer none error value key p = p
  answer (some id) (some e) value key p = record p { settled = settle id (rejected e) p.settled }
  answer (some id) none value key p = record p {
    settled = settle id (resolved value) p.settled;
    requests_promises = JsMap.delete key p.requests_promises;
  }

  unfoldable pub event_responser : WindowMessage P → Provider E P → Provider E P
  unfolding answer emit is_event
  event_responser (to_injected_script reply nonce) p =
      let key = nonce_text nonce in
      if is_event nonce
      then emit key reply.value p
      else answer (JsMap.get key p.requests_promises) (present reply.error) reply.value key p
  event_responser (to_content_script message nonce) p = p
  event_responser to_other p = p

  -- `connect` of the injected provider; the payload is `{ isChangeIdentity, urlOrigin }`.
  unfoldable pub connect :
      (Bool → Option String → P) → Bool → Provider E P → WindowMessage P × Provider E P
  unfolding request
  connect payload is_change_identity p =
      request
        (record {
          method = "rpc/injector/connect";
          payload = payload is_change_identity p.connected_origin;
          meta = none;
        })
        p

-- The window of a page: whether the extension is there, and the providers whose `eventResponser`
-- listens; `window.cryptkeeper` is the last of them.
pub record Window (E P : Type 0) : Type 0 where
  pub is_cryptkeeper_injected : Bool
  pub origin : String
  pub providers : List (Provider E P)

module _ {E P : Type 0} (api : EmitterApi E) where
  unfoldable pub initialize_crypt_keeper_provider : Option String → Window E P → Window E P
  initialize_crypt_keeper_provider connected_origin w = record w {
    providers = w.providers ++ new_handler api connected_origin ∷ [];
  }

  unfoldable pub initialize_crypt_keeper : Window E P → Window E P
  unfolding initialize_crypt_keeper_provider
  initialize_crypt_keeper w =
      if w.is_cryptkeeper_injected then initialize_crypt_keeper_provider (some w.origin) w else w

  -- A message of the window comes to each listener.
  unfoldable pub receive : WindowMessage P → Window E P → Window E P
  receive message w = record w { providers = map (event_responser api message) w.providers }
