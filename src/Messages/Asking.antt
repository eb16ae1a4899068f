-- ===== src/Messages/Asking.antt =====
-- What a page gets for a request, and what it can ask for.
use crypt_keeper_extension.Prelude.{
  ℕ, String, true, ◌≡◌, ◌≢◌, refl, sym, ap, ◌∙◌, Option, some, [], arith, eqb, truthy, inl, inr,
  if◌then◌else◌,
}
use crypt_keeper_extension.Prelude.Text.{◌⧺◌, truthy-append}
use crypt_keeper_extension.JsMap
use crypt_keeper_extension.Handler.{Request, get_url_origin}
use crypt_keeper_extension.Handler.Sender.{handle_refused, handle_bypass}
use crypt_keeper_extension.State.{Ext}
use crypt_keeper_extension.Exec.{Result, M, ok, err, after, result, ◌>>=◌}
use crypt_keeper_extension.Routes.{HandlerName, handle, initialize, rpc_method_access}
use crypt_keeper_extension.Routes.Guards.{or_false-false}
use crypt_keeper_extension.Provider.{
  EmitterApi, Provider, to_content_script, to_injected_script, Nonce, number, settlement,
  Settlement, rejected, request, event_responser,
}
use crypt_keeper_extension.Provider.Settled.{settlement_of}
use crypt_keeper_extension.Provider.Promises.{
  IsSound, answer_settles, request-IsSound, unsettled_next,
}
use crypt_keeper_extension.Messages.{reply_of, respond, content_script, ask}

module _ {P : Type 0} (call : HandlerName → P → Option String → M P)
    (origin : String → Option String) (extension_url : String) where
  -- The page's request as it comes to the background page.
  abbrev pub handled : {E : Type 0} → String → Request P → Provider E P → M P
  handled page_url message p =
      handle call origin extension_url (record message { meta = p.connected_origin })
        (some page_url)

  module _ {E : Type 0} (api : EmitterApi E) (page_url : String) (message : Request P)
      (p : Provider E P) (s : Ext) where
    ask_lem : ask call origin extension_url api page_url message p s ≡ (
      ok (
          event_responser api
            (to_injected_script (reply_of (result (handled page_url message p) s)) (number p.nonce))
            (request api message p).1),
      after (handled page_url message p) s,
    )
    unfolding ask content_script respond request ◌>>=◌
    ask_lem = refl

    -- A page's request ends: its promise is settled by what `handle` returned or threw for it, no other
    -- promise of the provider is, and the background page is as `handle` left it, for a provider in
    -- which each promise is that of a request that was made.
    pub ask_settles :
        (j : ℕ)
        → IsSound p
        → (q : Provider E P) × (ask call origin extension_url api page_url message p s
            ≡ (ok q, after (handled page_url message p) s))
          × (settlement j q.settled ≡ (
              if eqb p.nonce j
              then some (settlement_of (reply_of (result (handled page_url message p) s)))
              else settlement j p.settled))
    unfolding request
    ask_settles j h =
        let reply = reply_of (result (handled page_url message p) s) in
        (
          _,
          ask_lem,
          answer_settles api p.nonce j reply (request api message p).1
              (request-IsSound api message p h) (omega arith) (unsettled_next p h),
        )

  told :
      (n : ℕ) (before : Option (Settlement P)) (r : Result P × Ext) (t : Ext) (e : String)
      → truthy e ≡ true
      → r ≡ (err e, t)
      → (if eqb n n then some (settlement_of (reply_of r.0)) else before) ≡ some (rejected e)
  told n before r t e full thrown =
      let same : eqb n n ≡ true = ground arith in rw (same, thrown, full) refl

  refused_with :
      {E : Type 0} (api : EmitterApi E) (page_url : String) (message : Request P) (p : Provider E P)
      (s : Ext) (e : String)
      → truthy e ≡ true
      → handled page_url message p s ≡ (err e, s)
      → IsSound p
      → (q : Provider E P) × (ask call origin extension_url api page_url message p s ≡ (ok q, s))
        × (settlement p.nonce q.settled ≡ some (rejected e))
  refused_with api page_url message p s e full thrown h =
      let (q, run, settled) = ask_settles api page_url message p s p.nonce h in
      (
        q,
        run ∙ ap (λ (r : Result P × Ext). (ok q, r.1)) thrown,
        settled
            ∙ told p.nonce (settlement p.nonce p.settled) (handled page_url message p s) s e full
                thrown,
      )

  -- A page, which has another origin than the extension, asks for a method outside the access list:
  -- the promise of its request is rejected, and the background page is as it was.
  pub outside_ask_rejected :
      {E : Type 0} (api : EmitterApi E) (page_url : String) (message : Request P) (p : Provider E P)
      (s : Ext) (a b : String)
      → get_url_origin origin (some page_url) s ≡ (ok a, s)
      → get_url_origin origin (some extension_url) s ≡ (ok b, s)
      → a ≢ b
      → JsMap.get message.method rpc_method_access ≢ some true
      → IsSound p
      → (q : Provider E P) × (e : String) × (ask call origin extension_url api page_url message p s
          ≡ (ok q, s))
        × (settlement p.nonce q.settled ≡ some (rejected e))
  unfolding handle
  outside_ask_rejected api page_url message p s a b ea eb ne hidden h =
      let closed = or_false-false (JsMap.get message.method rpc_method_access) hidden in
      elim (handle_refused call origin extension_url (initialize [])
        (record message { meta = p.connected_origin }) (some page_url) s a b ea eb ne) [
          | inl unknown ↦
              let (q, run, settled) =
                refused_with api page_url message p s
                  ("method: " ⧺ message.method ⧺ " is not detected") (truthy-append _ _ _)
                  (rw closed unknown) h in
              (q, _, run, settled)
          | inr outside ↦
              let (q, run, settled) =
                refused_with api page_url message p s
                  ("Method " ⧺ message.method ⧺ " is not allowed to be called outside")
                  (truthy-append _ _ _) (rw closed outside) h in
              (q, _, run, settled)
        ]

  -- For a method that pages may call, the answer and what the call does depend on the message alone,
  -- the origin that it names included, and not on the page that sends it.
  pub sender_ignored :
      (u v a b c : String) (message : Request P) (nonce : Nonce) (s : Ext)
      → get_url_origin origin (some u) s ≡ (ok a, s)
      → get_url_origin origin (some v) s ≡ (ok b, s)
      → get_url_origin origin (some extension_url) s ≡ (ok c, s)
      → JsMap.get message.method rpc_method_access ≡ some true
      → content_script call origin extension_url u (to_content_script message nonce) s
        ≡ content_script call origin extension_url v (to_content_script message nonce) s
  unfolding content_script respond handle ◌>>=◌
  sender_ignored u v a b c message nonce s eu ev ec listed = rw listed (
      ap (λ (r : Result P × Ext). (ok (some (to_injected_script (reply_of r.0) nonce)), r.1))
        (handle_bypass call origin extension_url (initialize []) message (some u) s a c eu ec
          ∙ sym (
              handle_bypass call origin extension_url (initialize []) message (some v) s b c ev
                ec)))
