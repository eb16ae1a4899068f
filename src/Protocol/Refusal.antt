-- ===== src/Protocol/Refusal.antt =====
-- A page asks for a proof and the user refuses: the request manager and both parts of the generation.
use crypt_keeper_extension.Prelude.{
  arith, Bool, String, true, false, ◌≡◌, ap, sym, ◌∙◌, Option, none, ◌∷◌,
}
use crypt_keeper_extension.Prelude.Text.{decimal}
use crypt_keeper_extension.JsMap
use crypt_keeper_extension.Requests.{
  SemaphoreProofRequest, rejected_with, reject, PendingRequestType, RequestPayload, semaphore_proof,
  semaphore_payload,
}
use crypt_keeper_extension.State.{Ext, installed, settled, set_pending_requests}
use crypt_keeper_extension.Env.{Env}
use crypt_keeper_extension.Exec.{Result, ok_injective, ok, after, result, >>=_of_ok, pure}
use crypt_keeper_extension.Approval.{skips}
use crypt_keeper_extension.RequestManager.{new_request, finalize_request, rejection}
use crypt_keeper_extension.RequestManager.Queue.{new_request_memory, Reach}
use crypt_keeper_extension.RequestManager.Settling.{finalize_request-new_request}
use crypt_keeper_extension.ZkProof.{ZkApi}
use crypt_keeper_extension.Protocol.{
  BrowserApi, SemaphoreArgs, Prepared, ready, waits, ask, begins, prepare_semaphore_proof,
  begin_semaphore_proof, end_semaphore_proof, without_identity,
}
use crypt_keeper_extension.Protocol.Consent.{begins_ok, prepared_lem, proof_refused, refusal_error}

abbrev waiting : {R : Type 0} → Prepared R → R → String
waiting (ready r) other = ""
waiting (waits id r) other = id

abbrev waiting_for : {R : Type 0} → Prepared R → R → R
waiting_for (ready r) other = other
waiting_for (waits id r) other = r

-- Where `ask` waits, it has made the request.
ask_waits :
    {R : Type 0} (skip : Bool) (type : PendingRequestType) (payload : RequestPayload) (id : String)
    (r q : R) (s : Ext)
    → result (ask skip type payload r) s ≡ ok (waits id q)
    → (r ≡ q)
      × (decimal s.nonce ≡ id)
      × (after (ask skip type payload r) s ≡ after (new_request type payload) s)
unfolding ask pure
ask_waits {R} true type payload id r q s h = absurd (ground arith)
ask_waits {R} false type payload id r q s h =
    let (window, queue, promises, _, made) = new_request_memory type payload s in
    let run =
      >>=_of_ok (new_request type payload) (λ i. pure (waits i r)) s (decimal s.nonce) made in
    let e : waits (decimal s.nonce) r ≡ waits id q =
      ok_injective (ap (λ (a : Result (Prepared R) × Ext). a.0) (sym run) ∙ h) in
    (
      ap (λ (a : Prepared R). waiting_for a r) e,
      ap (λ (a : Prepared R). waiting a r) e,
      ap (λ (a : Result (Prepared R) × Ext). a.1) run,
    )

module _ (env : Env) (browser : BrowserApi) where
  waits_made :
      (args : SemaphoreArgs) (url_origin : Option String) (id : String) (r : SemaphoreProofRequest)
      (s : Ext)
      → result (begin_semaphore_proof browser env args url_origin) s ≡ ok (waits id r)
      → (decimal s.nonce ≡ id)
        × (after (begin_semaphore_proof browser env args url_origin) s
            ≡ after (new_request semaphore_proof (semaphore_payload (without_identity r))) s)
  unfolding begin_semaphore_proof begins
  waits_made args url_origin id r s h =
      let (made, kept) =
        begins_ok env browser "CryptKeeper: Error in generating Semaphore proof "
          (prepare_semaphore_proof browser env args url_origin) s (waits id r) h in
      let (q, owned, run) = prepared_lem env browser args url_origin s (waits id r) made in
      let (same, named, queued) =
        ask_waits (skips (JsMap.get q.url_origin s.allowed_hosts)) semaphore_proof
          (semaphore_payload (without_identity q)) id q r s
          (ap (λ (a : Result (Prepared SemaphoreProofRequest) × Ext). a.0) (sym run) ∙ made) in
      (
        named,
        kept
            ∙ ap (λ (a : Result (Prepared SemaphoreProofRequest) × Ext). a.1) run
            ∙ queued
            ∙ ap
                (λ (a : SemaphoreProofRequest).
                  after (new_request semaphore_proof (semaphore_payload (without_identity a))) s)
                same,
      )

  -- In a state that is reached from the installation, where the generation of a semaphore proof waits
  -- for the user: a refusal, given by the id of the request, gives the queue and the promises back as
  -- they were, settles the promise of that request with the rejection, and no other; the generation
  -- then changes nothing more and throws, where the offscreen page cannot be closed the error of
  -- closing it, as when there is no such page, and otherwise the rejection.
  pub refusal_ends :
      (api : ZkApi) (args : SemaphoreArgs) (url_origin : Option String) (id : String)
      (r : SemaphoreProofRequest) (s : Ext)
      → Reach installed s
      → result (begin_semaphore_proof browser env args url_origin) s ≡ ok (waits id r)
      → let t = after (begin_semaphore_proof browser env args url_origin) s in
        let u = after (finalize_request (record { id = id; status = reject; answer = none })) t in
        (u.pending_requests ≡ s.pending_requests)
        × (u.waiters ≡ s.waiters)
        × (u.effects
            ≡ set_pending_requests s.pending_requests
              ∷ settled id (rejected_with rejection)
              ∷ t.effects)
        × (end_semaphore_proof browser env api (waits id r) (rejected_with rejection) u
            ≡ (refusal_error browser.close_document rejection, u))
  refusal_ends api args url_origin id r s reached h =
      let (named, queued) = waits_made args url_origin id r s h in
      let (_, queue, promises, told) =
        finalize_request-new_request semaphore_proof (semaphore_payload (without_identity r)) reject
          none s reached in
      rw (queued, ← named)
        (queue, promises, told, proof_refused browser env api _ (decimal s.nonce) rejection r)
