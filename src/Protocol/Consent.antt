-- ===== src/Protocol/Consent.antt =====
-- A proof for a page is made for its connected identity, and with the user's consent.
use crypt_keeper_extension.Prelude.{
  ℕ, some_of_present, String, Bool, true, false, ◌≡◌, refl, ap, sym, subst, ◌∙◌, Option, none, some,
  [], ◌∷◌, ◌++◌, present, truthy, arith, Bool-cases, Option-cases, inl, inr,
}
use crypt_keeper_extension.Prelude.Text.{◌⧺◌, decimal}
use crypt_keeper_extension.JsMap
use crypt_keeper_extension.Requests.{
  SemaphoreProofRequest, RlnProofRequest, Outcome, rejected_with, PendingRequestType,
  RequestPayload, semaphore_proof, semaphore_payload,
}
use crypt_keeper_extension.State.{Ext}
use crypt_keeper_extension.Env.{Env}
use crypt_keeper_extension.Exec.{
  M, Result, ok_injective, ok, err, Result-cases, ◌>>=◌, after, result, >>=_of_ok, pure,
}
use crypt_keeper_extension.Approval
use crypt_keeper_extension.Approval.{skips}
use crypt_keeper_extension.Connection
use crypt_keeper_extension.Connection.Reading.{get_connected_identity-reads}
use crypt_keeper_extension.RequestManager
use crypt_keeper_extension.RequestManager.Queue.{new_request_memory}
use crypt_keeper_extension.ZkIdentitySemaphore.{ZkIdentitySemaphore, serialize}
use crypt_keeper_extension.Validation.{validate_merkle_proof_source}
use crypt_keeper_extension.ZkProof.{ZkApi}
use crypt_keeper_extension.Protocol.{
  BrowserApi, SemaphoreArgs, Prepared, ready, waits, finally_close, begins, ask,
  prepare_semaphore_proof, begin_semaphore_proof, end_semaphore_proof, end_rln_proof, has_paths,
  circuit_of, without_identity, proceed,
}

-- What closing the offscreen page makes of an answer.
abbrev pub closing : {A : Type 0} → BrowserApi → Result A → Result A
closing browser answer = elim browser.close_document [ ok _ ↦ answer | err e ↦ err e ]

finally_close_lem :
    {A : Type 0} (browser : BrowserApi) (answer : Result A) (s : Ext)
    → finally_close browser answer s ≡ (closing browser answer, s)
unfolding finally_close ◌>>=◌
finally_close_lem browser answer s = ground arith

-- What the page gets for a refusal: the error of closing the offscreen page, or else the refusal.
abbrev pub refusal_error : Result Unit → String → Result (Option String)
refusal_error (err e) reason = err e
refusal_error (ok u) reason = err ("CryptKeeper: Error in generating Semaphore proof " ⧺ reason)

module _ (browser : BrowserApi) (env : Env) (api : ZkApi) (s : Ext) where
  -- Where the offscreen page cannot be closed, as in a browser without such pages, both generations
  -- throw that error, whatever the request, the answer and the proof.
  pub proof_lost :
      (e : String) (semaphore : Prepared SemaphoreProofRequest) (rln : Prepared RlnProofRequest)
      (outcome : Outcome)
      → browser.close_document ≡ err e
      → (result (end_semaphore_proof browser env api semaphore outcome) s ≡ err e)
        × (result (end_rln_proof browser env api rln outcome) s ≡ err e)
  unfolding end_semaphore_proof end_rln_proof finally_close ◌>>=◌
  proof_lost e semaphore rln outcome broken = rw broken (refl, refl)

  -- A refusal ends a generation that waits with an error, and changes nothing.
  pub proof_refused :
      (id reason : String) (r : SemaphoreProofRequest)
      → end_semaphore_proof browser env api (waits id r) (rejected_with reason) s
        ≡ (refusal_error browser.close_document reason, s)
  unfolding end_semaphore_proof proceed finally_close ◌>>=◌
  proof_refused id reason r = elim (Result-cases browser.close_document) [
    | inl (e, broken) ↦ rw broken refl
    | inr (u, works) ↦ rw works refl
  ]

abbrev pub request_of : {R : Type 0} → Prepared R → R
request_of (ready r) = r
request_of (waits id r) = r

-- What the first part of a generation does for an origin, if it returns.
abbrev pub IsAsked :
    {R : Type 0}
    → (R → PendingRequestType × RequestPayload)
    → String
    → Prepared R
    → Ext
    → Ext
    → Type 0
IsAsked payload origin (ready r) s t =
    (skips (JsMap.get origin s.allowed_hosts) ≡ true) × (t.pending_requests ≡ s.pending_requests)
IsAsked payload origin (waits id r) s t =
    (skips (JsMap.get origin s.allowed_hosts) ≡ false)
    × (id ≡ decimal s.nonce)
    × ((window : ℕ) × (t.pending_requests
          ≡ s.pending_requests
            ++ record { id = id; window_id = window; type = (payload r).0; payload = (payload r).1 }
              ∷ []))

-- The request that goes to the queue, without the identity.
abbrev pub semaphore_payload_of : SemaphoreProofRequest → PendingRequestType × RequestPayload
semaphore_payload_of r = (semaphore_proof, semaphore_payload (without_identity r))

ask_lem :
    {R : Type 0} (payload : R → PendingRequestType × RequestPayload) (origin : String) (skip : Bool)
    (r : R) (p : Prepared R) (s : Ext)
    → skips (JsMap.get origin s.allowed_hosts) ≡ skip
    → result (ask skip (payload r).0 (payload r).1 r) s ≡ ok p
    → (request_of p ≡ r)
      × IsAsked payload origin p s (after (ask skip (payload r).0 (payload r).1 r) s)
unfolding ask pure
ask_lem {R} payload origin true r p s skip h = let e : p ≡ ready r = cc in rw e (refl, (skip, refl))
ask_lem {R} payload origin false r p s skip h =
    let (window, queue, promises, _, made) = new_request_memory (payload r).0 (payload r).1 s in
    let run =
      >>=_of_ok (RequestManager.new_request (payload r).0 (payload r).1) (λ id. pure (waits id r)) s
        (decimal s.nonce) made in
    let e : p ≡ waits (decimal s.nonce) r =
      ok_injective (sym h ∙ ap (λ (q : Result (Prepared R) × Ext). q.0) run) in
    rw e (
      refl,
      subst
          (λ (q : Result (Prepared R) × Ext).
            IsAsked payload origin (waits (decimal s.nonce) r) s q.1)
          (sym run) (skip, refl, (window, queue)),
    )

module _ (env : Env) where
  module _ (browser : BrowserApi) where
    -- The request of a page, as it is made for its connected identity.
    abbrev pub IsFor : SemaphoreProofRequest → Option String → Ext → Type 0
    IsFor r url_origin s =
        (url_origin ≡ some r.url_origin)
        × ((z : ZkIdentitySemaphore) × (result
                (Connection.get_connected_identity env (some r.url_origin)) s
              ≡ ok (some z))
            × (r.identity_serialized ≡ some (serialize env z)))

    pub begins_ok :
        {R : Type 0} (prefix : String) (m : M (Prepared R)) (s : Ext) (p : Prepared R)
        → result (begins browser env prefix m) s ≡ ok p
        → (result m s ≡ ok p) × (after (begins browser env prefix m) s ≡ after m s)
    unfolding begins finally_close ◌>>=◌
    begins_ok prefix m s p h = elim (Result-cases (result m s)) [
      | inl (e, failed) ↦ absurd (ground (arith, failed, h))
      | inr (q, made) ↦ ground (arith, made, h)
    ]

    pub prepared_lem :
        (args : SemaphoreArgs) (url_origin : Option String) (s : Ext)
        (p : Prepared SemaphoreProofRequest)
        → result (prepare_semaphore_proof browser env args url_origin) s ≡ ok p
        → (r : SemaphoreProofRequest) × IsFor r url_origin s
          × (prepare_semaphore_proof browser env args url_origin s
              ≡ ask
                  (skips (JsMap.get r.url_origin s.allowed_hosts))
                  semaphore_proof
                  (semaphore_payload (without_identity r))
                  r
                  s)
    unfolding prepare_semaphore_proof Approval.can_skip_approve ◌>>=◌
    prepared_lem args url_origin s p h = elim (Option-cases (present url_origin)) [
      | inl missing ↦ absurd (ground (arith, missing, h))
      | inr (origin, given) ↦ elim (Result-cases (validate_merkle_proof_source args.source)) [
        | inl (e, invalid) ↦ absurd (ground (arith, given, invalid, h))
        | inr (inputs, valid) ↦
            elim (Result-cases (result (Connection.get_connected_identity env (some origin)) s)) [
              | inl (e, broken) ↦ absurd (ground (arith, given, valid, broken, h))
              | inr (none, unconnected) ↦ absurd (ground (arith, given, valid, unconnected, h))
              | inr (some z, connected) ↦ elim (Bool-cases (truthy (serialize env z))) [
                | inr empty ↦ absurd (
                    ground (
                      arith,
                      given,
                      valid,
                      connected,
                      get_connected_identity-reads env (some origin) s,
                      empty,
                      h,
                    ))
                | inl full ↦
                    elim (Bool-cases (has_paths browser (circuit_of browser "semaphore"))) [
                      | inr pathless ↦ absurd (
                          ground (
                            arith,
                            given,
                            valid,
                            connected,
                            get_connected_identity-reads env (some origin) s,
                            full,
                            pathless,
                            h,
                          ))
                      | inl paths ↦ (
                        record {
                          external_nullifier = args.external_nullifier;
                          signal = args.signal;
                          merkle = inputs;
                          identity_serialized = some (serialize env z);
                          circuit = circuit_of browser "semaphore";
                          url_origin = origin;
                        },
                        (some_of_present url_origin origin given, (z, connected, refl)),
                        ground (
                          arith,
                          given,
                          valid,
                          connected,
                          get_connected_identity-reads env (some origin) s,
                          full,
                          paths,
                        ),
                      )
                    ]
              ]
            ]
      ]
    ]

    -- The first part of a generation, where it returns for a page: the request is for the identity that
    -- is connected to the page's origin, and it is ready at once only if that origin can skip the
    -- approval; otherwise it waits, and one request is added to the queue, without the identity.
    pub begin_semaphore_proof_asks :
        (args : SemaphoreArgs) (url_origin : Option String) (s : Ext)
        (p : Prepared SemaphoreProofRequest)
        → result (begin_semaphore_proof browser env args url_origin) s ≡ ok p
        → IsFor (request_of p) url_origin s
          × IsAsked semaphore_payload_of
              (request_of p).url_origin
              p
              s
              (after (begin_semaphore_proof browser env args url_origin) s)
    unfolding begin_semaphore_proof begins
    begin_semaphore_proof_asks args url_origin s p h =
        let (made, kept) =
          begins_ok "CryptKeeper: Error in generating Semaphore proof "
            (prepare_semaphore_proof browser env args url_origin) s p h in
        let (r, owned, run) = prepared_lem args url_origin s p made in
        let (same, asked) =
          ask_lem semaphore_payload_of r.url_origin _ r p s refl
            (ap (λ (q : Result (Prepared SemaphoreProofRequest) × Ext). q.0) (sym run) ∙ made) in
        rw same (
          owned,
          subst (λ (t : Ext). IsAsked semaphore_payload_of r.url_origin p s t)
              (sym (kept ∙ ap (λ (q : Result (Prepared SemaphoreProofRequest) × Ext). q.1) run))
              asked,
        )
