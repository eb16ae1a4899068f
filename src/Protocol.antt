-- ===== src/Protocol.antt =====
-- services/protocol: proofs for a page. The generation of a proof waits for the user, where the page
-- cannot skip the approval, so it comes in two parts: what runs before, and what the answer continues.
pub mod Consent
pub mod Refusal
use crypt_keeper_extension.Prelude.{
  ℕ, String, Bool, true, false, not, ◌||◌, Option, none, some, present, truthy, if◌then◌else◌,
}
use crypt_keeper_extension.Prelude.Text.{◌⧺◌, includes}
use crypt_keeper_extension.Requests.{
  MerkleProofInputs, Circuit, SemaphoreProofRequest, RlnProofRequest, RequestPayload, Outcome,
  PendingRequestType, semaphore_proof, rln_proof, semaphore_payload, rln_payload, resolved_with,
  rejected_with,
}
use crypt_keeper_extension.Env.{Env}
use crypt_keeper_extension.Exec.{
  M, Result, ok, err, pure, throw, lift, catch, attempt, ◌>>=◌, ◌>>◌, gets, require, or_throw,
}
use crypt_keeper_extension.Browser
use crypt_keeper_extension.RequestManager
use crypt_keeper_extension.Approval
use crypt_keeper_extension.Connection
use crypt_keeper_extension.ZkIdentitySemaphore.{ZkIdentitySemaphore, serialize}
use crypt_keeper_extension.Validation.{MerkleProofSource, validate_merkle_proof_source}
use crypt_keeper_extension.ZkProof.{
  ZkApi, prefixed, generate_semaphore_proof, generate_rln_proof, offscreen_semaphore_proof,
  offscreen_rln_proof,
}

pub data BrowserPlatform : Type 0 where
  firefox brave edge opera chrome : BrowserPlatform

-- The browser, as background/shared/utils.ts and util/pushMessage.ts call it.
pub record BrowserApi : Type 0 where
  pub user_agent : String
  pub is_brave : Bool
  pub get_url : String → String
  pub has_document : Result Bool
  pub create_document : Result Unit
  pub close_document : Result Unit
  -- whether a message reaches the offscreen page
  pub is_delivered : Bool

-- The arguments of a page.
pub record SemaphoreArgs : Type 0 where
  pub external_nullifier : String
  pub signal : String
  pub source : Option MerkleProofSource

pub record RlnArgs : Type 0 where
  pub rln_identifier : String
  pub message : String
  pub epoch : String
  pub message_limit : ℕ
  pub message_id : ℕ
  pub source : Option MerkleProofSource

-- A checked request that is ready, or that waits for the user's answer under an id.
pub data Prepared (R : Type 0) : Type 0 where
  ready : R → Prepared R
  waits : String → R → Prepared R

-- `newRequest` after the promise is settled: the popup is closed if the user has accepted.
unfoldable pub answered : Outcome → M (Option Bool)
answered (resolved_with answer) = do Browser.close_popup; pure answer
answered (rejected_with reason) = throw reason

-- What waits goes on with the user's answer.
unfoldable pub proceed : {R : Type 0} → Prepared R → Outcome → M R
unfolding answered
proceed (ready request) outcome = pure request
proceed (waits id request) outcome = do answered outcome; pure request

-- `omit(request, ["identitySerialized"])`
abbrev pub without_identity : SemaphoreProofRequest → SemaphoreProofRequest
without_identity r = record r { identity_serialized = none }

abbrev pub without_rln_identity : RlnProofRequest → RlnProofRequest
without_rln_identity r = record r { identity_serialized = none }

-- `if (!canSkipApprove) { … }`
pub ask : {R : Type 0} → Bool → PendingRequestType → RequestPayload → R → M (Prepared R)
ask true type payload request = pure (ready request)
ask false type payload request = do
  id ← RequestManager.new_request type payload
  pure (waits id request)

-- `finally { await closeChromeOffscreen() }`: its own error comes first.
unfoldable pub finally_close : {A : Type 0} → BrowserApi → Result A → M A
finally_close browser answer = do lift browser.close_document; lift answer

module _ (browser : BrowserApi) where
  unfoldable pub get_browser_platform : BrowserPlatform
  get_browser_platform =
      if includes browser.user_agent "Firefox"
      then firefox
      else (if browser.is_brave
          then brave
          else (if includes browser.user_agent "Edg/"
              then edge
              else (if includes browser.user_agent "OPR/" then opera else chrome)))

  create_from : Bool → M Unit
  create_from true = pure tt
  create_from false =
      catch (lift browser.create_document) (λ _. throw "CryptKeeper could not create an Offscreen")

  unfoldable pub create_chrome_offscreen : M Unit
  unfolding create_from
  create_chrome_offscreen = do is_available ← lift browser.has_document; create_from is_available

  -- The three files of a protocol.
  unfoldable pub circuit_of : String → Circuit
  circuit_of name = record {
    circuit_file_path = browser.get_url ("js/zkeyFiles/" ⧺ name ⧺ "/" ⧺ name ⧺ ".wasm");
    zkey_file_path = browser.get_url ("js/zkeyFiles/" ⧺ name ⧺ "/" ⧺ name ⧺ ".zkey");
    verification_key = browser.get_url ("js/zkeyFiles/" ⧺ name ⧺ "/" ⧺ name ⧺ ".json");
  }

  abbrev pub has_paths : Circuit → Bool
  has_paths c = not (not (truthy c.circuit_file_path) || not (truthy c.zkey_file_path))

  -- `pushMessage` to the offscreen page: an error, on either side, becomes `undefined`.
  unfoldable pub push_offscreen : Result String → Option String
  push_offscreen (ok proof) = if browser.is_delivered then some proof else none
  push_offscreen (err e) = none

  module _ (env : Env) where
    -- `identity?.serialize()`
    serialized_of : Option ZkIdentitySemaphore → Option String
    serialized_of none = none
    serialized_of (some z) = present (some (serialize env z))

    unfoldable pub prepare_semaphore_proof :
        SemaphoreArgs → Option String → M (Prepared SemaphoreProofRequest)
    unfolding serialized_of ask
    prepare_semaphore_proof args url_origin = do
      origin ← or_throw (present url_origin) "CryptKeeper: Origin is not set"
      can_skip ← Approval.can_skip_approve origin
      inputs ← lift (validate_merkle_proof_source args.source)
      found ← Connection.get_connected_identity env (some origin)
      identity ← or_throw (serialized_of found) "CryptKeeper: connected identity is not found"
      require (has_paths (circuit_of "semaphore"))
          "CryptKeeper: Must set Semaphore circuitFilePath and zkeyFilePath"
      let request : SemaphoreProofRequest = record {
        external_nullifier = args.external_nullifier;
        signal = args.signal;
        merkle = inputs;
        identity_serialized = some identity;
        circuit = circuit_of "semaphore";
        url_origin = origin;
      }
      ask can_skip semaphore_proof (semaphore_payload (without_identity request)) request

    unfoldable pub prepare_rln_proof : RlnArgs → Option String → M (Prepared RlnProofRequest)
    unfolding serialized_of ask
    prepare_rln_proof args url_origin = do
      origin ← or_throw (present url_origin) "CryptKeeper: Origin is not set"
      can_skip ← Approval.can_skip_approve origin
      inputs ← lift (validate_merkle_proof_source args.source)
      found ← Connection.get_connected_identity env (some origin)
      identity ← or_throw (serialized_of found) "CryptKeeper: connected identity is not found"
      require (has_paths (circuit_of "rln"))
          "CryptKeeper: Must set RLN circuitFilePath and zkeyFilePath"
      let request : RlnProofRequest = record {
        rln_identifier = args.rln_identifier;
        message = args.message;
        epoch = args.epoch;
        message_limit = args.message_limit;
        message_id = args.message_id;
        merkle = inputs;
        identity_serialized = some identity;
        circuit = circuit_of "rln";
        url_origin = origin;
      }
      ask can_skip rln_proof (rln_payload (without_rln_identity request)) request

    -- The first part of a generation: an error is prefixed, and the `finally` runs.
    pub begins : {R : Type 0} → String → M (Prepared R) → M (Prepared R)
    begins prefix prepare = do
      answer ← attempt prepare
      elim answer [ ok prepared ↦ pure prepared | err e ↦ finally_close browser (err (prefix ⧺ e)) ]

    -- The second part, from the user's answer on.
    ends :
        {R : Type 0} → String → (R → M (Option String)) → Prepared R → Outcome → M (Option String)
    ends prefix prove prepared outcome = do
      answer ← attempt (do request ← proceed prepared outcome; prove request)
      finally_close browser (prefixed prefix answer)

    module _ (api : ZkApi) where
      -- On Firefox the proof is made in the background page, elsewhere in the offscreen page. An
      -- identity that was disconnected meanwhile is `undefined`.
      prove_semaphore : SemaphoreProofRequest → M (Option String)
      unfolding push_offscreen create_chrome_offscreen
      prove_semaphore request = elim get_browser_platform [
        | firefox ↦ (do
          found ← Connection.get_connected_identity env (some request.url_origin)
          z ← or_throw found "Cannot read properties of undefined"
          proof ← lift (generate_semaphore_proof api env z request)
          pure (some proof))
        | _ ↦ (do
          create_chrome_offscreen
          pure (push_offscreen (offscreen_semaphore_proof api env request)))
      ]

      prove_rln : RlnProofRequest → M (Option String)
      unfolding push_offscreen create_chrome_offscreen
      prove_rln request = elim get_browser_platform [
        | firefox ↦ (do
          found ← Connection.get_connected_identity env (some request.url_origin)
          z ← or_throw found "Cannot read properties of undefined"
          proof ← lift (generate_rln_proof api env z request)
          pure (some proof))
        | _ ↦ (do
          create_chrome_offscreen
          pure (push_offscreen (offscreen_rln_proof api env request)))
      ]

      unfoldable pub end_semaphore_proof :
          Prepared SemaphoreProofRequest → Outcome → M (Option String)
      unfolding ends prove_semaphore
      end_semaphore_proof = ends "CryptKeeper: Error in generating Semaphore proof " prove_semaphore

      unfoldable pub end_rln_proof : Prepared RlnProofRequest → Outcome → M (Option String)
      unfolding ends prove_rln
      end_rln_proof = ends "CryptKeeper: Error in generating RLN proof " prove_rln

    unfoldable pub begin_semaphore_proof :
        SemaphoreArgs → Option String → M (Prepared SemaphoreProofRequest)
    unfolding begins
    begin_semaphore_proof args url_origin =
        begins "CryptKeeper: Error in generating Semaphore proof "
          (prepare_semaphore_proof args url_origin)

    unfoldable pub begin_rln_proof : RlnArgs → Option String → M (Prepared RlnProofRequest)
    unfolding begins
    begin_rln_proof args url_origin =
        begins "CryptKeeper: Error in generating RLN proof " (prepare_rln_proof args url_origin)
