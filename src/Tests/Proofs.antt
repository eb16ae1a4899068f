-- ===== src/Tests/Proofs.antt =====
-- Proofs in the sample state, with sample libraries.
use crypt_keeper_extension.Prelude.{String, true, false, ◌≡◌, refl, none, some, [], ◌∷◌}
use crypt_keeper_extension.Prelude.Text.{◌⧺◌, decimal}
use crypt_keeper_extension.JsMap
use crypt_keeper_extension.Requests.{
  MerkleProof, MerkleProofInputs, Circuit, SemaphoreProofRequest, RlnProofRequest, rejected_with,
  reject,
}
use crypt_keeper_extension.State.{Ext, installed, set_pending_requests, settled}
use crypt_keeper_extension.Exec.{Result, ok, err, ◌>>=◌, after, result}
use crypt_keeper_extension.ZkIdentity
use crypt_keeper_extension.ZkIdentity.{ellipsify}
use crypt_keeper_extension.Connection
use crypt_keeper_extension.Approval
use crypt_keeper_extension.Browser
use crypt_keeper_extension.RequestManager
use crypt_keeper_extension.Protocol
use crypt_keeper_extension.ZkIdentitySemaphore.{gen_from_serialized, serialize}
use crypt_keeper_extension.Validation.{text_source, validate_merkle_proof_source}
use crypt_keeper_extension.Validation.Sources.{IsSource, validate_merkle_proof_source-IsSource}
use crypt_keeper_extension.ZkProof.{ZkApi}
use crypt_keeper_extension.Protocol.{
  BrowserApi, SemaphoreArgs, Prepared, ready, waits, begin_semaphore_proof, end_semaphore_proof,
  end_rln_proof,
}
use crypt_keeper_extension.Protocol.Consent.{
  IsFor, IsAsked, semaphore_payload_of, begin_semaphore_proof_asks,
}
use crypt_keeper_extension.Protocol.Refusal.{refusal_ends}
use crypt_keeper_extension.RequestManager.{finalize_request, rejection}
use crypt_keeper_extension.RequestManager.Queue.{Reach, here, next, elsewhere}
use crypt_keeper_extension.Tests.Sample.{sample}
use crypt_keeper_extension.Tests.States as States

abbrev a_org : String
a_org = "https://a.org"

abbrev proof : MerkleProof
proof = record { root = "1"; leaf = "2"; siblings = "3" ∷ []; path_indices = 0 ∷ [] }

abbrev libraries : ZkApi
libraries = record {
  big_int = λ t. ok t;
  hex_to_bigint = λ t. ok t;
  poseidon1 = λ a. a;
  poseidon2 = λ a b. a ⧺ b;
  identity_secret = λ i. i;
  fetch_merkle_proof = λ url c. ok proof;
  group_merkle_proof = λ depth members c. ok proof;
  semaphore_prove = λ i p n s w z. ok "proof";
  rln_prove = λ w z inputs. ok "proof";
}

abbrev browser_with : Result Unit → BrowserApi
browser_with close = record {
  user_agent = "Mozilla/5.0 Firefox/119.0";
  is_brave = false;
  get_url = λ path. "moz-extension://" ⧺ path;
  has_document = ok true;
  create_document = ok tt;
  close_document = close;
  is_delivered = true;
}

abbrev args : SemaphoreArgs
args = record {
  external_nullifier = "1";
  signal = "hello";
  source = some (text_source "https://b.org/proof");
}

-- The sample state, where the host has to ask.
abbrev asking : Ext
asking = record States.ready {
  allowed_hosts = ("https://a.org", record { url_origin = a_org; can_skip_approve = false }) ∷ [];
}

asking-Reach : Reach installed asking
asking-Reach = next here (elsewhere refl refl refl)

abbrev inputs : MerkleProofInputs
inputs = record {
  merkle_storage_url = some "https://b.org/proof";
  merkle_proof_artifacts = none;
  merkle_proof_provided = none;
}

abbrev circuit : Circuit
circuit = record {
  circuit_file_path = "moz-extension://js/zkeyFiles/semaphore/semaphore.wasm";
  zkey_file_path = "moz-extension://js/zkeyFiles/semaphore/semaphore.zkey";
  verification_key = "moz-extension://js/zkeyFiles/semaphore/semaphore.json";
}

abbrev request : SemaphoreProofRequest
request = record {
  external_nullifier = "1";
  signal = "hello";
  merkle = inputs;
  identity_serialized = some States.alice_text;
  circuit = circuit;
  url_origin = a_org;
}

abbrev rln_request : RlnProofRequest
rln_request = record {
  rln_identifier = "1";
  message = "hello";
  epoch = "1";
  message_limit = 1;
  message_id = 0;
  merkle = inputs;
  identity_serialized = some States.alice_text;
  circuit = circuit;
  url_origin = a_org;
}

source_passes : validate_merkle_proof_source (some (text_source "https://b.org/proof")) ≡ ok inputs
unfolding validate_merkle_proof_source
source_passes = refl

source_example : IsSource (text_source "https://b.org/proof") inputs
source_example =
    validate_merkle_proof_source-IsSource (text_source "https://b.org/proof") inputs source_passes

begins :
    result (begin_semaphore_proof (browser_with (ok tt)) sample args (some a_org)) asking
    ≡ ok (waits "0" request)
unfolding begin_semaphore_proof Protocol.prepare_semaphore_proof Protocol.circuit_of
    Approval.can_skip_approve validate_merkle_proof_source Connection.get_connected_identity
    ZkIdentity.get_identity gen_from_serialized serialize JsMap.get RequestManager.new_request
    Browser.open_popup decimal ◌>>=◌
begins = refl

asks_example :
    IsFor sample (browser_with (ok tt)) request (some a_org) asking
    × IsAsked semaphore_payload_of a_org
        (waits "0" request)
        asking
        (after (begin_semaphore_proof (browser_with (ok tt)) sample args (some a_org)) asking)
asks_example =
    begin_semaphore_proof_asks sample (browser_with (ok tt)) args (some a_org) asking
      (waits "0" request) begins

-- a browser that has no offscreen page to close
abbrev without_page : BrowserApi
without_page = browser_with (err "No current offscreen document.")

begins_without_page :
    result (begin_semaphore_proof without_page sample args (some a_org)) asking
    ≡ ok (waits "0" request)
unfolding begin_semaphore_proof Protocol.prepare_semaphore_proof Protocol.circuit_of
    Approval.can_skip_approve validate_merkle_proof_source Connection.get_connected_identity
    ZkIdentity.get_identity gen_from_serialized serialize JsMap.get RequestManager.new_request
    Browser.open_popup decimal ◌>>=◌
begins_without_page = refl

refused_example :
    let t = after (begin_semaphore_proof without_page sample args (some a_org)) asking in
    let u = after (finalize_request (record { id = "0"; status = reject; answer = none })) t in
    (u.pending_requests ≡ [])
    × (u.waiters ≡ [])
    × (u.effects ≡ set_pending_requests [] ∷ settled "0" (rejected_with rejection) ∷ t.effects)
    × (end_semaphore_proof without_page sample libraries
          (waits "0" request)
          (rejected_with rejection)
          u
        ≡ (err "No current offscreen document.", u))
refused_example =
    refusal_ends sample without_page libraries args (some a_org) "0" request asking asking-Reach
      begins_without_page
