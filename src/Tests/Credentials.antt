-- ===== src/Tests/Credentials.antt =====
-- A sample interface for credentials, and calls to the service: a valid credential starts with a mark,
-- and its canonical text is itself.
use crypt_keeper_extension.Prelude.{
  String, true, ◌≡◌, refl, List, [], ◌∷◌, arith, truthy, if◌then◌else◌,
}
use crypt_keeper_extension.Prelude.Text.{◌⧺◌}
use crypt_keeper_extension.Exec.{Result, ok, err, result}
use crypt_keeper_extension.Credentials.{CredentialApi, CryptkeeperCredential, get_all}
use crypt_keeper_extension.Credentials.Ledger.{CredentialLaws, Shows}
use crypt_keeper_extension.Credentials.Keeping.{
  Call, adds, renames, deletes, calls, calls_spec, calls-refine,
}
use crypt_keeper_extension.Tests.Coder.{Coder, text, pair, via, codec, codec-IsCodec}
use crypt_keeper_extension.Tests.Strokes.{put_nat-truthy}
use crypt_keeper_extension.Tests.Sample.{sample, sample-Laws}
use crypt_keeper_extension.Tests.States.{ready}

abbrev credential : Coder CryptkeeperCredential
credential =
    via (pair text (pair text text))
      (λ c. (c.verifiable_credential, (c.metadata.name, c.metadata.hash)))
      (λ t. record {
        verifiable_credential = t.0;
        metadata = record { name = t.1.0; hash = t.1.1 };
      })
      (λ c. refl)

-- All texts but the empty one are valid.
abbrev validated : String → Result String
validated s = if truthy s then ok s else err "invalid"

abbrev credentials : CredentialApi
credentials = record {
  validate = validated;
  sha256 = λ c. "hash of " ⧺ c;
  json_credential = codec credential;
  json_presentation = λ p. "presentation";
}

canonical : (text c : String) → validated text ≡ ok c → validated c ≡ ok c
canonical text c h = ground (arith, h)

canonical-truthy : (text c : String) → validated text ≡ ok c → truthy c ≡ true
canonical-truthy text c h = ground (arith, h)

credentials-Laws : CredentialLaws credentials
credentials-Laws = record {
  canonical = canonical;
  canonical_text = canonical-truthy;
  credential = codec-IsCodec credential;
  credential_text = λ c. put_nat-truthy _ _;
}

nothing_stored : Shows credentials sample [] ready
nothing_stored = record {
  holds = record { key = "word"; held = refl; key_truthy = refl; is_map = tt; loads = refl };
  genuine = tt;
}

abbrev some_calls : List Call
some_calls =
    adds "diploma" "My diploma"
    ∷ adds "diploma" "Again"
    ∷ adds "passport" "Passport"
    ∷ renames "hash of diploma" "Diploma"
    ∷ deletes "hash of passport"
    ∷ []

calls_example :
    ((calls sample credentials some_calls ready).0
      ≡ (calls_spec sample credentials some_calls []).0)
    × (result (get_all sample credentials) (calls sample credentials some_calls ready).1
        ≡ ok (calls_spec sample credentials some_calls []).1)
calls_example =
    calls-refine sample credentials sample-Laws credentials-Laws some_calls [] ready nothing_stored

-- The list after these calls.
some_calls_spec : calls_spec sample credentials some_calls [] ≡ (
  ok tt ∷ err "Verifiable Credential already exists." ∷ ok tt ∷ ok tt ∷ ok tt ∷ [],
  record {
    verifiable_credential = "diploma";
    metadata = record { name = "Diploma"; hash = "hash of diploma" };
  }
      ∷ [],
)
some_calls_spec = refl
