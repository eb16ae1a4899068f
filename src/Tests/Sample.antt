-- ===== src/Tests/Sample.antt =====
-- The sample environment: a ciphertext is the key and the text, an authentication code is 64 zeros,
-- and an identity is its secret with a mark.
use crypt_keeper_extension.Prelude.{
  ℕ, String, true, ◌≡◌, refl, Option, none, some, List, [], ◌∷◌, truthy, ◌==◌, eq_refl, eqb,
  if◌then◌else◌,
}
use crypt_keeper_extension.Prelude.Text.{◌⧺◌, decimal, size}
use crypt_keeper_extension.Types
use crypt_keeper_extension.Types.{
  GroupData, IdentityMetadata, IdentityData, SerializedIdentity, HostPermission, IdentityConnection,
  Operation, OperationType, HistorySettings, Account,
}
use crypt_keeper_extension.Env.{Env, Laws}
use crypt_keeper_extension.Tests.Strokes.{
  put_nat-truthy, marked, with_mark, marked-marked, marked-truthy, marked-with_mark,
  with_mark-truthy,
}
use crypt_keeper_extension.Tests.Coder.{
  Coder, put_text, get_text, get_text-put_text, nat, text, bool, pair, via, option, list, codec,
  codec-IsCodec,
}

abbrev group : Coder GroupData
group =
    via
      (pair text
        (pair text (pair (option text) (pair (option text) (pair (option text) (option text))))))
      (λ g. (g.id, (g.name, (g.favicon, (g.description, (g.api, g.contract))))))
      (λ t. record {
        id = t.0;
        name = t.1.0;
        favicon = t.1.1.0;
        description = t.1.1.1.0;
        api = t.1.1.1.1.0;
        contract = t.1.1.1.1.1;
      })
      (λ g. refl)

abbrev metadata : Coder IdentityMetadata
metadata =
    via (pair text (pair (list group) (pair bool (pair bool (pair (option text) (option nat))))))
      (λ m. (m.name, (m.groups, (m.is_deterministic, (m.is_imported, (m.account, m.nonce))))))
      (λ t. record {
        name = t.0;
        groups = t.1.0;
        is_deterministic = t.1.1.0;
        is_imported = t.1.1.1.0;
        account = t.1.1.1.1.0;
        nonce = t.1.1.1.1.1;
      })
      (λ m. refl)

abbrev identity : Coder SerializedIdentity
identity =
    via (pair (option text) (option metadata)) (λ i. (i.secret, i.metadata))
      (λ t. record { secret = t.0; metadata = t.1 }) (λ i. refl)

abbrev identity_data : Coder IdentityData
identity_data =
    via (pair text metadata) (λ i. (i.commitment, i.metadata))
      (λ t. record { commitment = t.0; metadata = t.1 }) (λ i. refl)

abbrev host : Coder HostPermission
host =
    via (pair text bool) (λ h. (h.url_origin, h.can_skip_approve))
      (λ t. record { url_origin = t.0; can_skip_approve = t.1 }) (λ h. refl)

abbrev connection : Coder IdentityConnection
connection =
    via (pair text (pair text text)) (λ c. (c.commitment, (c.name, c.url_origin)))
      (λ t. record { commitment = t.0; name = t.1.0; url_origin = t.1.1 }) (λ c. refl)

abbrev number_of : OperationType → ℕ
number_of Types.create_identity = 0
number_of Types.import_identity = 1
number_of Types.delete_identity = 2
number_of Types.delete_all_identities = 3
number_of Types.download_backup = 4
number_of Types.upload_backup = 5
number_of Types.reset_password = 6
number_of Types.add_verifiable_credential = 7
number_of Types.rename_verifiable_credential = 8
number_of Types.delete_verifiable_credential = 9
number_of Types.delete_all_verifiable_credentials = 10
number_of Types.reject_verifiable_credential_request = 11
number_of Types.generate_verifiable_presentation = 12
number_of Types.reject_verifiable_presentation_request = 13
number_of Types.reveal_identity_commitment = 14
number_of Types.join_group = 15

abbrev pick : ℕ → OperationType → List (ℕ × OperationType) → OperationType
pick n t [] = t
pick n t ((k, u) ∷ more) = if eqb n k then u else pick n t more

abbrev of_number : ℕ → OperationType
of_number n = pick n Types.join_group (
    (0, Types.create_identity)
    ∷ (1, Types.import_identity)
    ∷ (2, Types.delete_identity)
    ∷ (3, Types.delete_all_identities)
    ∷ (4, Types.download_backup)
    ∷ (5, Types.upload_backup)
    ∷ (6, Types.reset_password)
    ∷ (7, Types.add_verifiable_credential)
    ∷ (8, Types.rename_verifiable_credential)
    ∷ (9, Types.delete_verifiable_credential)
    ∷ (10, Types.delete_all_verifiable_credentials)
    ∷ (11, Types.reject_verifiable_credential_request)
    ∷ (12, Types.generate_verifiable_presentation)
    ∷ (13, Types.reject_verifiable_presentation_request)
    ∷ (14, Types.reveal_identity_commitment)
    ∷ [])

pub of_number-number_of : (t : OperationType) → of_number (number_of t) ≡ t
of_number-number_of Types.create_identity = refl
of_number-number_of Types.import_identity = refl
of_number-number_of Types.delete_identity = refl
of_number-number_of Types.delete_all_identities = refl
of_number-number_of Types.download_backup = refl
of_number-number_of Types.upload_backup = refl
of_number-number_of Types.reset_password = refl
of_number-number_of Types.add_verifiable_credential = refl
of_number-number_of Types.rename_verifiable_credential = refl
of_number-number_of Types.delete_verifiable_credential = refl
of_number-number_of Types.delete_all_verifiable_credentials = refl
of_number-number_of Types.reject_verifiable_credential_request = refl
of_number-number_of Types.generate_verifiable_presentation = refl
of_number-number_of Types.reject_verifiable_presentation_request = refl
of_number-number_of Types.reveal_identity_commitment = refl
of_number-number_of Types.join_group = refl

abbrev operation_type : Coder OperationType
operation_type = via nat number_of of_number of_number-number_of

abbrev operation : Coder Operation
operation =
    via (pair text (pair operation_type (pair (option identity_data) (pair (option text) text))))
      (λ o. (o.id, (o.type, (o.identity, (o.group, o.created_at)))))
      (λ t. record {
        id = t.0;
        type = t.1.0;
        identity = t.1.1.0;
        group = t.1.1.1.0;
        created_at = t.1.1.1.1;
      })
      (λ o. refl)

abbrev settings : Coder HistorySettings
settings = via bool (λ s. s.is_enabled) (λ b. record { is_enabled = b }) (λ s. refl)

abbrev account : Coder Account
account =
    via (pair text (pair text text)) (λ a. (a.public_key, (a.private_key, a.address)))
      (λ t. record { public_key = t.0; private_key = t.1.0; address = t.1.1 }) (λ a. refl)

abbrev opened : String → Option (String × String) → Option String
opened key none = none
opened key (some (k, plain)) = if k == key then some plain else none

abbrev pub code : String
code = "0000000000000000000000000000000000000000000000000000000000000000"

abbrev pub sample : Env
sample = record {
  aes_encrypt = λ n plain key. put_text key plain;
  aes_decrypt = λ c key. opened key (get_text c);
  hmac = λ plain key. code;
  validate_mnemonic = λ m. truthy m;
  generate_mnemonic = λ n. "word";
  identity_of = marked;
  random_identity = λ n. with_mark (decimal n);
  identity_commitment = λ i. "c" ⧺ i;
  json_pair = λ a b. a ⧺ "," ⧺ b;
  wallet_from_phrase = λ m. record { public_key = "public"; private_key = m; address = "0xAA" };
  sign_message = λ k m. k ⧺ m;
  to_lower_case = λ s. s;
  nanoid = λ n. "id" ⧺ decimal n;
  iso_now = λ n. decimal n;
  time_of = size;
  json_entries = codec (list (pair text text));
  json_hosts = codec (list (pair text host));
  json_connections = codec (list (pair text connection));
  json_identity = codec identity;
  json_operations = codec (list operation);
  json_settings = codec settings;
  json_accounts = codec (list account);
}

decrypts :
    (n : ℕ) (plain key : String)
    → sample.aes_decrypt (sample.aes_encrypt n plain key) key ≡ some plain
decrypts n plain key = rw (get_text-put_text key plain, eq_refl key) refl

identity-truthy :
    (secret : Option String) (m : Option IdentityMetadata)
    → truthy (sample.json_identity.stringify (record { secret = secret; metadata = m })) ≡ true
identity-truthy none m = put_nat-truthy 0 _
identity-truthy (some a) m = put_nat-truthy 1 _

pub sample-Laws : Laws sample
sample-Laws = record {
  decrypt_encrypt = decrypts;
  encrypt_truthy = λ n plain key. put_nat-truthy (size key) (key ⧺ plain);
  hmac_size = λ plain key. refl;
  identity_of_text = marked-marked;
  identity_of_random = λ n. marked-with_mark (decimal n);
  identity_truthy = marked-truthy;
  random_truthy = λ n. with_mark-truthy (decimal n);
  entries = codec-IsCodec (list (pair text text));
  hosts = codec-IsCodec (list (pair text host));
  connections = codec-IsCodec (list (pair text connection));
  identity = codec-IsCodec identity;
  identity_text = λ a. identity-truthy a.secret a.metadata;
  operations = codec-IsCodec (list operation);
  settings = codec-IsCodec settings;
  settings_text = λ a. put_nat-truthy _ "";
  accounts = codec-IsCodec (list account);
}
