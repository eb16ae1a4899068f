-- ===== src/Tests/Texts.antt =====
-- The theorems on texts, backups, identities and the history at concrete inputs.
use crypt_keeper_extension.Prelude.{ℕ, String, false, ◌≡◌, refl, none, some, List, [], ◌∷◌, ◌++◌}
use mathlib.Core.List.{Perm}
use crypt_keeper_extension.Prelude.Text.{◌⧺◌}
use crypt_keeper_extension.Types
use crypt_keeper_extension.Types.{Operation, OperationType, CreateIdentityArgs}
use crypt_keeper_extension.Exec.{ok, result, after, ◌>>=◌}
use crypt_keeper_extension.Crypto.{generate_encrypted_hmac}
use crypt_keeper_extension.ZkIdentitySemaphore.{create_new_identity}
use crypt_keeper_extension.History.{load_operations, track_operation, sort_by_time, no_options}
use crypt_keeper_extension.History.Order.{IsNewestFirst, at_time, sort_by_time_lem}
use crypt_keeper_extension.History.Reload.{load_operations-track_operation}
use crypt_keeper_extension.Tests.Sample.{sample, sample-Laws, code}
use crypt_keeper_extension.Tests.States.{ready, alice}

backed_up : result (generate_encrypted_hmac sample "data" "pw") ready ≡ ok (code ⧺ "data")
unfolding generate_encrypted_hmac ◌>>=◌
backed_up = refl

abbrev args : CreateIdentityArgs
args = record {
  name = "Account 1";
  groups = [];
  is_deterministic = false;
  is_imported = false;
  account = none;
  message_signature = some "#alice";
  nonce = none;
  trapdoor = none;
  nullifier = none;
}

created : result (create_new_identity sample args) ready ≡ ok alice
unfolding create_new_identity ◌>>=◌
created = refl

abbrev at : String → Operation
at time = record {
  id = time;
  type = Types.create_identity;
  identity = none;
  group = none;
  created_at = time;
}

abbrev operations : List Operation
operations = at "a" ∷ at "bbb" ∷ at "cc" ∷ []

sort_example :
    IsNewestFirst sample (sort_by_time sample operations)
    × Perm (sort_by_time sample operations) operations
    × ((t : ℕ) → at_time sample t (sort_by_time sample operations) ≡ at_time sample t operations)
sort_example = sort_by_time_lem sample operations

reload_example :
    result
      (load_operations sample)
      (after (track_operation sample Types.create_identity no_options) ready)
    ≡ ok (
        sort_by_time sample (
          []
          ++ record {
            id = sample.nanoid 5;
            type = Types.create_identity;
            identity = none;
            group = none;
            created_at = sample.iso_now 5;
          }
            ∷ []))
reload_example =
    load_operations-track_operation sample sample-Laws Types.create_identity no_options "word" ready
      refl refl refl refl
