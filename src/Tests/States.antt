-- ===== src/Tests/States.antt =====
-- A state after onboarding: one identity, one approved host, one connection, all stored.
use crypt_keeper_extension.Prelude.{String, true, false, none, some, [], ◌∷◌}
use crypt_keeper_extension.JsMap.{JsMap}
use crypt_keeper_extension.Types
use crypt_keeper_extension.Types.{
  IdentityMetadata, HostPermission, IdentityConnection, CreateIdentityArgs, ImportIdentityArgs,
}
use crypt_keeper_extension.State.{Ext, Storage, Base, installed}
use crypt_keeper_extension.Lock.{password_checker}
use crypt_keeper_extension.ZkIdentitySemaphore.{ZkIdentitySemaphore}
use crypt_keeper_extension.Tests.Sample.{sample}

abbrev pub details : IdentityMetadata
details = record {
  name = "Account 1";
  groups = [];
  is_deterministic = false;
  is_imported = false;
  account = none;
  nonce = none;
}

abbrev pub alice : ZkIdentitySemaphore
alice = record { zk_identity = "#alice"; metadata = details }

abbrev pub alice_text : String
alice_text =
    sample.json_identity.stringify (record { secret = some "#alice"; metadata = some details })

abbrev pub ids : JsMap String
ids = ("c#alice", alice_text) ∷ []

abbrev pub some_host : HostPermission
some_host = record { url_origin = "https://a.org"; can_skip_approve = true }

abbrev pub hosts : JsMap HostPermission
hosts = ("https://a.org", some_host) ∷ []

abbrev pub link : IdentityConnection
link = record { commitment = "c#alice"; name = "Account 1"; url_origin = "https://a.org" }

abbrev pub links : JsMap IdentityConnection
links = ("https://a.org", link) ∷ []

abbrev open_base : Base
open_base = record { is_unlocked = true; unlock_cb = none }

abbrev pub onboarded : Storage
onboarded = record installed.storage {
  password = some (sample.aes_encrypt 0 password_checker "pw");
  mnemonic = some (sample.aes_encrypt 1 "word" "pw");
  initialization = some Types.mnemonic;
  approvals = some (sample.aes_encrypt 2 (sample.json_hosts.stringify hosts) "word");
  identities = some (sample.aes_encrypt 3 (sample.json_entries.stringify ids) "word");
  connections = some (sample.aes_encrypt 4 (sample.json_connections.stringify links) "word");
  history_settings = some (sample.json_settings.stringify (record { is_enabled = true }));
}

abbrev pub ready : Ext
ready = record installed {
  storage = onboarded;
  secrets = record { password = some "pw"; mnemonic = some "word" };
  locker = open_base;
  approval = open_base;
  identity = open_base;
  connection = open_base;
  identities = ids;
  allowed_hosts = hosts;
  connections = links;
  settings = some (record { is_enabled = true });
  draws = 5;
}

abbrev pub bob : ImportIdentityArgs
bob = record {
  name = "Bob";
  trapdoor = "1";
  nullifier = "2";
  message_signature = "s";
  url_origin = none;
}
