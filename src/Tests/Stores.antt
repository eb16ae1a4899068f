-- ===== src/Tests/Stores.antt =====
-- The stored maps of the sample state, and the theorems on them.
use crypt_keeper_extension.Prelude.{true, false, ◌≡◌, refl, none, some, List, [], ◌∷◌, ◌≢◌}
use crypt_keeper_extension.Exec.{ok, result, after}
use crypt_keeper_extension.Lock
use crypt_keeper_extension.Lock.Unlocking.{IsSetUp, unlock_wrong}
use crypt_keeper_extension.JsMap
use crypt_keeper_extension.State.{Ext, Base}
use crypt_keeper_extension.ZkIdentity.Persist as ZkIdentityPersist
use crypt_keeper_extension.ZkIdentity.Calls
use crypt_keeper_extension.ZkIdentity.Calls.{identities-IsPersisted}
use crypt_keeper_extension.Approval.Persist as ApprovalPersist
use crypt_keeper_extension.Connection.Persist as ConnectionPersist
use crypt_keeper_extension.Approval.Persist.{approvals-IsPersisted}
use crypt_keeper_extension.Connection.Persist.{connections-IsPersisted}
use crypt_keeper_extension.Session.{lock, unlock}
use crypt_keeper_extension.Session.Lifecycle.{lock_forgets, unlock-lock}
use crypt_keeper_extension.Tests.Sample.{sample, sample-Laws}
use crypt_keeper_extension.Tests.States.{ready, some_host, bob}

pub ready-IsSetUp : IsSetUp sample "pw" "word" ready
ready-IsSetUp = record {
  password_full = refl;
  mnemonic_full = refl;
  checker = _;
  checker_stored = refl;
  checker_opens = refl;
  phrase = _;
  phrase_stored = refl;
  phrase_opens = refl;
  phrase_valid = refl;
  finished = refl;
}

ids_loaded : ZkIdentityPersist.IsPersisted sample ready
unfolding JsMap.of_entries JsMap.set
ids_loaded = record {
  key = "word";
  held = refl;
  key_truthy = refl;
  is_map = (tt, tt);
  loads = refl;
}

pub hosts_loaded : ApprovalPersist.IsPersisted sample ready
unfolding JsMap.of_entries JsMap.set
hosts_loaded = record {
  key = "word";
  held = refl;
  key_truthy = refl;
  is_map = (tt, tt);
  loads = refl;
}

links_loaded : ConnectionPersist.IsPersisted sample ready
unfolding JsMap.of_entries JsMap.set
links_loaded = record {
  key = "word";
  held = refl;
  key_truthy = refl;
  is_map = (tt, tt);
  loads = refl;
}

abbrev open_base : Base
open_base = record { is_unlocked = true; unlock_cb = none }

unlock-lock_example :
    (u : Ext) × (unlock sample "pw" (after lock ready) ≡ (ok true, u))
    × (u.allowed_hosts ≡ ready.allowed_hosts)
    × (u.identities ≡ ready.identities)
    × (u.connections ≡ ready.connections)
    × (u.secrets ≡ record { password = some "pw"; mnemonic = some "word" })
    × (u.storage ≡ ready.storage)
    × (u.locker ≡ open_base)
    × (u.approval ≡ open_base)
    × (u.identity ≡ open_base)
    × (u.connection ≡ open_base)
unlock-lock_example =
    unlock-lock sample "pw" "word" ready ready-IsSetUp refl hosts_loaded ids_loaded links_loaded

lock_forgets_example :
    (result lock ready ≡ ok true)
    × ((after lock ready).secrets ≡ record { password = none; mnemonic = none })
    × ((after lock ready).identities ≡ [])
    × ((after lock ready).allowed_hosts ≡ [])
    × ((after lock ready).locker ≡ record { is_unlocked = false; unlock_cb = none })
    × ((after lock ready).identity ≡ record { is_unlocked = false; unlock_cb = none })
    × ((after lock ready).approval ≡ record { is_unlocked = false; unlock_cb = none })
    × ((after lock ready).storage ≡ ready.storage)
    × ((after lock ready).connections ≡ ready.connections)
    × ((after lock ready).connection ≡ ready.connection)
lock_forgets_example = lock_forgets ready

abbrev id_calls : List Calls.Call
id_calls = Calls.imports bob ∷ Calls.renames "c#alice" "Alice" ∷ Calls.deletes "c#alice" ∷ []

identities_example : ZkIdentityPersist.IsPersisted sample (Calls.after_calls sample id_calls ready)
identities_example = identities-IsPersisted sample sample-Laws id_calls ready ids_loaded

abbrev host_calls : List ApprovalPersist.Call
host_calls =
    ApprovalPersist.sets some_host
    ∷ ApprovalPersist.relocks
    ∷ ApprovalPersist.removes "https://b.org"
    ∷ []

approvals_example :
    ApprovalPersist.IsPersisted sample (ApprovalPersist.after_calls sample host_calls ready)
approvals_example = approvals-IsPersisted sample sample-Laws host_calls ready hosts_loaded

abbrev link_calls : List ConnectionPersist.Call
link_calls =
    ConnectionPersist.connects "c#alice" (some "https://b.org")
    ∷ ConnectionPersist.disconnects (some "c#alice") none
    ∷ []

connections_example :
    ConnectionPersist.IsPersisted sample (ConnectionPersist.after_calls sample link_calls ready)
connections_example = connections-IsPersisted sample sample-Laws link_calls ready links_loaded

no_text :
    sample.aes_decrypt (sample.aes_encrypt 0 Lock.password_checker "pw") "bad"
    ≢ some Lock.password_checker
no_text e = cc

unlock_wrong_example :
    (result (Lock.unlock sample "bad" true) ready ≢ ok true)
    × (after (Lock.unlock sample "bad" true) ready
        ≡ record ready { secrets = record { password = none; mnemonic = none } })
unlock_wrong_example =
    unlock_wrong sample "bad" (sample.aes_encrypt 0 Lock.password_checker "pw") true ready refl refl
      no_text
