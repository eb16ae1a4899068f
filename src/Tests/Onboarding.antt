-- ===== src/Tests/Onboarding.antt =====
-- The user types a mnemonic on a new installation whose password is set.
use crypt_keeper_extension.Prelude.{true, ◌≡◌, refl, none, some}
use crypt_keeper_extension.Types
use crypt_keeper_extension.State.{Ext, installed}
use crypt_keeper_extension.Exec.{ok, ◌>>=◌, result, after}
use crypt_keeper_extension.SimpleStorage
use crypt_keeper_extension.Misc
use crypt_keeper_extension.Crypto
use crypt_keeper_extension.Lock.{password_checker}
use crypt_keeper_extension.Wallet
use crypt_keeper_extension.Store.{Store, initial_store, dispatch}
use crypt_keeper_extension.Store.Thunks.{post, generate_mnemonic, save_mnemonic}
use crypt_keeper_extension.Entry.{MnemonicForm, input, went, is_mnemonic, on_save_mnemonic}
use crypt_keeper_extension.Entry.Saving.{IsReady, on_save_mnemonic-IsReady}
use crypt_keeper_extension.Tests.Sample.{sample}

abbrev begun : Ext
begun = record installed {
  storage = record installed.storage {
    password = some (sample.aes_encrypt 0 password_checker "pw");
    initialization = some Types.password;
  };
  secrets = record { password = some "pw"; mnemonic = none };
  locker = record { is_unlocked = true; unlock_cb = none };
}

abbrev form : MnemonicForm
form = record { mode = input; mnemonic = "word" }

abbrev shown : Store
shown = record initial_store {
  app = record initial_store.app {
    is_initialized = true;
    is_unlocked = true;
    is_mnemonic_generated = true;
    mnemonic = some "";
  };
}

goes_home : result (on_save_mnemonic sample form initial_store) begun ≡ ok (went "/home", shown)
unfolding on_save_mnemonic is_mnemonic generate_mnemonic save_mnemonic post dispatch
    Wallet.generate_mnemonic Wallet.generate_key_pair Wallet.parse_raw Wallet.select_account
    Wallet.read_accounts Crypto.encrypt Crypto.decrypt Crypto.set_mnemonic SimpleStorage.get
    SimpleStorage.set Misc.set_initialization ◌>>=◌
goes_home = refl

ready_example : IsReady shown (after (on_save_mnemonic sample form initial_store) begun)
ready_example = on_save_mnemonic-IsReady sample form initial_store shown begun refl goes_home
