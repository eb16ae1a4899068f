-- ===== src/Wallet/Ready.antt =====
-- The wallet leaves the lock flag alone, and the installation is complete after the key pair is made.
use crypt_keeper_extension.Prelude.{
  String, true, ◌≡◌, refl, Option, none, some, arith, sym, subst, present, is_some,
}
use crypt_keeper_extension.Types
use crypt_keeper_extension.Types.{InitializationStep}
use crypt_keeper_extension.State.{Ext, Effect}
use crypt_keeper_extension.Env.{Env}
use crypt_keeper_extension.Exec.{M, ok, send, ◌>>=◌, after, result, >>=-eq-ok, >>=_of_ok}
use crypt_keeper_extension.Exec.Keeps.{
  Keeps, Keeps-still, Keeps-bind, Keeps-or_throw, Keeps-pure, Keeps-if, keeps_rules,
}
use crypt_keeper_extension.SimpleStorage
use crypt_keeper_extension.SimpleStorage.{StoreKey}
use crypt_keeper_extension.Crypto
use crypt_keeper_extension.Crypto.{CryptMode}
use crypt_keeper_extension.Misc
use crypt_keeper_extension.Wallet.{
  read_accounts, parse_raw, select_account, generate_key_pair, generate_mnemonic, mnemonic_from,
  save_mnemonic, new_mnemonic,
}

abbrev pub IsOpen : Ext → Type 0
IsOpen s = s.locker.is_unlocked ≡ true

Keeps-get : (key : StoreKey) → Keeps IsOpen (SimpleStorage.get key)
unfolding SimpleStorage.get
Keeps-get key = Keeps-still _ (λ s. refl)

Keeps-set : (key : StoreKey) (value : Option String) → Keeps IsOpen (SimpleStorage.set key value)
unfolding SimpleStorage.set
Keeps-set key value = record { at = λ s h. h }

Keeps-send : (e : Effect) → Keeps IsOpen (send e)
unfolding send
Keeps-send e = record { at = λ s h. h }

Keeps-set_initialization : (step : InitializationStep) → Keeps IsOpen (Misc.set_initialization step)
unfolding Misc.set_initialization ◌>>=◌
Keeps-set_initialization step = record { at = λ s h. h }

module _ (env : Env) where
  Keeps-encrypt :
      (plain : String) (secret : Option String) (mode : CryptMode)
      → Keeps IsOpen (Crypto.encrypt env plain secret mode)
  unfolding Crypto.encrypt ◌>>=◌
  Keeps-encrypt plain secret mode = record { at = λ s h. ground (arith, h) }

  Keeps-decrypt :
      (cipher : String) (secret : Option String) (mode : CryptMode)
      → Keeps IsOpen (Crypto.decrypt env cipher secret mode)
  unfolding Crypto.decrypt ◌>>=◌
  Keeps-decrypt cipher secret mode = record { at = λ s h. ground (arith, h) }

  Keeps-set_mnemonic : (m : String) → Keeps IsOpen (Crypto.set_mnemonic env m)
  unfolding Crypto.set_mnemonic ◌>>=◌
  Keeps-set_mnemonic m = record { at = λ s h. ground (arith, h) }

  ruleset wallet_rules =
      (keeps_rules, Keeps-get, Keeps-set, Keeps-encrypt, Keeps-decrypt, Keeps-set_mnemonic)

  Keeps-read_accounts :
      (stored secret : Option String) (mode : CryptMode)
      → Keeps IsOpen (read_accounts env stored secret mode)
  unfolding read_accounts
  Keeps-read_accounts none secret mode = Keeps-pure _
  Keeps-read_accounts (some encrypted) secret mode =
      Keeps-bind _ _ (Keeps-decrypt encrypted secret mode) (λ plain. Keeps-or_throw _ _)

  Keeps-parse_raw : (raw : Option String) → Keeps IsOpen (parse_raw env raw)
  unfolding parse_raw
  Keeps-parse_raw none = Keeps-pure _
  Keeps-parse_raw (some raw) = Keeps-or_throw _ _

  Keeps-select_account : (address : String) → Keeps IsOpen (select_account env address)
  unfolding select_account
  Keeps-select_account address = search (wallet_rules, Keeps-send, Keeps-read_accounts) depth 12

  pub Keeps-generate_key_pair : Keeps IsOpen (generate_key_pair env)
  unfolding generate_key_pair
  Keeps-generate_key_pair =
      search (wallet_rules, Keeps-parse_raw, Keeps-select_account, Keeps-set_initialization) depth
        14

  Keeps-new_mnemonic :
      (user_mnemonic : Option String) → Keeps IsOpen (new_mnemonic env user_mnemonic)
  unfolding new_mnemonic ◌>>=◌
  Keeps-new_mnemonic none = record { at = λ s h. h }
  Keeps-new_mnemonic (some m) = Keeps-pure _

  Keeps-save_mnemonic :
      (user_mnemonic : Option String) → Keeps IsOpen (save_mnemonic env user_mnemonic)
  unfolding save_mnemonic
  Keeps-save_mnemonic user_mnemonic = search (wallet_rules, Keeps-new_mnemonic)

  Keeps-mnemonic_from :
      (encrypted user_mnemonic : Option String)
      → Keeps IsOpen (mnemonic_from env encrypted user_mnemonic)
  unfolding mnemonic_from
  Keeps-mnemonic_from none user_mnemonic = Keeps-save_mnemonic user_mnemonic
  Keeps-mnemonic_from (some encrypted) user_mnemonic =
      Keeps-if (is_some (present user_mnemonic)) _ _ (Keeps-save_mnemonic user_mnemonic)
        (Keeps-decrypt encrypted none Crypto.password)

  pub Keeps-generate_mnemonic :
      (user_mnemonic : Option String) → Keeps IsOpen (generate_mnemonic env user_mnemonic)
  unfolding generate_mnemonic
  Keeps-generate_mnemonic user_mnemonic = search (wallet_rules, Keeps-mnemonic_from)

-- What holds after a method that returns.
pub record Gives {A : Type 0} (P : Ext → Type 0) (m : M A) : Type 0 where
  pub at : (s : Ext) (a : A) → result m s ≡ ok a → P (after m s)

Gives-bind :
    {A B : Type 0} {P : Ext → Type 0} (m : M A) (f : A → M B)
    → ((a : A) → Gives P (f a))
    → Gives P (m >>= f)
Gives-bind {P = P} m f rest = record {
  at = λ s b made.
      let (a, got, returns) = >>=-eq-ok m f s made in
      subst (λ t. P t.1) (sym (>>=_of_ok m f s a got)) ((rest a).at (after m s) b returns);
}

abbrev pub IsComplete : Ext → Type 0
IsComplete s = s.storage.initialization ≡ some Types.mnemonic

Gives-completed : Gives IsComplete (Misc.set_initialization Types.mnemonic)
unfolding Misc.set_initialization ◌>>=◌
Gives-completed = record { at = λ s a made. refl }

module _ (env : Env) where
  pub Gives-generate_key_pair : Gives IsComplete (generate_key_pair env)
  unfolding generate_key_pair
  Gives-generate_key_pair = search (Gives-bind, Gives-completed) depth 14
