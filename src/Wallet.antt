-- ===== src/Wallet.antt =====
-- services/wallet: the mnemonic, the accounts that are derived from it, and the selected account.
pub mod Reads
pub mod Ready
pub mod Backup
use crypt_keeper_extension.Prelude.{
  String, Bool, true, not, ◌||◌, Option, none, some, List, [], ◌∷◌, ◌++◌, map, present, truthy,
  is_some, any, find, filter, if◌then◌else◌, ◌==◌,
}
use crypt_keeper_extension.Prelude.Text.{◌⧺◌}
use crypt_keeper_extension.Types
use crypt_keeper_extension.Types.{Account}
use crypt_keeper_extension.State.{set_selected_account}
use crypt_keeper_extension.Env.{Env}
use crypt_keeper_extension.Exec.{M, pure, ◌>>=◌, ◌>>◌, require, or_throw, draw, send}
use crypt_keeper_extension.SimpleStorage
use crypt_keeper_extension.SimpleStorage.{mnemonic_key, accounts_key, selected_account_key}
use crypt_keeper_extension.Crypto
use crypt_keeper_extension.Crypto.{CryptMode, password, mnemonic}
use crypt_keeper_extension.Misc

abbrev same_key : String → Account → Bool
same_key k account = k == account.private_key

-- lodash's `uniqBy(accounts, "privateKey")`: the first account with each key. `seen` holds the keys
-- that came before.
unfoldable pub uniq_by_key : List String → List Account → List Account
uniq_by_key seen [] = []
uniq_by_key seen (a ∷ rest) =
    let kept = uniq_by_key (a.private_key ∷ seen) rest in
    let dropped = uniq_by_key seen rest in
    if any (λ k. same_key k a) seen then dropped else a ∷ kept

module _ (env : Env) where
  -- `JSON.parse(decrypt(…))` of the stored accounts, or no account.
  unfoldable pub read_accounts : Option String → Option String → CryptMode → M (List Account)
  read_accounts none secret mode = pure []
  read_accounts (some encrypted) secret mode = do
    plain ← Crypto.decrypt env encrypted secret mode
    or_throw (env.json_accounts.parse plain) "Unexpected token in JSON"

  abbrev same_address : String → Account → Bool
  same_address address account = env.to_lower_case account.address == env.to_lower_case address

  new_mnemonic : Option String → M String
  new_mnemonic (some m) = pure m
  new_mnemonic none = do n ← draw; pure (env.generate_mnemonic n)

  save_mnemonic : Option String → M String
  unfolding new_mnemonic
  save_mnemonic user_mnemonic = do
    m ← new_mnemonic user_mnemonic
    Crypto.set_mnemonic env m
    encrypted ← Crypto.encrypt env m none password
    SimpleStorage.set mnemonic_key (some encrypted)
    pure m

  -- The stored mnemonic, unless the user brings one.
  mnemonic_from : Option String → Option String → M String
  unfolding save_mnemonic
  mnemonic_from none user_mnemonic = save_mnemonic user_mnemonic
  mnemonic_from (some encrypted) user_mnemonic =
      if is_some (present user_mnemonic)
      then save_mnemonic user_mnemonic
      else Crypto.decrypt env encrypted none password

  unfoldable pub generate_mnemonic : Option String → M String
  unfolding mnemonic_from
  generate_mnemonic user_mnemonic = do
    accounts ← SimpleStorage.get accounts_key
    require (not (is_some (present accounts))) "Key pair is already generated"
    encrypted ← SimpleStorage.get mnemonic_key
    mnemonic_from (present encrypted) user_mnemonic

  unfoldable pub select_account : String → M String
  unfolding read_accounts
  select_account address = do
    require (truthy address) "No address provided"
    raw ← SimpleStorage.get accounts_key
    accounts ← read_accounts (present raw) none mnemonic
    require (any (same_address address) accounts) ("Account " ⧺ address ⧺ " not found")
    encrypted ← Crypto.encrypt env (env.to_lower_case address) none mnemonic
    SimpleStorage.set selected_account_key (some encrypted)
    send (set_selected_account (env.to_lower_case address))
    pure (env.to_lower_case address)

  -- `JSON.parse(rawData)`: the stored accounts are parsed without being decrypted.
  unfoldable pub parse_raw : Option String → M (List Account)
  parse_raw none = pure []
  parse_raw (some raw) = or_throw (env.json_accounts.parse raw) "Unexpected token in JSON"

  -- `Wallet.fromPhrase` throws where the mnemonic is not valid; here `setMnemonic` does, in the same
  -- state and with a message of its own.
  unfoldable pub generate_key_pair : M Unit
  unfolding parse_raw
  generate_key_pair = do
    stored ← SimpleStorage.get mnemonic_key
    encrypted_mnemonic ← or_throw (present stored) "Generate mnemonic first"
    m ← Crypto.decrypt env encrypted_mnemonic none password
    raw ← SimpleStorage.get accounts_key
    Crypto.set_mnemonic env m
    parsed ← parse_raw (present raw)
    encrypted ←
        Crypto.encrypt env (env.json_accounts.stringify (parsed ++ env.wallet_from_phrase m ∷ []))
          none mnemonic
    SimpleStorage.set accounts_key (some encrypted)
    select_account (env.wallet_from_phrase m).address
    Misc.set_initialization Types.mnemonic

  decrypt_mnemonic : Option String → M String
  decrypt_mnemonic none = pure ""
  decrypt_mnemonic (some encrypted) = Crypto.decrypt env encrypted none password

  unfoldable pub get_mnemonic : M String
  unfolding decrypt_mnemonic
  get_mnemonic = do stored ← SimpleStorage.get mnemonic_key; decrypt_mnemonic (present stored)

  -- `encrypted && decrypt(encrypted)`: an empty text comes back as it is.
  decrypt_selected : Option String → M (Option String)
  decrypt_selected none = pure none
  decrypt_selected (some encrypted) =
      if truthy encrypted
      then (do plain ← Crypto.decrypt env encrypted none mnemonic; pure (some plain))
      else pure (some encrypted)

  unfoldable pub get_selected_account : M (Option String)
  unfolding decrypt_selected
  get_selected_account = do
    encrypted ← SimpleStorage.get selected_account_key
    decrypt_selected encrypted

  -- The selected account comes first, and once.
  unfoldable pub order_accounts : Option String → List String → List String
  order_accounts none addresses = addresses
  order_accounts (some selected) addresses =
      env.to_lower_case selected
      ∷ filter (λ address. not (address == env.to_lower_case selected)) addresses

  unfoldable pub accounts : M (List String)
  unfolding read_accounts get_selected_account order_accounts
  accounts = do
    encrypted ← SimpleStorage.get accounts_key
    list ← read_accounts (present encrypted) none mnemonic
    selected ← get_selected_account
    pure (order_accounts (present selected) (map (λ a. env.to_lower_case a.address) list))

  unfoldable pub sign_message : String → String → M String
  unfolding read_accounts
  sign_message message address = do
    stored ← SimpleStorage.get accounts_key
    encrypted ← or_throw (present stored) "No key pair available"
    list ← read_accounts (some encrypted) none mnemonic
    account ← or_throw (find (same_address address) list) ("There is no " ⧺ address ⧺ " account")
    pure (env.sign_message account.private_key message)

  abbrev same_private_key : String → Account → Bool
  same_private_key m account =
      env.to_lower_case account.private_key
      == env.to_lower_case (env.wallet_from_phrase m).private_key

  unfoldable pub check_mnemonic : String → Bool → M Bool
  unfolding read_accounts
  check_mnemonic m strict = do
    require (env.validate_mnemonic m) "Mnemonic is invalid"
    encrypted ← SimpleStorage.get accounts_key
    list ← read_accounts (present encrypted) (some m) password
    require (any (same_private_key m) list || not strict) "Unknown mnemonic"
    pure (any (same_private_key m) list)

  unfoldable pub change_mnemonic_password : String → String → M Unit
  unfolding check_mnemonic
  change_mnemonic_password m p = do
    check_mnemonic m true
    encrypted ← Crypto.encrypt env m (some p) password
    SimpleStorage.set mnemonic_key (some encrypted)

unfoldable pub clear : M Unit
clear = SimpleStorage.clear accounts_key
