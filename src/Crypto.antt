-- ===== src/Crypto.antt =====
-- services/crypto: encryption under the password or the mnemonic, and authenticated backups.
pub mod Laws
use crypt_keeper_extension.Prelude.{
  String, Bool, true, false, Option, none, some, List, [], ◌∷◌, ◌==◌, if◌then◌else◌, present,
  truthy,
}
use crypt_keeper_extension.Prelude.Text.{take, drop, ◌⧺◌}
use crypt_keeper_extension.JsMap
use crypt_keeper_extension.State.{Secrets, Ext}
use crypt_keeper_extension.Env.{Env}
use crypt_keeper_extension.Exec.{
  M, ok, err, pure, throw, ◌>>=◌, ◌>>◌, gets, modify, require, or_throw, draw,
}

pub data CryptMode : Type 0 where
  password mnemonic : CryptMode

-- `string | Record<string, string>`
pub data BackupData : Type 0 where
  text : String → BackupData
  fields : List (String × String) → BackupData

-- `setPassword`
unfoldable pub set_password : String → M Unit
set_password p = modify (λ s. record s { secrets = record s.secrets { password = some p } })

-- `secrets[mode]`
unfoldable pub secret_of : CryptMode → Secrets → Option String
secret_of password t = t.password
secret_of mnemonic t = t.mnemonic

-- `secret || this.secrets[mode]`
unfoldable pub encryption_key : Option String → Option String → Option String
encryption_key none held = held
encryption_key (some k) held = if truthy k then some k else held

-- `checkSecretInitialized`, which gives the key that it has checked.
unfoldable pub check_secret_initialized : Option String → M String
check_secret_initialized k = or_throw (present k) "Password is not provided"

abbrev pub same_password : Option String → String → Bool
same_password none p = false
same_password (some q) p = q == p

unfoldable pub is_authentic_password : String → M Bool
is_authentic_password p = do
  held ← gets (λ s. s.secrets.password)
  require (same_password held p) "Password doesn't match with current"
  pure true

unfoldable pub clear : M Unit
clear = modify (λ s. record s { secrets = record { password = none; mnemonic = none } })

module _ (env : Env) where
  unfoldable pub set_mnemonic : String → M Unit
  set_mnemonic m = do
    require (env.validate_mnemonic m) "Mnemonic is invalid"
    modify (λ s. record s { secrets = record s.secrets { mnemonic = some m } })

  -- The arguments are those of `{ secret, mode }`.
  unfoldable pub encrypt : String → Option String → CryptMode → M String
  unfolding secret_of encryption_key check_secret_initialized
  encrypt plain secret mode = do
    held ← gets (λ s. secret_of mode s.secrets)
    key ← check_secret_initialized (encryption_key secret held)
    n ← draw
    pure (env.aes_encrypt n plain key)

  unfoldable pub decrypt : String → Option String → CryptMode → M String
  unfolding secret_of encryption_key check_secret_initialized
  decrypt ciphertext secret mode = do
    held ← gets (λ s. secret_of mode s.secrets)
    key ← check_secret_initialized (encryption_key secret held)
    or_throw (env.aes_decrypt ciphertext key) "Malformed UTF-8 data"

  unfoldable pub generate_encrypted_hmac : String → String → M String
  unfolding check_secret_initialized is_authentic_password
  generate_encrypted_hmac ciphertext p = do
    check_secret_initialized (some p)
    is_authentic_password p
    pure (env.hmac ciphertext p ⧺ ciphertext)

  -- `getAuthenticContent`
  unfoldable pub authentic_content : String → String → M String
  authentic_content ciphertext p =
      let transit_hmac = take 64 ciphertext in
      let content = drop 64 ciphertext in
      if transit_hmac == env.hmac content p
      then pure content
      else throw "This backup file is not authentic"

  -- The `reduce` over the entries of a record.
  unfoldable pub authentic_fields :
      List (String × String) → List (String × String) → String → M (List (String × String))
  authentic_fields acc [] p = pure acc
  authentic_fields acc ((key, value) ∷ rest) p = do
    content ← authentic_content value p
    authentic_fields (JsMap.set key content acc) rest p

  unfoldable pub get_authentic_backup : BackupData → String → M BackupData
  unfolding check_secret_initialized authentic_content
  get_authentic_backup (fields entries) p = do
    check_secret_initialized (some p)
    contents ← authentic_fields [] entries p
    pure (fields contents)
  get_authentic_backup (text ciphertext) p = do
    check_secret_initialized (some p)
    content ← authentic_content ciphertext p
    pure (text content)
