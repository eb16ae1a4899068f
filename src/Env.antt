-- ===== src/Env.antt =====
-- What the services call and this repository does not implement: crypto-js, bip39, ethers, the
-- semaphore identity, nanoid, the clock and JSON. `Laws` states what is relied on of them.
use crypt_keeper_extension.Prelude.{ℕ, String, Bool, Option, some, List, ◌≡◌, truthy, true}
use crypt_keeper_extension.Prelude.Codec.{Codec, IsCodec}
use crypt_keeper_extension.Prelude.Text.{size}
use crypt_keeper_extension.Types.{
  SerializedIdentity, HostPermission, IdentityConnection, Operation, HistorySettings, Account,
}

-- An instance of the program's environment. A `ℕ` argument is the number of draws made before, by
-- which random values and times differ.
pub record Env : Type 0 where
  -- `AES.encrypt(text, key).toString()`; the draw is its random salt
  pub aes_encrypt : ℕ → String → String → String
  -- `AES.decrypt(ciphertext, key).toString(enc.Utf8)`, which throws on malformed text
  pub aes_decrypt : String → String → Option String
  -- `HmacSHA256(text, SHA256(password)).toString()`
  pub hmac : String → String → String
  pub validate_mnemonic : String → Bool
  pub generate_mnemonic : ℕ → String
  -- `new Identity(secret).toString()`, and `new Identity().toString()`, which is random
  pub identity_of : String → String
  pub random_identity : ℕ → String
  -- `bigintToHex(identity.getCommitment())` of the identity that prints so
  pub identity_commitment : String → String
  -- `JSON.stringify([trapdoor, nullifier])`
  pub json_pair : String → String → String
  -- `Wallet.fromPhrase(mnemonic)` and `new Wallet(privateKey).signMessage(message)`
  pub wallet_from_phrase : String → Account
  pub sign_message : String → String → String
  pub to_lower_case : String → String
  pub nanoid : ℕ → String
  pub iso_now : ℕ → String
  -- `+new Date(text)`
  pub time_of : String → ℕ
  pub json_entries : Codec (List (String × String))
  pub json_hosts : Codec (List (String × HostPermission))
  pub json_connections : Codec (List (String × IdentityConnection))
  pub json_identity : Codec SerializedIdentity
  pub json_operations : Codec (List Operation)
  pub json_settings : Codec HistorySettings
  pub json_accounts : Codec (List Account)

pub record Laws (env : Env) : Type 0 where
  -- decryption under the same key gives the text back, and no ciphertext is empty
  pub decrypt_encrypt :
      (n : ℕ) (text key : String) → env.aes_decrypt (env.aes_encrypt n text key) key ≡ some text
  pub encrypt_truthy : (n : ℕ) (text key : String) → truthy (env.aes_encrypt n text key) ≡ true
  -- SHA-256 prints as 64 characters
  pub hmac_size : (text key : String) → size (env.hmac text key) ≡ 64
  -- an identity is read back from its own text, which is not empty
  pub identity_of_text :
      (secret : String) → env.identity_of (env.identity_of secret) ≡ env.identity_of secret
  pub identity_of_random : (n : ℕ) → env.identity_of (env.random_identity n) ≡ env.random_identity n
  pub identity_truthy : (secret : String) → truthy (env.identity_of secret) ≡ true
  pub random_truthy : (n : ℕ) → truthy (env.random_identity n) ≡ true
  pub entries : IsCodec env.json_entries
  pub hosts : IsCodec env.json_hosts
  pub connections : IsCodec env.json_connections
  pub identity : IsCodec env.json_identity
  pub identity_text : (a : SerializedIdentity) → truthy (env.json_identity.stringify a) ≡ true
  pub operations : IsCodec env.json_operations
  pub settings : IsCodec env.json_settings
  pub settings_text : (a : HistorySettings) → truthy (env.json_settings.stringify a) ≡ true
  pub accounts : IsCodec env.json_accounts
