-- ===== src/Wallet/Reads.antt =====
-- The methods of the wallet that only read leave the state as it is.
use crypt_keeper_extension.Prelude.{String, ◌≡◌, arith}
use crypt_keeper_extension.State.{Ext}
use crypt_keeper_extension.Env.{Env}
use crypt_keeper_extension.Exec.{◌>>=◌, after}
use crypt_keeper_extension.SimpleStorage
use crypt_keeper_extension.Crypto.{decrypt}
use crypt_keeper_extension.Wallet.{sign_message}

module _ (env : Env) where
  pub sign_message-reads :
      (message address : String) (s : Ext) → after (sign_message env message address) s ≡ s
  unfolding sign_message SimpleStorage.get decrypt ◌>>=◌
  sign_message-reads message address s = ground arith
