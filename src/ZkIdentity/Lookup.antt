-- ===== src/ZkIdentity/Lookup.antt =====
-- Looking an identity up.
use crypt_keeper_extension.Prelude.{String, ◌≡◌, arith}
use crypt_keeper_extension.State.{Ext}
use crypt_keeper_extension.Env.{Env}
use crypt_keeper_extension.Exec.{◌>>=◌, after, result}
use crypt_keeper_extension.ZkIdentity.{get_identity}

module _ (env : Env) where
  pub get_identity-reads : (c : String) (s : Ext) → after (get_identity env c) s ≡ s
  unfolding get_identity ◌>>=◌
  get_identity-reads c s = ground arith

  -- The answer depends on the identities in memory alone.
  pub get_identity-same :
      (c : String) (s t : Ext)
      → t.identities ≡ s.identities
      → result (get_identity env c) t ≡ result (get_identity env c) s
  unfolding get_identity ◌>>=◌
  get_identity-same c s t e = ground (arith, e)
