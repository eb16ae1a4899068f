-- ===== src/Connection/Reading.antt =====
-- Looking an identity up changes nothing.
use crypt_keeper_extension.Prelude.{String, ◌≡◌, Option, arith, Option-cases, inl, inr}
use crypt_keeper_extension.State.{Ext}
use crypt_keeper_extension.Env.{Env}
use crypt_keeper_extension.Exec.{◌>>=◌, after}
use crypt_keeper_extension.Connection.{get_at, get_connected_identity}
use crypt_keeper_extension.ZkIdentity.Lookup.{get_identity-reads}

module _ (env : Env) where
  pub get_connected_identity-reads :
      (o : Option String) (s : Ext) → after (get_connected_identity env o) s ≡ s
  unfolding get_connected_identity ◌>>=◌
  get_connected_identity-reads o s = elim (Option-cases (get_at o s.connections)) [
    | inl missing ↦ ground (arith, missing)
    | inr (c, there) ↦ ground (arith, there, get_identity-reads env c.commitment s)
  ]
