-- ===== src/ZkIdentitySemaphore.antt =====
-- packages/zk/src/identity: an identity with its metadata, its text, and how one is created.
pub mod Laws
use crypt_keeper_extension.Prelude.{String, Option, none, some, present, truthy, if◌then◌else◌}
use crypt_keeper_extension.Types.{IdentityMetadata, SerializedIdentity, CreateIdentityArgs}
use crypt_keeper_extension.Env.{Env}
use crypt_keeper_extension.Exec.{Result, ok, err, M, pure, ◌>>=◌, draw}

-- `zk_identity` is the text that the semaphore identity prints, from which it is made again.
pub record ZkIdentitySemaphore : Type 0 where
  pub zk_identity : String
  pub metadata : IdentityMetadata

-- `updateMetadata({ name })`
unfoldable pub update_name : String → ZkIdentitySemaphore → ZkIdentitySemaphore
update_name name z = record z { metadata = record z.metadata { name = name } }

-- `trapdoor && nullifier`
abbrev both : Option String → Option String → Option (String × String)
both none n = none
both (some t) none = none
both (some t) (some n) = if truthy t then (if truthy n then some (t, n) else none) else none

module _ (env : Env) where
  unfoldable pub gen_identity_commitment : ZkIdentitySemaphore → String
  gen_identity_commitment z = env.identity_commitment z.zk_identity

  unfoldable pub serialize : ZkIdentitySemaphore → String
  serialize z =
      env.json_identity.stringify
        (record { secret = some z.zk_identity; metadata = some z.metadata })

  checked : Option IdentityMetadata → Option String → Result ZkIdentitySemaphore
  checked none secret = err "Metadata missing"
  checked (some m) none = err "Secret missing"
  checked (some m) (some secret) =
      ok (record { zk_identity = env.identity_of secret; metadata = m })

  of_parsed : Option SerializedIdentity → Result ZkIdentitySemaphore
  unfolding checked
  of_parsed none = err "Unexpected token in JSON"
  of_parsed (some d) = checked d.metadata (present d.secret)

  unfoldable pub gen_from_serialized : String → Result ZkIdentitySemaphore
  unfolding of_parsed
  gen_from_serialized serialized = of_parsed (env.json_identity.parse serialized)

  -- `new Identity(serialized || messageSignature)`
  new_identity : Option (String × String) → Option String → M String
  new_identity (some (t, n)) signature = pure (env.identity_of (env.json_pair t n))
  new_identity none (some signature) = pure (env.identity_of signature)
  new_identity none none = do n ← draw; pure (env.random_identity n)

  unfoldable pub create_new_identity : CreateIdentityArgs → M ZkIdentitySemaphore
  unfolding new_identity
  create_new_identity config = do
    identity ← new_identity (both config.trapdoor config.nullifier) config.message_signature
    pure (record {
      zk_identity = identity;
      metadata = record {
        name = config.name;
        groups = config.groups;
        is_deterministic = config.is_deterministic;
        is_imported = config.is_imported;
        account = config.account;
        nonce = config.nonce;
      };
    })
