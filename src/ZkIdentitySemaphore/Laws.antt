-- ===== src/ZkIdentitySemaphore/Laws.antt =====
-- What the text of an identity keeps, and what creating one leaves alone.
use crypt_keeper_extension.Prelude.{
  String, ◌≡◌, Option, none, some, arith, present, truthy, true, Option-cases, inl, inr, subst,
}
use crypt_keeper_extension.Types.{CreateIdentityArgs, IdentityMetadata}
use crypt_keeper_extension.State.{Ext}
use crypt_keeper_extension.Env.{Env, Laws}
use crypt_keeper_extension.Exec.{ok, ◌>>=◌, after, result}
use crypt_keeper_extension.Exec.Unmoved.{Unmoved}
use crypt_keeper_extension.ZkIdentitySemaphore.{
  ZkIdentitySemaphore, both, new_identity, checked, of_parsed, create_new_identity, serialize,
  gen_from_serialized,
}

module _ (env : Env) where
  pub create_new_identity-Unmoved :
      (a : CreateIdentityArgs) (s : Ext) → Unmoved s (after (create_new_identity env a) s)
  unfolding create_new_identity ◌>>=◌
  create_new_identity-Unmoved a s = ground arith

  -- An identity that the semaphore library made.
  abbrev pub IsGenuine : ZkIdentitySemaphore → Type 0
  IsGenuine z = (env.identity_of z.zk_identity ≡ z.zk_identity) × (truthy z.zk_identity ≡ true)

  -- The text of an identity that the semaphore library made is read back as that identity.
  pub gen_from_serialized-serialize :
      Laws env
      → (z : ZkIdentitySemaphore) → IsGenuine z
      → gen_from_serialized env (serialize env z) ≡ ok z
  unfolding gen_from_serialized serialize
  gen_from_serialized-serialize laws z h =
      ground
        (arith, laws.identity (record { secret = some z.zk_identity; metadata = some z.metadata }))

  module _ (laws : Laws env) where
    new_identity-genuine :
        (pair : Option (String × String)) (signature : Option String) (s : Ext) (i : String)
        → result (new_identity env pair signature) s ≡ ok i
        → (env.identity_of i ≡ i) × (truthy i ≡ true)
    unfolding new_identity ◌>>=◌
    new_identity-genuine (some (t, n)) signature s i h =
        let a = env.json_pair t n in ground (arith, laws.identity_of_text a, laws.identity_truthy a)
    new_identity-genuine none (some a) s i h =
        ground (arith, laws.identity_of_text a, laws.identity_truthy a)
    new_identity-genuine none none s i h =
        ground (arith, laws.identity_of_random s.draws, laws.random_truthy s.draws)

    -- A created identity has the text of an identity that the semaphore library made: it is not empty
    -- and reads back as itself.
    pub create_new_identity-IsGenuine :
        (a : CreateIdentityArgs) (s : Ext) (z : ZkIdentitySemaphore)
        → result (create_new_identity env a) s ≡ ok z
        → IsGenuine z
    unfolding create_new_identity ◌>>=◌
    create_new_identity-IsGenuine a s z h =
        let made =
          new_identity-genuine (both a.trapdoor a.nullifier) a.message_signature s z.zk_identity in
        ground (arith, made)

    checked-IsGenuine :
        (m : Option IdentityMetadata) (secret : Option String) (z : ZkIdentitySemaphore)
        → checked env m secret ≡ ok z
        → IsGenuine z
    unfolding checked
    checked-IsGenuine (some m) (some a) z h =
        ground (arith, laws.identity_of_text a, laws.identity_truthy a)
    checked-IsGenuine _ _ z h = cc

    -- What is read is genuine too.
    pub gen_from_serialized-IsGenuine :
        (t : String) (z : ZkIdentitySemaphore) → gen_from_serialized env t ≡ ok z → IsGenuine z
    unfolding gen_from_serialized
    gen_from_serialized-IsGenuine t z h = elim (Option-cases (env.json_identity.parse t)) [
      | inl bad ↦ ground arith
      | inr (d, read) ↦
          checked-IsGenuine d.metadata (present d.secret) z
            (subst (λ o. of_parsed env o ≡ ok z) read h)
    ]
