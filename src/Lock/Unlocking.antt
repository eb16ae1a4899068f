-- ===== src/Lock/Unlocking.antt =====
-- Unlocking with the right password and with a wrong one.
use crypt_keeper_extension.Prelude.{
  String, Bool, true, false, ◌≡◌, ◌≢◌, refl, none, some, arith, present, truthy, eq_iff, eq_refl,
  Option-cases, inl, inr,
}
use crypt_keeper_extension.Types
use crypt_keeper_extension.State.{Ext}
use crypt_keeper_extension.Env.{Env}
use crypt_keeper_extension.Exec.{ok, ◌>>=◌, after, result}
use crypt_keeper_extension.SimpleStorage
use crypt_keeper_extension.Crypto
use crypt_keeper_extension.Crypto.{decrypt}
use crypt_keeper_extension.Base
use crypt_keeper_extension.Base.{locker}
use crypt_keeper_extension.Misc
use crypt_keeper_extension.Wallet
use crypt_keeper_extension.Lock.{
  password_checker, is_authentic, recall_mnemonic, unlock_chain, unlock, notify_status_change,
}

module _ (env : Env) where
  -- Storage as a finished installation leaves it: the password checker and the mnemonic are encrypted
  -- under the password, and the mnemonic is valid.
  pub record IsSetUp (p m : String) (s : Ext) : Type 0 where
    pub password_full : truthy p ≡ true
    pub mnemonic_full : truthy m ≡ true
    pub checker : String
    pub checker_stored : present s.storage.password ≡ some checker
    pub checker_opens : env.aes_decrypt checker p ≡ some password_checker
    pub phrase : String
    pub phrase_stored : present s.storage.mnemonic ≡ some phrase
    pub phrase_opens : env.aes_decrypt phrase p ≡ some m
    pub phrase_valid : env.validate_mnemonic m ≡ true
    pub finished : s.storage.initialization ≡ some Types.mnemonic

  is_authentic_lem :
      (p m : String) (s : Ext) → IsSetUp p m s → is_authentic env p false s ≡ (ok false, s)
  unfolding is_authentic SimpleStorage.get decrypt ◌>>=◌
  is_authentic_lem p m s h = ground (arith, eq_refl password_checker)

  recall_lem :
      (p m : String) (s : Ext)
      → IsSetUp p m s
      → s.secrets.password ≡ some p
      → recall_mnemonic env s
        ≡ (ok tt, record s { secrets = record { password = some p; mnemonic = some m } })
  unfolding recall_mnemonic Wallet.get_mnemonic SimpleStorage.get Crypto.set_mnemonic decrypt ◌>>=◌
  recall_lem p m s h held = ground arith

  -- With the password of the installation, `unlock` returns true; the password and the mnemonic are
  -- then at hand, the service is unlocked, and the memory and the storage of the services are as
  -- before.
  pub unlock_right :
      (p m : String) (notify : Bool) (s : Ext)
      → IsSetUp p m s
      → (result (unlock env p notify) s ≡ ok true)
        × ((after (unlock env p notify) s).secrets
            ≡ record { password = some p; mnemonic = some m })
        × ((after (unlock env p notify) s).locker ≡ record { is_unlocked = true; unlock_cb = none })
        × ((after (unlock env p notify) s).storage ≡ s.storage)
        × ((after (unlock env p notify) s).identities ≡ s.identities)
        × ((after (unlock env p notify) s).allowed_hosts ≡ s.allowed_hosts)
        × ((after (unlock env p notify) s).connections ≡ s.connections)
  unfolding unlock unlock_chain notify_status_change SimpleStorage.get Crypto.set_password
      Misc.get_initialization Base.set_unlocked Base.on_unlocked ◌>>=◌
  unlock_right p m notify s h =
      let t = record s { secrets = record s.secrets { password = some p } } in
      let ready : IsSetUp p m t = record {
        password_full = h.password_full;
        mnemonic_full = h.mnemonic_full;
        checker = h.checker;
        checker_stored = h.checker_stored;
        checker_opens = h.checker_opens;
        phrase = h.phrase;
        phrase_stored = h.phrase_stored;
        phrase_opens = h.phrase_opens;
        phrase_valid = h.phrase_valid;
        finished = h.finished;
      } in
      ground (arith, is_authentic_lem p m t ready, recall_lem p m t ready refl)

  -- With a password that is not empty and under which the stored checker does not decrypt to the
  -- expected text, `unlock` does not return true, the secrets are forgotten, and nothing else
  -- changes, the lock flag included.
  pub unlock_wrong :
      (q checker : String) (notify : Bool) (s : Ext)
      → truthy q ≡ true
      → present s.storage.password ≡ some checker
      → env.aes_decrypt checker q ≢ some password_checker
      → (result (unlock env q notify) s ≢ ok true)
        × (after (unlock env q notify) s
            ≡ record s { secrets = record { password = none; mnemonic = none } })
  unfolding unlock unlock_chain is_authentic decrypt SimpleStorage.get Crypto.set_password
      Crypto.clear Misc.get_initialization ◌>>=◌
  unlock_wrong q checker notify s full stored wrong =
      elim (Option-cases (env.aes_decrypt checker q)) [
        | inl broken ↦ ground arith
        | inr (d, read) ↦ ground (arith, eq_iff d password_checker)
      ]
