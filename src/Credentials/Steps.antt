-- ===== src/Credentials/Steps.antt =====
-- The steps that the operations share, on a storage that holds a list of credentials.
use crypt_keeper_extension.Prelude.{String, refl, List, [], map, All, arith}
use crypt_keeper_extension.JsMap.Laws.{IsMap}
use crypt_keeper_extension.Types.{OperationType}
use crypt_keeper_extension.State.{Ext, Effect}
use crypt_keeper_extension.Env.{Env, Laws}
use crypt_keeper_extension.Exec.{ok, err, M, ◌>>=◌, ◌>>◌, after, send, catch}
use crypt_keeper_extension.Exec.Ends.{Ends, Ends-bind, Ends-catch_ok, Ends-catch_err, Ends-throw}
use crypt_keeper_extension.SimpleStorage
use crypt_keeper_extension.Crypto
use crypt_keeper_extension.Crypto.{mnemonic, secret_of, encryption_key}
use crypt_keeper_extension.Browser
use crypt_keeper_extension.History
use crypt_keeper_extension.Credentials.{
  CredentialApi, CryptkeeperCredential, get_from_store, write_store, add_failed,
}
use crypt_keeper_extension.Credentials.Store.{
  Keeps-track, Keeps-send, get_from_store_lem, write_store_lem,
}
use crypt_keeper_extension.Credentials.Ledger.{CredentialLaws, IsGenuine, Shows, entry_of}
use crypt_keeper_extension.Credentials.Spec.{Spec}

module _ (env : Env) (api : CredentialApi) where
  pub tracked :
      (cs : List CryptkeeperCredential) (type : OperationType) (s : Ext)
      → Shows api env cs s
      → Ends (History.track_operation env type History.no_options) s (ok tt) (Shows api env cs)
  unfolding History.track_operation SimpleStorage.set Crypto.encrypt ◌>>=◌
  tracked cs type s h = (
    after (History.track_operation env type History.no_options) s,
    ground (arith, h.holds.held, h.holds.key_truthy),
    record {
      holds = (Keeps-track env _ type History.no_options).at s h.holds;
      genuine = h.genuine;
    },
  )

  pub sent :
      (cs : List CryptkeeperCredential) (e : Effect) (s : Ext)
      → Shows api env cs s
      → Ends (send e) s (ok tt) (Shows api env cs)
  unfolding send
  sent cs e s h = (
    after (send e) s,
    refl,
    record { holds = (Keeps-send env _ e).at s h.holds; genuine = h.genuine },
  )

  -- An operation is tracked and a notification shown.
  pub told :
      (cs : List CryptkeeperCredential) (type : OperationType) (title message : String) (s : Ext)
      → Shows api env cs s
      → Ends
          (History.track_operation env type History.no_options >> Browser.notify title message)
          s
          (ok tt)
          (Shows api env cs)
  unfolding Browser.notify
  told cs type title message s h =
      Ends-bind _ _ s tt (ok tt) (tracked cs type s h) (λ t held. sent cs _ t held)

  pub loaded :
      (cs : List CryptkeeperCredential) (s : Ext)
      → Shows api env cs s
      → Ends (get_from_store env) s (ok (map (entry_of api) cs)) (Shows api env cs)
  loaded cs s h = (s, get_from_store_lem env (map (entry_of api) cs) s h.holds, h)

  module _ (laws : Laws env) (api_laws : CredentialLaws api) where
    pub written :
        (cs ds : List CryptkeeperCredential) (s : Ext)
        → Shows api env cs s
        → IsMap (map (entry_of api) ds)
        → All (IsGenuine api) ds
        → Ends (write_store env (map (entry_of api) ds)) s (ok tt) (Shows api env ds)
    written cs ds s h is_map genuine =
        let (t, e, held) = write_store_lem env laws _ (map (entry_of api) ds) s h.holds is_map in
        (t, e, record { holds = held; genuine = genuine })

    pub cleared :
        (cs : List CryptkeeperCredential) (s : Ext)
        → Shows api env cs s
        → Ends (SimpleStorage.clear SimpleStorage.credentials_key) s (ok tt) (Shows api env [])
    unfolding SimpleStorage.clear
    cleared cs s h = (
      after (SimpleStorage.clear SimpleStorage.credentials_key) s,
      refl,
      record {
        holds = record {
          key = h.holds.key;
          held = h.holds.held;
          key_truthy = h.holds.key_truthy;
          is_map = tt;
          loads = refl;
        };
        genuine = tt;
      },
    )

    pub failed :
        (cs : List CryptkeeperCredential) (error : String) (s : Ext)
        → Shows api env cs s
        → Ends (add_failed env api error) s (err error) (Shows api env cs)
    unfolding add_failed Browser.notify
    failed cs error s h = Ends-bind _ _ s tt (err error) (sent cs _ s h) λ t k. Ends-throw _ t k

    pub caught :
        (m : M Unit) (spec : Spec) (s : Ext)
        → Ends m s spec.0 (Shows api env spec.1)
        → Ends (catch m (add_failed env api)) s spec.0 (Shows api env spec.1)
    caught m (ok a, cs) s ends = Ends-catch_ok m _ s a ends
    caught m (err e, cs) s ends = Ends-catch_err m _ s e (err e) ends (λ t k. failed cs e t k)
