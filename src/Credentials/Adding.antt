-- ===== src/Credentials/Adding.antt =====
-- Adding a credential does in storage what it does to the list of credentials.
use crypt_keeper_extension.Prelude.{
  String, true, false, ◌≡◌, refl, List, [], ◌∷◌, ◌++◌, any, All-append, truthy, Bool-cases, inl,
  inr,
}
use crypt_keeper_extension.JsMap.Laws.{set-IsMap}
use crypt_keeper_extension.State.{Ext}
use crypt_keeper_extension.Env.{Env, Laws}
use crypt_keeper_extension.Exec.{ok, err, Result-cases}
use crypt_keeper_extension.Exec.Ends.{
  Ends, Ends-bind, Ends-bind_err, Ends-require, Ends-throw, Ends-lift, Ends-guard,
}
use crypt_keeper_extension.Browser
use crypt_keeper_extension.Credentials.{
  CredentialApi, CryptkeeperCredential, insert_new, reject_known, insert, add_valid, add_failed,
  add, deserialize_credential, initial_metadata, send_to_tabs,
}
use crypt_keeper_extension.Credentials.Ledger.{
  CredentialLaws, IsGenuine, Shows, has_hash, has-entries, append-entries,
}
use crypt_keeper_extension.Credentials.Spec.{insert_spec, new_credential, add_spec}
use crypt_keeper_extension.Credentials.Steps.{tracked, sent, loaded, written, caught}

module _ (env : Env) (api : CredentialApi) (laws : Laws env) (api_laws : CredentialLaws api) where
  module _ (c : CryptkeeperCredential) (cs : List CryptkeeperCredential) where
    inserted :
        (s : Ext)
        → Shows api env cs s
        → IsGenuine api c
        → any (has_hash c.metadata.hash) cs ≡ false
        → Ends (insert env api c) s (ok tt) (Shows api env (cs ++ c ∷ []))
    unfolding insert insert_new send_to_tabs Browser.notify
    inserted s h genuine unknown = Ends-bind _ _ s _ (ok tt) (loaded env api cs s h) λ t shown.
        rw (has-entries api c.metadata.hash cs, unknown)
          (rw (append-entries api c cs unknown) (
            Ends-bind _ _ t tt (ok tt)
              (written env api laws api_laws cs (cs ++ c ∷ []) t shown
                (rw (← append-entries api c cs unknown) (set-IsMap _ _ _ shown.holds.is_map))
                (All-append _ cs (c ∷ []) shown.genuine (genuine, tt)))
              λ u new. Ends-bind _ _ u tt (ok tt) (tracked env api _ _ u new) λ v more.
                Ends-bind _ _ v tt (ok tt) (sent env api _ _ v more)
                  λ w last. sent env api _ _ w last))

    insert_again :
        (s : Ext)
        → Shows api env cs s
        → any (has_hash c.metadata.hash) cs ≡ true
        → Ends (insert env api c) s (err "Verifiable Credential already exists.") (Shows api env cs)
    unfolding insert reject_known Browser.notify
    insert_again s h known = Ends-bind _ _ s _ (err _) (loaded env api cs s h) λ t shown.
        rw (has-entries api c.metadata.hash cs, known)
          (Ends-bind _ _ t tt (err _) (sent env api cs _ t shown) λ u held. Ends-throw _ u held)

  insert-refines :
      (c : CryptkeeperCredential) (cs : List CryptkeeperCredential) (s : Ext)
      → Shows api env cs s
      → IsGenuine api c
      → Ends (insert env api c) s (insert_spec c cs).0 (Shows api env (insert_spec c cs).1)
  insert-refines c cs s h g = elim (Bool-cases (any (has_hash c.metadata.hash) cs)) [
    | inl known ↦ rw known (insert_again c cs s h known)
    | inr unknown ↦ rw unknown (inserted c cs s h g unknown)
  ]

  pub add-refines :
      (serialized name : String) (cs : List CryptkeeperCredential) (s : Ext)
      → Shows api env cs s
      → Ends
          (add env api serialized name)
          s
          (add_spec api serialized name cs).0
          (Shows api env (add_spec api serialized name cs).1)
  unfolding initial_metadata add add_valid add_failed Browser.notify deserialize_credential
  add-refines serialized name cs s h = elim (Bool-cases (truthy serialized)) [
    | inl given ↦ elim (Result-cases (api.validate serialized)) [
      | inl (e, invalid) ↦
          rw (given, invalid)
            (Ends-bind _ _ s tt (err e) (Ends-require true _ s refl h) λ t k.
              caught env api laws api_laws _ (err e, cs) t
                (Ends-bind_err _ _ t e (
                  Ends-bind _ _ t tt (err e) (Ends-require true _ t refl k)
                    λ u l. Ends-lift (err e) u l)))
      | inr (credential, valid) ↦
          let c = new_credential api credential name in
          let genuine : IsGenuine api c = record {
            valid = api_laws.canonical serialized credential valid;
            nonempty = api_laws.canonical_text serialized credential valid;
            hashed = refl;
          } in
          rw (given, valid)
            (Ends-bind _ _ s tt _ (Ends-require true _ s refl h) λ t k.
              caught env api laws api_laws _ (insert_spec c cs) t (
                Ends-bind _ _ t credential _
                  (Ends-bind _ _ t tt (ok credential) (Ends-require true _ t refl k)
                    λ u l. Ends-lift (ok credential) u l)
                  λ u l. insert-refines c cs u l genuine))
    ]
    | inr missing ↦ rw missing (Ends-guard _ _ s h)
  ]
