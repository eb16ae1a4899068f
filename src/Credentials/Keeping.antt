-- ===== src/Credentials/Keeping.antt =====
-- The service keeps a list of credentials: each operation does in storage what it does to the list.
use crypt_keeper_extension.Prelude.{ap, sym, subst, String, ◌≡◌, refl, List, [], ◌∷◌}
use crypt_keeper_extension.State.{Ext}
use crypt_keeper_extension.Env.{Env, Laws}
use crypt_keeper_extension.Exec.{Result, M, after, result, ok}
use crypt_keeper_extension.Exec.Ends.{Ends}
use crypt_keeper_extension.Credentials.{
  CredentialApi, CryptkeeperCredential, add, rename, get_all, delete, delete_all,
}
use crypt_keeper_extension.Credentials.Ledger.{CredentialLaws, Shows}
use crypt_keeper_extension.Credentials.Spec.{add_spec, rename_spec, delete_spec, delete_all_spec}
use crypt_keeper_extension.Credentials.Spec.{Spec}
use crypt_keeper_extension.Credentials.Adding.{add-refines}
use crypt_keeper_extension.Credentials.Changing.{
  rename-refines, delete-refines, delete_all-refines, get_all-refines,
}

-- A call to the service that changes the credentials.
pub data Call : Type 0 where
  adds renames : String → String → Call
  deletes : String → Call
  deletes_all : Call

module _ (env : Env) (api : CredentialApi) where
  abbrev pub call : Call → M Unit
  call (adds serialized name) = add env api serialized name
  call (renames hash name) = rename env api hash name
  call (deletes hash) = delete env hash
  call deletes_all = delete_all env

  abbrev pub call_spec : Call → List CryptkeeperCredential → Spec
  call_spec (adds serialized name) = add_spec api serialized name
  call_spec (renames hash name) = rename_spec hash name
  call_spec (deletes hash) = delete_spec hash
  call_spec deletes_all = delete_all_spec

  -- The answers to calls one after another, and the state after them.
  abbrev pub calls : List Call → Ext → List (Result Unit) × Ext
  calls [] s = ([], s)
  calls (c ∷ rest) s =
      let (answers, t) = calls rest (after (call c) s) in (result (call c) s ∷ answers, t)

  abbrev pub calls_spec :
      List Call → List CryptkeeperCredential → List (Result Unit) × List CryptkeeperCredential
  calls_spec [] cs = ([], cs)
  calls_spec (c ∷ rest) cs =
      let (answers, ds) = calls_spec rest (call_spec c cs).1 in ((call_spec c cs).0 ∷ answers, ds)

module _ (env : Env) (api : CredentialApi) (laws : Laws env) (api_laws : CredentialLaws api) where
  call-refines :
      (c : Call) (cs : List CryptkeeperCredential) (s : Ext)
      → Shows api env cs s
      → Ends
          (call env api c)
          s
          (call_spec env api c cs).0
          (Shows api env (call_spec env api c cs).1)
  call-refines (adds serialized name) cs s h =
      add-refines env api laws api_laws serialized name cs s h
  call-refines (renames hash name) cs s h = rename-refines env api laws api_laws hash name cs s h
  call-refines (deletes hash) cs s h = delete-refines env api laws api_laws hash cs s h
  call-refines deletes_all cs s h = delete_all-refines env api laws api_laws cs s h

  -- If the storage holds a list of credentials under the mnemonic: any calls to add, rename, delete
  -- and delete all answer, error messages included, as the same operations on the list do, and the
  -- service then gives the resulting list, in its order.
  pub calls-refine :
      (cs : List Call) (credentials : List CryptkeeperCredential) (s : Ext)
      → Shows api env credentials s
      → ((calls env api cs s).0 ≡ (calls_spec env api cs credentials).0)
        × (result (get_all env api) (calls env api cs s).1
            ≡ ok (calls_spec env api cs credentials).1)
  calls-refine [] credentials s h =
      let (t, e, k) = get_all-refines env api laws api_laws credentials s h in
      (refl, ap (λ (p : Result (List CryptkeeperCredential) × Ext). p.0) e)
  calls-refine (c ∷ cs) credentials s h =
      let (t, e, k) = call-refines c credentials s h in
      let (answers, listed) = calls-refine cs (call_spec env api c credentials).1 t k in
      subst
        (λ (p : Result Unit × Ext).
          (p.0 ∷ (calls env api cs p.1).0 ≡ (calls_spec env api (c ∷ cs) credentials).0)
          × (result (get_all env api) (calls env api cs p.1).1
              ≡ ok (calls_spec env api (c ∷ cs) credentials).1))
        (sym e)
        (ap (λ (rs : List (Result Unit)). (call_spec env api c credentials).0 ∷ rs) answers, listed)
