-- ===== src/Credentials/Spec.antt =====
-- What the service promises: the credentials as a list, and what each operation answers and makes of
-- the list.
use crypt_keeper_extension.Prelude.{
  String, not, ◌&&◌, List, [], ◌∷◌, ◌++◌, map, any, filter, truthy, if◌then◌else◌,
}
use crypt_keeper_extension.Exec.{Result, ok, err}
use crypt_keeper_extension.Credentials.{CredentialApi, CryptkeeperCredential}
use crypt_keeper_extension.Credentials.Ledger.{has_hash, renamed_at}

-- The abstract service: what it answers, and its list afterwards.
abbrev pub Spec : Type 0
Spec = Result Unit × List CryptkeeperCredential

abbrev pub insert_spec : CryptkeeperCredential → List CryptkeeperCredential → Spec
insert_spec c cs =
    if any (has_hash c.metadata.hash) cs
    then (err "Verifiable Credential already exists.", cs)
    else (ok tt, cs ++ c ∷ [])

module _ (api : CredentialApi) where
  abbrev pub new_credential : String → String → CryptkeeperCredential
  new_credential credential name = record {
    verifiable_credential = credential;
    metadata = record { name = name; hash = api.sha256 credential };
  }

  -- A valid credential that is not there goes to the end, with the name and under its hash.
  abbrev pub add_spec : String → String → List CryptkeeperCredential → Spec
  add_spec serialized name cs =
      if truthy serialized
      then elim (api.validate serialized) [
        | err e ↦ (err e, cs)
        | ok credential ↦ insert_spec (new_credential credential name) cs
      ]
      else (err "Serialized Verifiable Credential is required.", cs)

abbrev pub rename_spec : String → String → List CryptkeeperCredential → Spec
rename_spec hash name cs =
    if truthy hash && truthy name
    then (if any (has_hash hash) cs
        then (ok tt, map (renamed_at hash name) cs)
        else (err "Verifiable Credential does not exist.", cs))
    else (err "Verifiable Credential hash and name are required.", cs)

abbrev pub delete_spec : String → List CryptkeeperCredential → Spec
delete_spec hash cs =
    if truthy hash
    then (if any (has_hash hash) cs
        then (ok tt, filter (λ c. not (has_hash hash c)) cs)
        else (err "Verifiable Credential does not exist.", cs))
    else (err "Verifiable Credential hash is required.", cs)

abbrev pub delete_all_spec : List CryptkeeperCredential → Spec
delete_all_spec [] = (err "No Verifiable Credentials to delete.", [])
delete_all_spec (c ∷ cs) = (ok tt, [])
