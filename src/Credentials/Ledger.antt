-- ===== src/Credentials/Ledger.antt =====
-- The credentials as a list, and how the stored map shows it.
use mathlib.Core.List.{map-append}
use crypt_keeper_extension.Prelude.{
  String, Bool, true, false, not, ◌≡◌, refl, sym, some, List, [], ◌∷◌, ◌++◌, map, any, find, filter,
  All, arith, truthy, ◌==◌, eq_iff, if◌then◌else◌, Bool-cases, inl, inr, false≢true, ◌∙◌,
}
use crypt_keeper_extension.Prelude.Codec.{IsCodec}
use crypt_keeper_extension.JsMap
use crypt_keeper_extension.JsMap.{JsMap}
use crypt_keeper_extension.JsMap.Laws.{IsMap, Absent, set_of_Absent}
use crypt_keeper_extension.State.{Ext}
use crypt_keeper_extension.Env.{Env}
use crypt_keeper_extension.Exec.{ok, ◌>>=◌}
use crypt_keeper_extension.Credentials.{
  CredentialApi, CryptkeeperCredential, serialize, deserialize, deserialize_all,
}
use crypt_keeper_extension.Credentials.Store.{Holds}

-- What is relied on of `CredentialApi`: the canonical text of a valid credential is a valid
-- credential with itself as its canonical text, and JSON reads back what it has written.
pub record CredentialLaws (api : CredentialApi) : Type 0 where
  pub canonical : (text c : String) → api.validate text ≡ ok c → api.validate c ≡ ok c
  pub canonical_text : (text c : String) → api.validate text ≡ ok c → truthy c ≡ true
  pub credential : IsCodec api.json_credential
  pub credential_text :
      (c : CryptkeeperCredential) → truthy (api.json_credential.stringify c) ≡ true

abbrev pub has_hash : String → CryptkeeperCredential → Bool
has_hash hash c = c.metadata.hash == hash

abbrev pub renamed : String → CryptkeeperCredential → CryptkeeperCredential
renamed name c = record c { metadata = record c.metadata { name = name } }

abbrev pub renamed_at : String → String → CryptkeeperCredential → CryptkeeperCredential
renamed_at hash name c = if has_hash hash c then renamed name c else c

module _ (api : CredentialApi) where
  -- A valid credential in its canonical text, under its hash.
  pub record IsGenuine (c : CryptkeeperCredential) : Type 0 where
    pub valid : api.validate c.verifiable_credential ≡ ok c.verifiable_credential
    pub nonempty : truthy c.verifiable_credential ≡ true
    pub hashed : c.metadata.hash ≡ api.sha256 c.verifiable_credential

  abbrev pub entry_of : CryptkeeperCredential → String × String
  entry_of c = (c.metadata.hash, serialize api c)

  -- The storage holds the credentials of the list, in its order, each once.
  pub record Shows (env : Env) (cs : List CryptkeeperCredential) (s : Ext) : Type 0 where
    pub holds : Holds env (map entry_of cs) s
    pub genuine : All IsGenuine cs

  pub has-entries :
      (hash : String) (cs : List CryptkeeperCredential)
      → JsMap.has hash (map entry_of cs) ≡ any (has_hash hash) cs
  unfolding JsMap.get JsMap.has
  has-entries hash [] = refl
  has-entries hash (c ∷ cs) = ground (arith, has-entries hash cs)

  pub Absent-entries :
      (hash : String) (cs : List CryptkeeperCredential)
      → any (has_hash hash) cs ≡ false
      → Absent hash (map entry_of cs)
  Absent-entries hash [] h = tt
  Absent-entries hash (c ∷ cs) h = ground (arith, Absent-entries hash cs)

  pub append-entries :
      (c : CryptkeeperCredential) (cs : List CryptkeeperCredential)
      → any (has_hash c.metadata.hash) cs ≡ false
      → JsMap.set c.metadata.hash (serialize api c) (map entry_of cs) ≡ map entry_of (cs ++ c ∷ [])
  append-entries c cs h =
      set_of_Absent _ _ (map entry_of cs) (Absent-entries c.metadata.hash cs h)
      ∙ sym (map-append entry_of cs (c ∷ []))

  -- A known hash is that of a credential of the list.
  pub find_known :
      (hash : String) (cs : List CryptkeeperCredential)
      → any (has_hash hash) cs ≡ true
      → (c : CryptkeeperCredential) × (find (has_hash hash) cs ≡ some c)
  find_known hash [] h = absurd (false≢true h)
  find_known hash (c ∷ cs) h = elim (Bool-cases (has_hash hash c)) [
    | inl e ↦ (c, rw e refl)
    | inr e ↦ let (d, f) = find_known hash cs (ground arith) in (d, rw e f)
  ]

  pub get-entries :
      (hash : String) (cs : List CryptkeeperCredential) (c : CryptkeeperCredential)
      → find (has_hash hash) cs ≡ some c
      → JsMap.get hash (map entry_of cs) ≡ some (serialize api c)
  unfolding JsMap.get
  get-entries hash [] c h = absurd (ground arith)
  get-entries hash (d ∷ cs) c h = ground (arith, get-entries hash cs c)

  pub find-IsGenuine :
      (hash : String) (cs : List CryptkeeperCredential) (c : CryptkeeperCredential)
      → All IsGenuine cs
      → find (has_hash hash) cs ≡ some c
      → IsGenuine c
  find-IsGenuine hash [] c g h = absurd (ground arith)
  find-IsGenuine hash (d ∷ cs) c g h = elim (Bool-cases (has_hash hash d)) [
    | inl e ↦ let same : d ≡ c = ground arith in rw (← same) g.0
    | inr e ↦ find-IsGenuine hash cs c g.1 (ground arith)
  ]

  pub renamed-IsGenuine :
      (hash name : String) (cs : List CryptkeeperCredential)
      → All IsGenuine cs
      → All IsGenuine (map (renamed_at hash name) cs)
  renamed-IsGenuine hash name [] g = tt
  renamed-IsGenuine hash name (c ∷ cs) g = elim (Bool-cases (has_hash hash c)) [
    | inl e ↦ rw e (
      record { valid = g.0.valid; nonempty = g.0.nonempty; hashed = g.0.hashed },
      renamed-IsGenuine hash name cs g.1,
    )
    | inr e ↦ rw e (g.0, renamed-IsGenuine hash name cs g.1)
  ]

  map_of_Absent :
      (hash name : String) (cs : List CryptkeeperCredential)
      → Absent hash (map entry_of cs)
      → map (renamed_at hash name) cs ≡ cs
  map_of_Absent hash name [] h = refl
  map_of_Absent hash name (c ∷ cs) h = rw (h.0, map_of_Absent hash name cs h.1) refl

  pub set-entries :
      (hash name : String) (cs : List CryptkeeperCredential) (c : CryptkeeperCredential)
      → IsMap (map entry_of cs)
      → find (has_hash hash) cs ≡ some c
      → JsMap.set hash (serialize api (renamed name c)) (map entry_of cs)
        ≡ map entry_of (map (renamed_at hash name) cs)
  unfolding JsMap.set
  set-entries hash name [] c m h = absurd (ground arith)
  set-entries hash name (d ∷ cs) c m h = elim (Bool-cases (has_hash hash d)) [
    | inl e ↦
        let same : d ≡ c = ground arith in
        let gone : Absent hash (map entry_of cs) = rw (← (eq_iff d.metadata.hash hash).0 e) m.0 in
        rw (e, map_of_Absent hash name cs gone, same) refl
    | inr e ↦ rw (e, set-entries hash name cs c m.1 (ground arith)) refl
  ]

  filter_of_Absent :
      (hash : String) (cs : List CryptkeeperCredential)
      → Absent hash (map entry_of cs)
      → filter (λ c. not (has_hash hash c)) cs ≡ cs
  filter_of_Absent hash [] h = refl
  filter_of_Absent hash (c ∷ cs) h = rw (h.0, filter_of_Absent hash cs h.1) refl

  pub delete-entries :
      (hash : String) (cs : List CryptkeeperCredential)
      → IsMap (map entry_of cs)
      → JsMap.delete hash (map entry_of cs) ≡ map entry_of (filter (λ c. not (has_hash hash c)) cs)
  unfolding JsMap.delete
  delete-entries hash [] m = refl
  delete-entries hash (d ∷ cs) m = elim (Bool-cases (has_hash hash d)) [
    | inl e ↦
        let gone : Absent hash (map entry_of cs) = rw (← (eq_iff d.metadata.hash hash).0 e) m.0 in
        rw (e, filter_of_Absent hash cs gone) refl
    | inr e ↦ rw (e, delete-entries hash cs m.1) refl
  ]

  module _ (laws : CredentialLaws api) where
    pub deserialize-serialize :
        (c : CryptkeeperCredential) (s : Ext)
        → IsGenuine c
        → deserialize api (serialize api c) s ≡ (ok c, s)
    unfolding deserialize serialize ◌>>=◌
    deserialize-serialize c s g =
        ground (arith, laws.credential_text c, laws.credential c, g.valid, g.nonempty)

    pub deserialize_all_lem :
        (cs : List CryptkeeperCredential) (s : Ext)
        → All IsGenuine cs
        → deserialize_all api (JsMap.values (map entry_of cs)) s ≡ (ok cs, s)
    unfolding deserialize_all ◌>>=◌
    deserialize_all_lem [] s g = refl
    deserialize_all_lem (c ∷ cs) s g =
        rw (deserialize-serialize c s g.0, deserialize_all_lem cs s g.1) refl
