-- ===== src/Credentials/Changing.antt =====
-- Renaming, deleting and listing credentials do in storage what they do to the list.
use crypt_keeper_extension.Prelude.{
  find, some, suc, String, true, false, not, ◌≡◌, refl, List, [], ◌∷◌, map, any, filter, length,
  eqb, All-filter, arith, truthy, Bool-cases, inl, inr,
}
use crypt_keeper_extension.JsMap.Laws.{get_of_Absent, set-IsMap, delete-IsMap}
use crypt_keeper_extension.State.{Ext}
use crypt_keeper_extension.Env.{Env, Laws}
use crypt_keeper_extension.Exec.{ok}
use crypt_keeper_extension.Exec.Ends.{
  Ends, Ends-bind, Ends-bind_err, Ends-require, Ends-guard, Ends-found, Ends-missing,
}
use crypt_keeper_extension.Browser
use crypt_keeper_extension.Credentials.{
  deserialize, serialize, CredentialApi, CryptkeeperCredential, rename, get_all, delete, delete_all,
}
use crypt_keeper_extension.Credentials.Ledger.{
  CredentialLaws, Shows, entry_of, has_hash, renamed_at, get-entries, find_known, has-entries,
  Absent-entries, find-IsGenuine, renamed-IsGenuine, set-entries, delete-entries,
  deserialize-serialize, deserialize_all_lem,
}
use crypt_keeper_extension.Credentials.Spec.{rename_spec, delete_spec, delete_all_spec}
use crypt_keeper_extension.Credentials.Steps.{told, loaded, written, cleared}

module _ (env : Env) (api : CredentialApi) (laws : Laws env) (api_laws : CredentialLaws api) where
  read_back :
      (hash : String) (cs : List CryptkeeperCredential) (c : CryptkeeperCredential) (s : Ext)
      → Shows api env cs s
      → find (has_hash hash) cs ≡ some c
      → Ends (deserialize api (serialize api c)) s (ok c) (Shows api env cs)
  read_back hash cs c s h found =
      (s, deserialize-serialize api api_laws c s (find-IsGenuine api hash cs c h.genuine found), h)

  pub rename-refines :
      (hash name : String) (cs : List CryptkeeperCredential) (s : Ext)
      → Shows api env cs s
      → Ends
          (rename env api hash name)
          s
          (rename_spec hash name cs).0
          (Shows api env (rename_spec hash name cs).1)
  unfolding rename Browser.notify
  rename-refines hash name cs s h = elim (Bool-cases (truthy hash)) [
    | inr missing ↦ rw missing (Ends-guard _ _ s h)
    | inl given ↦ elim (Bool-cases (truthy name)) [
      | inr missing ↦ rw (given, missing) (Ends-guard _ _ s h)
      | inl named ↦ elim (Bool-cases (any (has_hash hash) cs)) [
        | inr unknown ↦
            rw (given, named, unknown)
              (Ends-bind _ _ s tt _ (Ends-require true _ s refl h) λ t k.
                Ends-bind _ _ t _ _ (loaded env api cs t k) λ u l.
                  rw (get_of_Absent hash _ (Absent-entries api hash cs unknown))
                    (Ends-bind_err _ _ u _ (Ends-missing _ u l)))
        | inl known ↦
            let (c, found) = find_known api hash cs known in
            rw (given, named, known)
              (Ends-bind _ _ s tt _ (Ends-require true _ s refl h) λ t k.
                Ends-bind _ _ t _ _ (loaded env api cs t k) λ u l.
                  rw (get-entries api hash cs c found) (
                    Ends-bind _ _ u _ _ (Ends-found _ _ u l) λ v m.
                      Ends-bind _ _ v c _ (read_back hash cs c v m found) λ w n.
                        rw (set-entries api hash name cs c n.holds.is_map found) (
                          Ends-bind _ _ w tt _
                            (written env api laws api_laws cs (map (renamed_at hash name) cs) w n
                              (rw (← set-entries api hash name cs c n.holds.is_map found)
                                (set-IsMap hash _ _ n.holds.is_map))
                              (renamed-IsGenuine api hash name cs n.genuine))
                            λ x o. told env api _ _ _ _ x o)))
      ]
    ]
  ]

  pub delete-refines :
      (hash : String) (cs : List CryptkeeperCredential) (s : Ext)
      → Shows api env cs s
      → Ends (delete env hash) s (delete_spec hash cs).0 (Shows api env (delete_spec hash cs).1)
  unfolding delete Browser.notify
  delete-refines hash cs s h = elim (Bool-cases (truthy hash)) [
    | inr missing ↦ rw missing (Ends-guard _ _ s h)
    | inl given ↦ elim (Bool-cases (any (has_hash hash) cs)) [
      | inr unknown ↦
          rw (given, unknown)
            (Ends-bind _ _ s tt _ (Ends-require true _ s refl h) λ t k.
              Ends-bind _ _ t _ _ (loaded env api cs t k)
                λ u l. rw (has-entries api hash cs, unknown) (Ends-guard _ _ u l))
      | inl known ↦
          rw (given, known)
            (Ends-bind _ _ s tt _ (Ends-require true _ s refl h) λ t k.
              Ends-bind _ _ t _ _ (loaded env api cs t k) λ u l.
                rw (has-entries api hash cs, known, delete-entries api hash cs l.holds.is_map)
                  (Ends-bind _ _ u tt _ (Ends-require true _ u refl l) λ v m.
                    Ends-bind _ _ v tt _
                      (written env api laws api_laws cs (filter (λ c. not (has_hash hash c)) cs) v m
                        (rw (← delete-entries api hash cs m.holds.is_map)
                          (delete-IsMap hash _ m.holds.is_map))
                        (All-filter _ _ cs m.genuine))
                      λ w n. told env api _ _ _ _ w n))
    ]
  ]

  pub delete_all-refines :
      (cs : List CryptkeeperCredential) (s : Ext)
      → Shows api env cs s
      → Ends (delete_all env) s (delete_all_spec cs).0 (Shows api env (delete_all_spec cs).1)
  unfolding delete_all Browser.notify
  delete_all-refines [] s h = Ends-bind _ _ s _ _ (loaded env api [] s h) λ t k. Ends-guard _ _ t k
  delete_all-refines (c ∷ cs) s h = Ends-bind _ _ s _ _ (loaded env api (c ∷ cs) s h) λ t k.
      let more : eqb (suc (length (map (entry_of api) cs))) 0 ≡ false = ground arith in
      rw more (
        Ends-bind _ _ t tt _ (Ends-require true _ t refl k) λ u l.
          Ends-bind _ _ u tt _ (cleared env api laws api_laws (c ∷ cs) u l)
            λ v m. told env api _ _ _ _ v m)

  pub get_all-refines :
      (cs : List CryptkeeperCredential) (s : Ext)
      → Shows api env cs s
      → Ends (get_all env api) s (ok cs) (Shows api env cs)
  unfolding get_all
  get_all-refines cs s h =
      Ends-bind _ _ s _ (ok cs) (loaded env api cs s h)
        λ t shown. (t, deserialize_all_lem api api_laws cs t shown.genuine, shown)
