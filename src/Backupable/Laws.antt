-- ===== src/Backupable/Laws.antt =====
-- What a service writes into a backup, it reads from that backup.
use crypt_keeper_extension.Prelude.{
  String, true, ◌≡◌, none, some, arith, present, truthy, Option-cases, inl, inr, subst,
}
use crypt_keeper_extension.State.{Ext}
use crypt_keeper_extension.Env.{Env, Laws}
use crypt_keeper_extension.Exec.{ok, pure, ◌>>=◌, >>=-eq-ok, after, result}
use crypt_keeper_extension.SimpleStorage
use crypt_keeper_extension.SimpleStorage.{StoreKey, read}
use crypt_keeper_extension.Crypto.{
  CryptMode, password, text, encrypt, decrypt, generate_encrypted_hmac, secret_of, encryption_key,
}
use crypt_keeper_extension.Crypto.Laws.{
  key_of, encrypt_lem, decrypt_lem, get_authentic_backup-generate_encrypted_hmac,
  generate_encrypted_hmac_iff,
}
use crypt_keeper_extension.Backupable.{encrypt_backup, download_encrypted_storage, open_backup}

module _ (env : Env) (laws : Laws env) where
  given_key : (p : String) (s : Ext) → truthy p ≡ true → key_of (some p) password s.secrets ≡ some p
  unfolding secret_of encryption_key
  given_key p s full = ground arith

  open_lem :
      (plain p encrypted b message : String) (s u t : Ext)
      → result (encrypt env plain (some p) password) s ≡ ok encrypted
      → result (generate_encrypted_hmac env encrypted p) u ≡ ok b
      → open_backup env message (text b) p t ≡ (ok plain, t)
  unfolding open_backup ◌>>=◌
  open_lem plain p encrypted b message s u t e h =
      let (_, full, _) = (generate_encrypted_hmac_iff env laws encrypted p b u).0 h in
      let made = encrypt_lem env plain p (some p) password s (given_key p s full) in
      let same : env.aes_encrypt s.draws plain p ≡ encrypted = ground (arith, made, e) in
      let opens =
        subst (λ c. env.aes_decrypt c p ≡ some plain) same (laws.decrypt_encrypt s.draws plain p) in
      rw (get_authentic_backup-generate_encrypted_hmac env laws encrypted p b u t h)
        (decrypt_lem env encrypted p plain (some p) password t (given_key p t full) opens)

  is_backup : (a b : String) (s : Ext) → result (pure (some a)) s ≡ ok (some b) → a ≡ b
  unfolding pure
  is_backup a b s h = cc

  nothing_stored :
      (mode : CryptMode) (p b : String) (s : Ext)
      → ¬ (result (encrypt_backup env mode p none) s ≡ ok (some b))
  unfolding encrypt_backup pure
  nothing_stored mode p b s h = ground arith

  backed_up :
      (mode : CryptMode) (p stored b message : String) (s t : Ext)
      → result (encrypt_backup env mode p (some stored)) s ≡ ok (some b)
      → (plain : String) × (result (decrypt env stored none mode) s ≡ ok plain)
        × (open_backup env message (text b) p t ≡ (ok plain, t))
  unfolding encrypt_backup
  backed_up mode p stored b message s t h =
      let (plain, read_back, h1) = >>=-eq-ok _ _ s h in
      let (encrypted, closed, h2) = >>=-eq-ok _ _ _ h1 in
      let (authentic, signed, h3) = >>=-eq-ok _ _ _ h2 in
      let same : authentic ≡ b = is_backup authentic b _ h3 in
      let u : Ext =
        after (encrypt env plain (some p) password) (after (decrypt env stored none mode) s) in
      (
        plain,
        read_back,
        open_lem plain p encrypted b message _ u t closed
            (subst (λ c. result (generate_encrypted_hmac env encrypted p) u ≡ ok c) same signed),
      )

  -- A backup that a service has downloaded with a password opens with that password, in any state,
  -- and gives what the service had stored under its key, decrypted.
  pub open_backup-download_encrypted_storage :
      (key : StoreKey) (mode : CryptMode) (p b message : String) (s t : Ext)
      → result (download_encrypted_storage env key mode p) s ≡ ok (some b)
      → (stored : String) × (plain : String) × (present (read key s.storage) ≡ some stored)
        × (result (decrypt env stored none mode) s ≡ ok plain)
        × (open_backup env message (text b) p t ≡ (ok plain, t))
  unfolding download_encrypted_storage SimpleStorage.get ◌>>=◌
  open_backup-download_encrypted_storage key mode p b message s t h =
      elim (Option-cases (present (read key s.storage))) [
        | inl missing ↦ absurd (
            nothing_stored mode p b s
              (subst (λ o. result (encrypt_backup env mode p o) s ≡ ok (some b)) missing h))
        | inr (stored, there) ↦
            let (plain, read_back, opens) =
              backed_up mode p stored b message s t
                (subst (λ o. result (encrypt_backup env mode p o) s ≡ ok (some b)) there h) in
            (stored, plain, there, read_back, opens)
      ]
