-- ===== src/Crypto/Laws.antt =====
-- What the crypto service promises: a text is read back under the key that wrote it, and a backup is
-- accepted exactly if its authentication code fits.
use crypt_keeper_extension.Prelude.{
  String, true, ◌≡◌, ap, ◌↔◌, Option, some, arith, truthy, present, eq_iff, eq_refl, Option-cases,
  inl, inr, suc,
}
use crypt_keeper_extension.Prelude.Text.{take, drop, ◌⧺◌, take-append, drop-append, take-drop}
use crypt_keeper_extension.State.{Ext, Secrets}
use crypt_keeper_extension.Env.{Env, Laws}
use crypt_keeper_extension.Exec.{ok, result, ◌>>=◌}
use crypt_keeper_extension.Crypto.{
  CryptMode, text, secret_of, encryption_key, encrypt, decrypt, authentic_content,
  generate_encrypted_hmac, get_authentic_backup,
}

-- The key under which a text is encrypted in a state, if there is one.
abbrev pub key_of : Option String → CryptMode → Secrets → Option String
key_of secret mode t = present (encryption_key secret (secret_of mode t))

module _ (env : Env) where
  -- Encryption under a known key, as one equation.
  pub encrypt_lem :
      (plain key : String) (secret : Option String) (mode : CryptMode) (s : Ext)
      → key_of secret mode s.secrets ≡ some key
      → encrypt env plain secret mode s
        ≡ (ok (env.aes_encrypt s.draws plain key), record s { draws = suc s.draws })
  unfolding encrypt ◌>>=◌
  encrypt_lem plain key secret mode s h = rw h

  pub decrypt_lem :
      (ciphertext key plain : String) (secret : Option String) (mode : CryptMode) (s : Ext)
      → key_of secret mode s.secrets ≡ some key
      → env.aes_decrypt ciphertext key ≡ some plain
      → decrypt env ciphertext secret mode s ≡ (ok plain, s)
  unfolding decrypt ◌>>=◌
  decrypt_lem ciphertext key plain secret mode s h e = rw (h, e)

  module _ (laws : Laws env) where
    -- What `encrypt` has returned, `decrypt` with the same arguments turns back into the text, in any
    -- state that has the same secrets.
    pub decrypt-encrypt :
        (plain : String) (secret : Option String) (mode : CryptMode) (s t : Ext) (c : String)
        → t.secrets ≡ s.secrets
        → result (encrypt env plain secret mode) s ≡ ok c
        → decrypt env c secret mode t ≡ (ok plain, t)
    unfolding encrypt decrypt ◌>>=◌
    decrypt-encrypt plain secret mode s t c e h =
        elim (Option-cases (key_of secret mode s.secrets)) [
          | inl missing ↦ ground arith
          | inr (key, held) ↦ ground (arith, laws.decrypt_encrypt s.draws plain key)
        ]

    take-hmac : (content p rest : String) → take 64 (env.hmac content p ⧺ rest) ≡ env.hmac content p
    take-hmac content p rest =
        rw (← laws.hmac_size content p) (take-append (env.hmac content p) rest)

    drop-hmac : (content p rest : String) → drop 64 (env.hmac content p ⧺ rest) ≡ rest
    drop-hmac content p rest =
        rw (← laws.hmac_size content p) (drop-append (env.hmac content p) rest)

    pub authentic_content_lem :
        (content p : String) (s : Ext)
        → authentic_content env (env.hmac content p ⧺ content) p s ≡ (ok content, s)
    unfolding authentic_content ◌>>=◌
    authentic_content_lem content p s =
        rw (take-hmac content p content, drop-hmac content p content, eq_refl)

    authentic_content_sound :
        (backup content p : String) (s : Ext)
        → result (authentic_content env backup p) s ≡ ok content
        → backup ≡ env.hmac content p ⧺ content
    unfolding authentic_content ◌>>=◌
    authentic_content_sound backup content p s h =
        ground (arith, eq_iff (take 64 backup) (env.hmac (drop 64 backup) p), take-drop 64 backup)

    -- A content is accepted exactly if the backup is the authentication code of the content under the
    -- password, followed by the content.
    pub authentic_content_iff :
        (backup content p : String) (s : Ext)
        → (result (authentic_content env backup p) s ≡ ok content)
          ↔ (backup ≡ env.hmac content p ⧺ content)
    authentic_content_iff backup content p s = (
      authentic_content_sound backup content p s,
      λ e. rw e (ap (λ r. r.0) (authentic_content_lem content p s)),
    )

    -- A backup that `generateEncryptedHmac` has made for a password is read back by
    -- `getAuthenticBackup` with that password, in any state.
    pub get_authentic_backup-generate_encrypted_hmac :
        (ciphertext p backup : String) (s t : Ext)
        → result (generate_encrypted_hmac env ciphertext p) s ≡ ok backup
        → get_authentic_backup env (text backup) p t ≡ (ok (text ciphertext), t)
    unfolding generate_encrypted_hmac get_authentic_backup ◌>>=◌
    get_authentic_backup-generate_encrypted_hmac ciphertext p backup s t h =
        ground (arith, authentic_content_lem ciphertext p t)

    -- Only the current password makes a backup, and only one that is not empty.
    pub generate_encrypted_hmac_iff :
        (ciphertext p backup : String) (s : Ext)
        → (result (generate_encrypted_hmac env ciphertext p) s ≡ ok backup) ↔ (
            (s.secrets.password ≡ some p)
            × (truthy p ≡ true)
            × (backup ≡ env.hmac ciphertext p ⧺ ciphertext))
    unfolding generate_encrypted_hmac ◌>>=◌
    generate_encrypted_hmac_iff ciphertext p backup s = elim (Option-cases s.secrets.password) [
      | inl missing ↦ ground arith
      | inr (q, held) ↦ ground (arith, eq_iff q p)
    ]
