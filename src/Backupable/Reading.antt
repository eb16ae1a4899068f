-- ===== src/Backupable/Reading.antt =====
-- Opening a backup changes nothing, so that it keeps every property of the state.
use crypt_keeper_extension.Prelude.{String, List, [], ◌∷◌}
use crypt_keeper_extension.JsMap
use crypt_keeper_extension.State.{Ext}
use crypt_keeper_extension.Env.{Env}
use crypt_keeper_extension.Exec.Keeps.{
  Keeps, Keeps-bind, Keeps-gets, Keeps-pure, Keeps-throw, Keeps-or_throw, Keeps-if,
}
use crypt_keeper_extension.Crypto
use crypt_keeper_extension.Crypto.{
  CryptMode, BackupData, text, fields, authentic_content, authentic_fields, get_authentic_backup,
  check_secret_initialized,
}
use crypt_keeper_extension.Backupable.{open_backup, only_text}

module _ {P : Ext → Type 0} (env : Env) where
  Keeps-authentic_content : (ciphertext p : String) → Keeps P (authentic_content env ciphertext p)
  unfolding authentic_content
  Keeps-authentic_content ciphertext p = Keeps-if _ _ _ (Keeps-pure _) (Keeps-throw _)

  Keeps-authentic_fields :
      (acc entries : List (String × String)) (p : String)
      → Keeps P (authentic_fields env acc entries p)
  unfolding authentic_fields
  Keeps-authentic_fields acc [] p = Keeps-pure acc
  Keeps-authentic_fields acc ((key, value) ∷ rest) p =
      Keeps-bind _ _ (Keeps-authentic_content value p)
        λ content. Keeps-authentic_fields (JsMap.set key content acc) rest p

  Keeps-get_authentic_backup :
      (d : BackupData) (p : String) → Keeps P (get_authentic_backup env d p)
  unfolding get_authentic_backup check_secret_initialized
  Keeps-get_authentic_backup (fields entries) p =
      Keeps-bind _ _ (Keeps-or_throw _ _)
        λ k. Keeps-bind _ _ (Keeps-authentic_fields [] entries p) λ c. Keeps-pure _
  Keeps-get_authentic_backup (text ciphertext) p =
      Keeps-bind _ _ (Keeps-or_throw _ _)
        λ k. Keeps-bind _ _ (Keeps-authentic_content ciphertext p) λ c. Keeps-pure _

  Keeps-only_text : (message : String) (d : BackupData) → Keeps P (only_text message d)
  Keeps-only_text message (text t) = Keeps-pure t
  Keeps-only_text message (fields entries) = Keeps-throw message

  pub Keeps-open_backup :
      (message : String) (d : BackupData) (p : String) → Keeps P (open_backup env message d p)
  unfolding open_backup Crypto.decrypt check_secret_initialized
  Keeps-open_backup message d p = Keeps-bind _ _ (Keeps-get_authentic_backup d p) λ authentic.
      Keeps-bind _ _ (Keeps-only_text message authentic) λ encrypted.
        Keeps-bind _ _ (Keeps-gets _)
          λ held. Keeps-bind _ _ (Keeps-or_throw _ _) λ key. Keeps-or_throw _ _
