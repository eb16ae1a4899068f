-- ===== src/Entry.antt =====
-- The forms of ui/pages with which the user comes in: Login, Onboarding, GenerateMnemonic, Recover and
-- ResetPassword. A form's handler gives where it goes or the error that it shows.
pub mod Saving
use crypt_keeper_extension.Prelude.{
  String, Bool, true, false, ◌&&◌, Option, none, some, truthy, present, is_some, ◌==◌,
  if◌then◌else◌,
}
use crypt_keeper_extension.Prelude.Text.{◌⧺◌}
use crypt_keeper_extension.Env.{Env}
use crypt_keeper_extension.Exec.{M, Result, ok, err, pure, catch, attempt, ◌>>=◌, ◌>>◌}
use crypt_keeper_extension.Session
use crypt_keeper_extension.Lock
use crypt_keeper_extension.Wallet
use crypt_keeper_extension.Store.{Store}
use crypt_keeper_extension.Store.Thunks.{Thunk, post, close_popup, generate_mnemonic, save_mnemonic}

-- A path that the form goes to, an error, or fields that its schema refuses.
pub data Outcome : Type 0 where
  went : String → Outcome
  failed : String → Outcome
  refused : Outcome

unfoldable pub submitted : {A : Type 0} → M A → String → M Outcome
submitted m path = catch (do m; pure (went path)) (λ e. pure (failed e))

-- `validationSchema` of Onboarding and of ResetPassword
unfoldable pub are_passwords : String → String → Bool
are_passwords password confirmation =
    truthy password && truthy confirmation && (confirmation == password)

-- `EGenerateMnemonicMode`, and the state of useGenerateMnemonic
pub data GenerateMode : Type 0 where
  generate : GenerateMode
  input : GenerateMode

pub record MnemonicForm : Type 0 where
  pub mode : GenerateMode
  pub mnemonic : String

-- `onChooseInputMode`
unfoldable pub choose_input_mode : MnemonicForm → MnemonicForm
choose_input_mode form = record { mode = input; mnemonic = "" }

-- `onChooseGenerateMode`
unfoldable pub choose_generate_mode : String → MnemonicForm → MnemonicForm
choose_generate_mode generated form = record { mode = generate; mnemonic = generated }

module _ (env : Env) where
  -- `onSubmit` of useLogin; closing the popup cannot throw.
  unfoldable pub login : String → M Outcome
  unfolding submitted
  login password = submitted (do post (Session.unlock env password); close_popup) "/home"

  -- `handleSubmit(onSubmit)` of useOnboarding
  unfoldable pub set_up : String → String → M Outcome
  unfolding submitted are_passwords
  set_up password confirmation =
      if are_passwords password confirmation
      then submitted (post (Lock.setup_password env password true)) "/generate-mnemonic"
      else pure refused

  -- `handleSubmit(onSubmit)` of useResetPassword, with the mnemonic of the url
  unfoldable pub reset_password : String → String → String → M Outcome
  unfolding submitted are_passwords
  reset_password mnemonic password confirmation =
      if are_passwords password confirmation
      then submitted (post (Lock.reset_password env mnemonic password)) "/home"
      else pure refused

  -- `mnemonicValidationSchema`
  unfoldable pub is_mnemonic : String → Bool
  is_mnemonic mnemonic = truthy mnemonic && env.validate_mnemonic mnemonic

  -- `handleSubmit(onRecover)` of useRecover; `trim` is that of strings.
  unfoldable pub recover : (String → String) → String → M Outcome
  unfolding submitted is_mnemonic
  recover trim mnemonic =
      if is_mnemonic mnemonic
      then submitted (post (Wallet.check_mnemonic env (trim mnemonic) true))
          ("/reset-password?mnemonic=" ⧺ trim mnemonic)
      else pure refused

  given_first : GenerateMode → String → Thunk Unit
  given_first generate mnemonic store = pure (tt, store)
  given_first input mnemonic store = generate_mnemonic env (some mnemonic) store

  saved_from : Store → Result (Unit × Store) → Outcome × Store
  saved_from store (ok (done, next)) = (went "/home", next)
  saved_from store (err e) = (failed e, store)

  save_from : Store → Result (Unit × Store) → M (Outcome × Store)
  unfolding saved_from
  save_from store (err e) = pure (failed e, store)
  save_from store (ok (done, next)) = do
    r ← attempt (save_mnemonic env next)
    pure (saved_from next r)

  -- `handleSubmit(onSaveMnemonic)`: the store keeps what was put into it before an error.
  unfoldable pub on_save_mnemonic : MnemonicForm → Thunk Outcome
  unfolding is_mnemonic given_first save_from
  on_save_mnemonic form store =
      if is_mnemonic form.mnemonic
      then (do r ← attempt (given_first form.mode form.mnemonic store); save_from store r)
      else pure (refused, store)
