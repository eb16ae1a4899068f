-- ===== src/History.antt =====
-- services/history: the operations that were tracked, and whether tracking is on.
pub mod Order
pub mod Reload
pub mod Tracking
use crypt_keeper_extension.Prelude.{
  ℕ, eqb, String, Bool, true, false, not, Option, none, some, List, [], ◌∷◌, ◌++◌, present, leb,
  filter, if◌then◌else◌, ◌==◌,
}
use crypt_keeper_extension.Types.{OperationType, Operation, HistorySettings, IdentityData}
use crypt_keeper_extension.Types
use crypt_keeper_extension.State.{Ext}
use crypt_keeper_extension.Env.{Env}
use crypt_keeper_extension.Exec.{M, pure, ◌>>=◌, ◌>>◌, gets, modify, or_throw, draw}
use crypt_keeper_extension.SimpleStorage
use crypt_keeper_extension.SimpleStorage.{history_key, history_settings_key}
use crypt_keeper_extension.Crypto
use crypt_keeper_extension.Crypto.{mnemonic}
use crypt_keeper_extension.Browser.{notify}

pub record OperationOptions : Type 0 where
  pub identity : Option IdentityData
  pub group : Option String

abbrev pub no_options : OperationOptions
no_options = record { identity = none; group = none }

unfoldable pub get_settings : M (Option HistorySettings)
get_settings = gets (λ s. s.settings)

-- The number of an operation type, by which types are compared.
abbrev pub type_number : OperationType → ℕ
type_number Types.create_identity = 0
type_number Types.import_identity = 1
type_number Types.delete_identity = 2
type_number Types.delete_all_identities = 3
type_number Types.download_backup = 4
type_number Types.upload_backup = 5
type_number Types.reset_password = 6
type_number Types.add_verifiable_credential = 7
type_number Types.rename_verifiable_credential = 8
type_number Types.delete_verifiable_credential = 9
type_number Types.delete_all_verifiable_credentials = 10
type_number Types.reject_verifiable_credential_request = 11
type_number Types.generate_verifiable_presentation = 12
type_number Types.reject_verifiable_presentation_request = 13
type_number Types.reveal_identity_commitment = 14
type_number Types.join_group = 15

abbrev pub wanted : Option OperationType → Operation → Bool
wanted none operation = true
wanted (some t) operation = eqb (type_number operation.type) (type_number t)

unfoldable pub get_operations : Option OperationType → M (List Operation)
get_operations type = gets (λ s. filter (wanted type) s.operations)

module _ (env : Env) where
  unfoldable pub write_settings : HistorySettings → M Unit
  write_settings settings =
      SimpleStorage.set history_settings_key (some (env.json_settings.stringify settings))

  unfoldable pub enable_history : Bool → M Unit
  unfolding write_settings
  enable_history is_enabled = do
    modify (λ s. record s { settings = some (record { is_enabled = is_enabled }) })
    write_settings (record { is_enabled = is_enabled })

  parse_settings : Option String → M (Option HistorySettings)
  parse_settings none = pure none
  parse_settings (some raw) = do
    settings ← or_throw (env.json_settings.parse raw) "Unexpected token in JSON"
    pure (some settings)

  default_settings : Option HistorySettings → M HistorySettings
  unfolding write_settings
  default_settings (some settings) = pure settings
  default_settings none = do
    modify (λ s. record s { settings = some (record { is_enabled = true }) })
    write_settings (record { is_enabled = true })
    pure (record { is_enabled = true })

  unfoldable pub load_settings : M HistorySettings
  unfolding parse_settings default_settings
  load_settings = do
    raw ← SimpleStorage.get history_settings_key
    settings ← parse_settings (present raw)
    modify (λ s. record s { settings = settings })
    default_settings settings

  -- The stable sort by `+new Date(b.createdAt) - +new Date(a.createdAt)`: the newest first.
  pub insert_by_time : Operation → List Operation → List Operation
  insert_by_time x [] = x ∷ []
  insert_by_time x (y ∷ ys) =
      if leb (env.time_of y.created_at) (env.time_of x.created_at)
      then x ∷ y ∷ ys
      else y ∷ insert_by_time x ys

  unfoldable pub sort_by_time : List Operation → List Operation
  unfolding insert_by_time
  sort_by_time [] = []
  sort_by_time (x ∷ xs) = insert_by_time x (sort_by_time xs)

  stored_operations : Option String → M (List Operation)
  stored_operations none = pure []
  stored_operations (some raw) = do
    serialized ← Crypto.decrypt env raw none mnemonic
    or_throw (env.json_operations.parse serialized) "Unexpected token in JSON"

  unfoldable pub load_operations : M (List Operation)
  unfolding load_settings stored_operations sort_by_time
  load_operations = do
    load_settings
    raw ← SimpleStorage.get history_key
    operations ← stored_operations (present raw)
    modify (λ s. record s { operations = sort_by_time operations })
    pure (sort_by_time operations)

  unfoldable pub write_operations : List Operation → M Unit
  write_operations operations = do
    ciphertext ← Crypto.encrypt env (env.json_operations.stringify operations) none mnemonic
    SimpleStorage.set history_key (some ciphertext)

  -- `this.settings?.isEnabled`
  abbrev pub is_tracking : Option HistorySettings → Bool
  is_tracking none = false
  is_tracking (some settings) = settings.is_enabled

  unfoldable pub push_operation : OperationType → OperationOptions → M Unit
  unfolding write_operations
  push_operation type options = do
    n ← draw
    modify (λ s. record s {
      operations =
          s.operations
          ++ record {
            id = env.nanoid n;
            type = type;
            identity = options.identity;
            group = options.group;
            created_at = env.iso_now n;
          }
            ∷ [];
    })
    operations ← gets (λ s. s.operations)
    write_operations operations

  unfoldable pub track_operation : OperationType → OperationOptions → M Unit
  unfolding push_operation
  track_operation type options = do
    settings ← gets (λ s. s.settings)
    if is_tracking settings then push_operation type options else pure tt

  unfoldable pub remove_operation : String → M (List Operation)
  unfolding write_operations
  remove_operation id = do
    modify (λ s. record s { operations = filter (λ o. not (o.id == id)) s.operations })
    operations ← gets (λ s. s.operations)
    write_operations operations
    pure operations

unfoldable pub clear : M Unit
clear = do
  modify (λ s. record s { operations = [] })
  SimpleStorage.clear history_key
  notify "History clear" "History operations has been cleared"
