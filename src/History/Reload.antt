-- ===== src/History/Reload.antt =====
-- What the history shows after operations have been tracked.
use crypt_keeper_extension.Prelude.{
  suc, String, true, ◌≡◌, some, List, [], ◌∷◌, ◌++◌, arith, truthy,
}
use crypt_keeper_extension.Types.{Operation, OperationType, HistorySettings}
use crypt_keeper_extension.State.{Ext}
use crypt_keeper_extension.Env.{Env, Laws}
use crypt_keeper_extension.Exec.{ok, ◌>>=◌, after, result}
use crypt_keeper_extension.SimpleStorage
use crypt_keeper_extension.Crypto
use crypt_keeper_extension.History.{
  OperationOptions, track_operation, push_operation, load_operations, load_settings, sort_by_time,
  write_operations,
}

module _ (env : Env) (laws : Laws env) where
  -- Loading the history after an operation was tracked: while the mnemonic is there and the history
  -- is enabled, in memory and in storage, the tracked operations come back, sorted, with the new one
  -- among them.
  pub load_operations-track_operation :
      (type : OperationType) (options : OperationOptions) (key : String) (s : Ext)
      → s.secrets.mnemonic ≡ some key
      → truthy key ≡ true
      → s.settings ≡ some (record { is_enabled = true })
      → s.storage.history_settings
        ≡ some (env.json_settings.stringify (record { is_enabled = true }))
      → result (load_operations env) (after (track_operation env type options) s)
        ≡ ok (
            sort_by_time env (
              s.operations
              ++ record {
                id = env.nanoid s.draws;
                type = type;
                identity = options.identity;
                group = options.group;
                created_at = env.iso_now s.draws;
              }
                ∷ []))
  unfolding load_operations load_settings track_operation push_operation write_operations
      SimpleStorage.get SimpleStorage.set Crypto.encrypt Crypto.decrypt ◌>>=◌
  load_operations-track_operation type options key s held full on stored =
      let enabled : HistorySettings = record { is_enabled = true } in
      let ops : List Operation =
        s.operations
        ++ record {
          id = env.nanoid s.draws;
          type = type;
          identity = options.identity;
          group = options.group;
          created_at = env.iso_now s.draws;
        }
          ∷ [] in
      ground (
        arith,
        laws.settings enabled,
        laws.settings_text enabled,
        laws.operations ops,
        laws.decrypt_encrypt (suc s.draws) (env.json_operations.stringify ops) key,
        laws.encrypt_truthy (suc s.draws) (env.json_operations.stringify ops) key,
      )
