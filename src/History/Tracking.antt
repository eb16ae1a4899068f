-- ===== src/History/Tracking.antt =====
-- Tracking an operation touches nothing but the history.
use crypt_keeper_extension.Prelude.{arith}
use crypt_keeper_extension.Types.{OperationType}
use crypt_keeper_extension.State.{Ext}
use crypt_keeper_extension.Env.{Env}
use crypt_keeper_extension.Exec.{◌>>=◌, after}
use crypt_keeper_extension.Exec.Unmoved.{Unmoved}
use crypt_keeper_extension.SimpleStorage
use crypt_keeper_extension.Crypto.{encrypt}
use crypt_keeper_extension.History.{OperationOptions, track_operation}

module _ (env : Env) where
  pub track_operation-Unmoved :
      (t : OperationType) (o : OperationOptions) (s : Ext)
      → Unmoved s (after (track_operation env t o) s)
  unfolding track_operation SimpleStorage.set encrypt ◌>>=◌
  track_operation-Unmoved t o s = ground arith
