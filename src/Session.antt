-- ===== src/Session.antt =====
-- The chains of `UNLOCK` and `LOCK` in cryptKeeper.ts: the steps of the services, one after another.
pub mod Lifecycle
use crypt_keeper_extension.Prelude.{String, Bool, true}
use crypt_keeper_extension.State.{Ext}
use crypt_keeper_extension.Env.{Env}
use crypt_keeper_extension.Exec.{M, pure, ◌>>=◌, ◌>>◌}
use crypt_keeper_extension.Base
use crypt_keeper_extension.Base.{locker, approval, identity, connection}
use crypt_keeper_extension.Lock
use crypt_keeper_extension.Approval
use crypt_keeper_extension.ZkIdentity
use crypt_keeper_extension.Connection

-- The popup sends the password alone, so that the status is notified.
unfoldable pub unlock : Env → String → M Bool
unlock env p = do
  Lock.unlock env p true
  Approval.unlock env
  ZkIdentity.unlock env
  Connection.unlock env
  Base.on_unlocked locker
  Base.on_unlocked approval
  Base.on_unlocked identity
  Base.on_unlocked connection

unfoldable pub lock : M Bool
lock = do Lock.lock; ZkIdentity.lock; Approval.lock
