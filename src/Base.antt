-- ===== src/Base.antt =====
-- services/base: the lock flag of a service, and the one callback that waits for its unlocking.
pub mod Waiting
use crypt_keeper_extension.Prelude.{ℕ, Bool, true, false, Option, none, some}
use crypt_keeper_extension.State.{Ext, Base, resolved}
use crypt_keeper_extension.Exec.{M, pure, ◌>>=◌, ◌>>◌, gets, modify, send}

-- The classes that extend BaseService.
pub data Service : Type 0 where
  locker approval identity connection : Service

unfoldable pub base : Service → Ext → Base
base locker s = s.locker
base approval s = s.approval
base identity s = s.identity
base connection s = s.connection

unfoldable pub set_base : Service → Base → Ext → Ext
set_base locker b s = record s { locker = b }
set_base approval b s = record s { approval = b }
set_base identity b s = record s { identity = b }
set_base connection b s = record s { connection = b }

-- `this.isUnlocked = true`
unfoldable pub set_unlocked : Service → M Unit
unfolding base set_base
set_unlocked v =
    modify (λ s. set_base v (record { is_unlocked = true; unlock_cb = (base v s).unlock_cb }) s)

-- `this.unlockCB?.()`
unfoldable pub call_back : Option ℕ → M Unit
call_back none = pure tt
call_back (some waiter) = send (resolved waiter)

unfoldable pub on_unlocked : Service → M Bool
unfolding base set_base call_back
on_unlocked v = do
  cb ← gets (λ s. (base v s).unlock_cb)
  call_back cb
  modify (λ s. set_base v (record { is_unlocked = (base v s).is_unlocked; unlock_cb = none }) s)
  pure true

-- The promise that `awaitUnlock` returns to a waiter is resolved at once, or by the callback.
await_from : Service → ℕ → Base → M Unit
unfolding set_base
await_from v waiter b = elim b.is_unlocked [
  | true ↦ send (resolved waiter)
  | false ↦ modify (set_base v (record { is_unlocked = false; unlock_cb = some waiter }))
]

unfoldable pub await_unlock : Service → ℕ → M Unit
unfolding base await_from
await_unlock v waiter = do b ← gets (base v); await_from v waiter b

unfoldable pub on_lock : Service → M Unit → M Bool
unfolding base set_base
on_lock v internal_lock = do
  modify (set_base v (record { is_unlocked = false; unlock_cb = none }))
  internal_lock
  pure true
