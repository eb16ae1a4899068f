-- ===== src/Base/Waiting.antt =====
-- Who is told that a service was unlocked.
use crypt_keeper_extension.Prelude.{ℕ, true, false, ◌≡◌, none, ◌∷◌, arith}
use crypt_keeper_extension.State.{Ext, resolved}
use crypt_keeper_extension.Exec.{◌>>=◌, ◌>>◌, after}
use crypt_keeper_extension.Base.{
  Service, locker, approval, identity, connection, base, await_unlock, set_unlocked, on_unlocked,
}

-- Of two waiters at a locked service only the second is told of the unlocking: the promise of the
-- first is not resolved. The service has no callback then and is unlocked.
pub on_unlocked-await_unlock :
    (v : Service) (first second : ℕ) (s : Ext)
    → (base v s).is_unlocked ≡ false
    → let t =
        after
          (await_unlock v first >> (await_unlock v second >> (set_unlocked v >> on_unlocked v)))
          s in
      (t.effects ≡ resolved second ∷ s.effects)
      × (base v t ≡ record { is_unlocked = true; unlock_cb = none })
unfolding base await_unlock set_unlocked on_unlocked ◌>>=◌
on_unlocked-await_unlock locker first second s locked = ground arith
on_unlocked-await_unlock approval first second s locked = ground arith
on_unlocked-await_unlock identity first second s locked = ground arith
on_unlocked-await_unlock connection first second s locked = ground arith
