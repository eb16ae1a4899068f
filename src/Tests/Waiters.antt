-- ===== src/Tests/Waiters.antt =====
-- Two waiters at a service of a new installation.
use crypt_keeper_extension.Prelude.{true, ◌≡◌, refl, none, [], ◌∷◌}
use crypt_keeper_extension.State.{installed, resolved}
use crypt_keeper_extension.Exec.{◌>>◌, after}
use crypt_keeper_extension.Base.{locker, base, await_unlock, set_unlocked, on_unlocked}
use crypt_keeper_extension.Base.Waiting.{on_unlocked-await_unlock}

await_example :
    let t =
      after
        (await_unlock locker 1
          >> (await_unlock locker 2 >> (set_unlocked locker >> on_unlocked locker)))
        installed in
    (t.effects ≡ resolved 2 ∷ [])
    × (base locker t ≡ record { is_unlocked = true; unlock_cb = none })
unfolding base
await_example = on_unlocked-await_unlock locker 1 2 installed refl
