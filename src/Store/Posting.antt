-- ===== src/Store/Posting.antt =====
-- `postMessage` of a call is that call, where it returns.
use crypt_keeper_extension.Prelude.{String, ◌≡◌, refl, arith, inl, inr}
use crypt_keeper_extension.State.{Ext}
use crypt_keeper_extension.Exec.{M, ok, pure, ◌>>=◌, catch, after, result, Result-cases}
use crypt_keeper_extension.Store.Thunks.{post}

pub post_of_ok :
    {A : Type 0} (m : M A) (s : Ext) (a : A) → result m s ≡ ok a → post m s ≡ (ok a, after m s)
unfolding post ◌>>=◌
post_of_ok m s a made = ground (arith, made)

pub post_ok :
    {A B : Type 0} (m : M A) (f : A → B) (s : Ext) (b : B)
    → result (post m >>= λ a. pure (f a)) s ≡ ok b
    → (a : A) × (result m s ≡ ok a) × (b ≡ f a) × (after (post m >>= λ a. pure (f a)) s ≡ after m s)
unfolding post ◌>>=◌
post_ok m f s b h = elim (Result-cases (result m s)) [
  | inl (e, thrown) ↦ absurd (ground (arith, thrown, h))
  | inr (a, made) ↦ (a, made, ground (arith, made, h), ground (arith, made))
]

pub catch_of_ok :
    {A : Type 0} (m : M A) (h : String → M A) (s t : Ext) (a : A)
    → m s ≡ (ok a, t)
    → catch m h s ≡ (ok a, t)
unfolding ◌>>=◌
catch_of_ok m h s t a made = rw made refl
