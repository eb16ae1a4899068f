-- ===== src/Exec/Ends.antt =====
-- Total correctness of a method in a state: which result it ends with, and what holds afterwards.
use crypt_keeper_extension.Prelude.{String, Bool, none, some, true, false, ◌≡◌, refl}
use crypt_keeper_extension.State.{Ext}
use crypt_keeper_extension.Exec.{Result, ok, err, M, lift, throw, or_throw, require, ◌>>=◌, catch}

abbrev pub Ends : {A : Type 0} → M A → Ext → Result A → (Ext → Type 0) → Type 0
Ends m s r P = (t : Ext) × (m s ≡ (r, t)) × P t

module _ {A B : Type 0} {P : Ext → Type 0} where
  -- A chain whose first step returns ends as its rest does.
  pub Ends-bind :
      {Q : Ext → Type 0} (m : M A) (f : A → M B) (s : Ext) (a : A) (r : Result B)
      → Ends m s (ok a) P
      → ((t : Ext) → P t → Ends (f a) t r Q)
      → Ends (m >>= f) s r Q
  unfolding ◌>>=◌
  Ends-bind m f s a r (t, e, p) rest = let (u, d, q) = rest t p in (u, rw e d, q)

  -- A chain whose first step throws ends there.
  pub Ends-bind_err :
      (m : M A) (f : A → M B) (s : Ext) (e : String)
      → Ends m s (err e) P
      → Ends (m >>= f) s (err e) P
  unfolding ◌>>=◌
  Ends-bind_err m f s e (t, d, p) = (t, rw d refl, p)

module _ {A : Type 0} {P : Ext → Type 0} where
  pub Ends-catch_ok :
      (m : M A) (h : String → M A) (s : Ext) (a : A)
      → Ends m s (ok a) P
      → Ends (catch m h) s (ok a) P
  unfolding ◌>>=◌
  Ends-catch_ok m h s a (t, d, p) = (t, rw d refl, p)

  pub Ends-catch_err :
      {Q : Ext → Type 0} (m : M A) (h : String → M A) (s : Ext) (e : String) (r : Result A)
      → Ends m s (err e) P
      → ((t : Ext) → P t → Ends (h e) t r Q)
      → Ends (catch m h) s r Q
  unfolding ◌>>=◌
  Ends-catch_err m h s e r (t, d, p) rest = let (u, c, q) = rest t p in (u, rw d c, q)

pub Ends-require :
    {P : Ext → Type 0} (test : Bool) (e : String) (s : Ext)
    → test ≡ true
    → P s
    → Ends (require test e) s (ok tt) P
unfolding require
Ends-require test e s h p = (s, rw h refl, p)

pub Ends-throw :
    {A : Type 0} {P : Ext → Type 0} (e : String) (s : Ext)
    → P s
    → Ends (throw {A = A} e) s (err e) P
unfolding throw
Ends-throw e s p = (s, refl, p)

pub Ends-lift : {A : Type 0} {P : Ext → Type 0} (r : Result A) (s : Ext) → P s → Ends (lift r) s r P
unfolding lift
Ends-lift r s p = (s, refl, p)

-- A guard that does not hold ends a method.
pub Ends-guard :
    {A : Type 0} {P : Ext → Type 0} (e : String) (f : Unit → M A) (s : Ext)
    → P s
    → Ends (require false e >>= f) s (err e) P
unfolding ◌>>=◌
Ends-guard e f s p = (s, refl, p)

module _ {A : Type 0} {P : Ext → Type 0} where
  pub Ends-found : (a : A) (e : String) (s : Ext) → P s → Ends (or_throw (some a) e) s (ok a) P
  unfolding or_throw
  Ends-found a e s p = (s, refl, p)

  pub Ends-missing : (e : String) (s : Ext) → P s → Ends (or_throw {A = A} none e) s (err e) P
  unfolding or_throw
  Ends-missing e s p = (s, refl, p)
