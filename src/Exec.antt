-- ===== src/Exec.antt =====
-- Methods of the services: they change the state and may throw. What was changed before a throw
-- stays changed, so the state comes back beside the error.
pub mod Keeps
pub mod Unmoved
pub mod Ends
use crypt_keeper_extension.Prelude.{
  ℕ, suc, String, Bool, true, false, Option, none, some, ◌∷◌, ◌≡◌, refl, ap, ◌⊎◌, inl, inr, arith,
}
use crypt_keeper_extension.State.{Ext, Effect}

-- An error is its message.
pub data Result (A : Type 0) : Type 0 where
  ok : A → Result A
  err : String → Result A

abbrev pub M : Type 0 → Type 0
M A = Ext → Result A × Ext

unfoldable pub pure : {A : Type 0} → A → M A
pure a s = (ok a, s)

unfoldable pub throw : {A : Type 0} → String → M A
throw e s = (err e, s)

abbrev continue : {A B : Type 0} → Result A → (A → M B) → M B
continue (ok a) f s = f a s
continue (err e) f s = (err e, s)

abbrev caught : {A : Type 0} → Result A → (String → M A) → M A
caught (ok a) h s = (ok a, s)
caught (err e) h s = h e s

-- `try { m } catch (error) { h(error) }`
unfoldable pub catch : {A : Type 0} → M A → (String → M A) → M A
catch m h s = let (r, s') = m s in caught r h s'

-- The error of a method, or what it returns, as a value.
unfoldable pub attempt : {A : Type 0} → M A → M (Result A)
attempt m s = let (r, s') = m s in (ok r, s')

unfoldable pub lift : {A : Type 0} → Result A → M A
lift r s = (r, s)

unfoldable pub gets : {A : Type 0} → (Ext → A) → M A
gets f s = (ok (f s), s)

unfoldable pub modify : (Ext → Ext) → M Unit
modify f s = (ok tt, f s)

-- A guard: `if (!test) throw new Error(e)`.
unfoldable pub require : Bool → String → M Unit
require true e s = (ok tt, s)
require false e s = (err e, s)

unfoldable pub or_throw : {A : Type 0} → Option A → String → M A
or_throw none e s = (err e, s)
or_throw (some a) e s = (ok a, s)

-- `if (test) { m }`
abbrev pub when : Bool → M Unit → M Unit
when true m = m
when false m = pure tt

unfoldable pub send : Effect → M Unit
send e s = (ok tt, record s { effects = e ∷ s.effects })

-- A random value or a time.
unfoldable pub draw : M ℕ
draw s = (ok s.draws, record s { draws = suc s.draws })

infixl 5 ◌>>=◌ ◌>>◌
-- Opening this opens all that methods are made of.
unfoldable pub ◌>>=◌ : {A B : Type 0} → M A → (A → M B) → M B
unfolding pure throw lift gets modify require or_throw send draw catch attempt
◌>>=◌ m f s = let (r, s') = m s in continue r f s'

abbrev pub ◌>>◌ : {A B : Type 0} → M A → M B → M B
m >> n = m >>= λ _. n

-- The state that a method leaves, and its result.
abbrev pub after : {A : Type 0} → M A → Ext → Ext
after m s = (m s).1

abbrev pub result : {A : Type 0} → M A → Ext → Result A
result m s = (m s).0

continue-eq-ok :
    {A B : Type 0} (r : Result A) (f : A → M B) (s : Ext) {b : B}
    → (continue r f s).0 ≡ ok b
    → (a : A) × (r ≡ ok a) × (result (f a) s ≡ ok b)
continue-eq-ok (ok a) f s h = (a, refl, h)
continue-eq-ok (err e) f s h = cc

-- A chain that returns has returned at its first step.
pub >>=-eq-ok :
    {A B : Type 0} (m : M A) (f : A → M B) (s : Ext) {b : B}
    → result (m >>= f) s ≡ ok b
    → (a : A) × (result m s ≡ ok a) × (result (f a) (after m s) ≡ ok b)
unfolding ◌>>=◌
>>=-eq-ok m f s h = let (r, s') = m s in continue-eq-ok r f s' h

pub Result-cases :
    {A : Type 0} (r : Result A) → ((e : String) × (r ≡ err e)) ⊎ ((a : A) × (r ≡ ok a))
Result-cases (err e) = inl (e, refl)
Result-cases (ok a) = inr (a, refl)

-- A chain whose first step has returned goes on from there.
pub >>=_of_ok :
    {A B : Type 0} (m : M A) (f : A → M B) (s : Ext) (a : A)
    → result m s ≡ ok a
    → (m >>= f) s ≡ f a (after m s)
unfolding ◌>>=◌
>>=_of_ok m f s a h = ap (λ (r : Result _). continue r f (m s).1) h

pub after-pure :
    {A B : Type 0} (m : M A) (f : A → B) (s : Ext) → after (m >>= λ a. pure (f a)) s ≡ after m s
unfolding ◌>>=◌
after-pure m f s = elim (Result-cases (result m s)) [
  | inl (e, thrown) ↦ ground (arith, thrown)
  | inr (a, made) ↦ ground (arith, made)
]

pub ok_injective : {A : Type 0} {a b : A} → ok a ≡ ok b → a ≡ b
ok_injective h = cc
