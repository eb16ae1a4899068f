-- ===== src/Exec/Keeps.antt =====
-- Invariants of methods, one rule for each way to build a method: whether a method returns or
-- throws, it leaves a state with the property.
use crypt_keeper_extension.Prelude.{
  String, ◌≡◌, refl, sym, subst, Bool, true, false, Option, none, some, if◌then◌else◌,
}
use crypt_keeper_extension.State.{Ext}
use crypt_keeper_extension.Exec.{
  Result, ok, err, M, pure, throw, lift, gets, require, or_throw, catch, after, result, ◌>>=◌,
}

pub record Keeps {A : Type 0} (P : Ext → Type 0) (m : M A) : Type 0 where
  pub at : (s : Ext) → P s → P (m s).1

module _ {P : Ext → Type 0} where
  -- A method that leaves every state as it is keeps every property.
  pub Keeps-still : {A : Type 0} (m : M A) → ((s : Ext) → after m s ≡ s) → Keeps P m
  Keeps-still m still = record { at = λ s holds. subst P (sym (still s)) holds }

  pub Keeps-require : (test : Bool) (e : String) → Keeps P (require test e)
  unfolding require
  Keeps-require true e = Keeps-still (require true e) (λ s. refl)
  Keeps-require false e = Keeps-still (require false e) (λ s. refl)

  module _ {A : Type 0} where
    pub Keeps-gets : (read : Ext → A) → Keeps P (gets read)
    unfolding gets
    Keeps-gets read = Keeps-still (gets read) (λ s. refl)

    pub Keeps-pure : (value : A) → Keeps P (pure value)
    unfolding pure
    Keeps-pure value = Keeps-still (pure value) (λ s. refl)

    pub Keeps-throw : (e : String) → Keeps P (throw {A = A} e)
    unfolding throw
    Keeps-throw e = Keeps-still (throw e) (λ s. refl)

    pub Keeps-or_throw : (found : Option A) (e : String) → Keeps P (or_throw found e)
    unfolding or_throw
    Keeps-or_throw none e = Keeps-still (or_throw none e) (λ s. refl)
    Keeps-or_throw (some a) e = Keeps-still (or_throw (some a) e) (λ s. refl)

    pub Keeps-lift : (r : Result A) → Keeps P (lift r)
    unfolding lift
    Keeps-lift r = Keeps-still (lift r) (λ s. refl)

    pub Keeps-if : (b : Bool) (m n : M A) → Keeps P m → Keeps P n → Keeps P (if b then m else n)
    Keeps-if true m n km kn = km
    Keeps-if false m n km kn = kn

module _ {P : Ext → Type 0} {A B : Type 0} where
  -- The rest of a chain runs in the state that its first step leaves, or not at all.
  rest_keeps :
      (answer : Result A) (rest : A → M B) (t : Ext)
      → ((a : A) → Keeps P (rest a))
      → P t
      → P (after (lift answer >>= rest) t)
  unfolding ◌>>=◌
  rest_keeps (err e) rest t each holds = holds
  rest_keeps (ok a) rest t each holds = (each a).at t holds

  pub Keeps-bind :
      (first : M A) (rest : A → M B)
      → Keeps P first
      → ((a : A) → Keeps P (rest a))
      → Keeps P (first >>= rest)
  unfolding ◌>>=◌
  Keeps-bind first rest once each = record {
    at = λ s holds. rest_keeps (result first s) rest (after first s) each (once.at s holds);
  }

module _ {P : Ext → Type 0} {A : Type 0} where
  Keeps-caught :
      (r : Result A) (g : String → M A)
      → ((e : String) → Keeps P (g e))
      → Keeps P (catch (lift r) g)
  unfolding ◌>>=◌
  Keeps-caught (ok a) g kg = record { at = λ s h. h }
  Keeps-caught (err e) g kg = kg e

  pub Keeps-catch :
      (m : M A) (g : String → M A)
      → Keeps P m
      → ((e : String) → Keeps P (g e))
      → Keeps P (catch m g)
  unfolding ◌>>=◌
  Keeps-catch m g km kg = record {
    at = λ s h. let (r, s') = m s in (Keeps-caught r g kg).at s' (km.at s h);
  }

pub ruleset keeps_rules = (
  Keeps-pure, Keeps-throw, Keeps-lift, Keeps-gets, Keeps-or_throw, Keeps-if, Keeps-require,
  Keeps-bind, Keeps-catch,
)
