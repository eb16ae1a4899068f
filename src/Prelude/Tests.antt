-- ===== src/Prelude/Tests.antt =====
-- Boolean tests, the conditional, and lemmas that split on a computed value.
use Prim.Native.Nat.{ℕ, compare, Ordering}
use Prim.Native.String.{String}
use mathlib.Core.Path.{◌≡◌, refl}
use mathlib.Core.Logic.{◌⊎◌, ◌≢◌, inl, inr}
use mathlib.Core.Bool.{Bool, true, false, not}
use mathlib.Core.Option.{Option, none, some}
use native.Mathlib.Omega.{arith}
use text.Mathlib.Text.{◌==◌}
use text.Mathlib.TextEquality.{eq_iff}

abbrev pub ltb : ℕ → ℕ → Bool
ltb a b = elim (compare a b) [ Ordering.lt ↦ true | _ ↦ false ]

abbrev pub leb : ℕ → ℕ → Bool
leb a b = elim (compare a b) [ Ordering.gt ↦ false | _ ↦ true ]

abbrev pub eqb : ℕ → ℕ → Bool
eqb a b = elim (compare a b) [ Ordering.eq ↦ true | _ ↦ false ]

infix 1 if◌then◌else◌
abbrev pub if◌then◌else◌ {ℓ} : {A : Type ℓ} → Bool → A → A → A
if true then x else y = x
if false then x else y = y

-- JavaScript's truth of a string: all but the empty one.
abbrev pub truthy : String → Bool
truthy s = not (s == "")

-- JavaScript's `x || undefined` for a string that may be missing: the empty string counts as
-- missing.
abbrev pub present : Option String → Option String
present none = none
present (some s) = if truthy s then some s else none

abbrev pub is_some {ℓ} : {A : Type ℓ} → Option A → Bool
is_some none = false
is_some (some _) = true

pub Bool-cases : (b : Bool) → (b ≡ true) ⊎ (b ≡ false)
Bool-cases true = inl refl
Bool-cases false = inr refl

pub Option-cases {ℓ} : {A : Type ℓ} (o : Option A) → (o ≡ none) ⊎ ((a : A) × (o ≡ some a))
Option-cases none = inl refl
Option-cases (some a) = inr (a, refl)

pub truthy_of_ne : (s : String) → s ≢ "" → truthy s ≡ true
truthy_of_ne s h = ground (arith, eq_iff s "")

pub present_of_truthy : (s : String) → truthy s ≡ true → present (some s) ≡ some s
present_of_truthy s h = ground arith

pub some_of_present : (o : Option String) (a : String) → present o ≡ some a → o ≡ some a
some_of_present o a h = ground (arith, h)
