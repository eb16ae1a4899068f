-- ===== src/Prelude/Text.antt =====
-- Strings as the program handles them: pieces of a string, and a number in a template literal.
use Prim.Native.Nat.{ℕ, zero, suc, ◌/◌, ◌%◌}
use Prim.Native.String.{String, [], ◌∷◌, ◌++◌ as append}
use Prim.Native.Char.{Char, code}
use mathlib.Core.Bool.{Bool, true, false, ◌&&◌, ◌||◌}
use mathlib.Core.Path.{◌≡◌, refl, ap}
use native.Mathlib.Omega.{arith}
use text.Mathlib.TextLemmas.{nil-append, cons-append}
use crypt_keeper_extension.Prelude.Tests.{ltb, eqb, if◌then◌else◌, truthy, truthy_of_ne}

infixr 65 ◌⧺◌
-- The concatenation of strings, `a + b` or a template literal.
abbrev pub ◌⧺◌ : String → String → String
s ⧺ t = append s t

abbrev pub size : String → ℕ
size [] = 0
size (c ∷ s) = suc (size s)

-- `s.substring(0, n)`
abbrev pub take : ℕ → String → String
take zero s = ""
take (suc n) [] = ""
take (suc n) (c ∷ s) = c ∷ take n s

-- `s.substring(n)`
abbrev pub drop : ℕ → String → String
drop zero s = s
drop (suc n) [] = ""
drop (suc n) (c ∷ s) = drop n s

-- `s.startsWith(t)`
unfoldable pub starts_with : String → String → Bool
starts_with s [] = true
starts_with [] (d ∷ t) = false
starts_with (c ∷ s) (d ∷ t) = eqb (code c) (code d) && starts_with s t

-- `s.includes(t)`
unfoldable pub includes : String → String → Bool
unfolding starts_with
includes [] t = starts_with "" t
includes (c ∷ s) t = starts_with (c ∷ s) t || includes s t

abbrev pub digit : ℕ → String
digit zero = "0"
digit (suc zero) = "1"
digit (suc (suc zero)) = "2"
digit (suc (suc (suc zero))) = "3"
digit (suc (suc (suc (suc zero)))) = "4"
digit (suc (suc (suc (suc (suc zero))))) = "5"
digit (suc (suc (suc (suc (suc (suc zero)))))) = "6"
digit (suc (suc (suc (suc (suc (suc (suc zero))))))) = "7"
digit (suc (suc (suc (suc (suc (suc (suc (suc zero)))))))) = "8"
digit _ = "9"

-- The decimal digits of a number; the fuel is the number itself, which its digits never exceed.
unfoldable pub decimal_from : ℕ → ℕ → String → String
decimal_from zero n rest = digit n ⧺ rest
decimal_from (suc fuel) n rest =
    let more = decimal_from fuel (n / 10) (digit (n % 10) ⧺ rest) in
    if ltb n 10 then digit n ⧺ rest else more

unfoldable pub decimal : ℕ → String
unfolding decimal_from
decimal n = decimal_from n n ""

decimal_tests : (decimal 0 ≡ "0") × (decimal 9 ≡ "9") × (decimal 1205 ≡ "1205")
unfolding decimal
decimal_tests = (refl, refl, refl)

pub take-append : (s t : String) → take (size s) (s ⧺ t) ≡ s
take-append [] t = refl
take-append (c ∷ s) t = rw cons-append (ap (λ u. c ∷ u) (take-append s t))

pub drop-append : (s t : String) → drop (size s) (s ⧺ t) ≡ t
drop-append [] t = nil-append t
drop-append (c ∷ s) t = rw cons-append (drop-append s t)

pub take-drop : (n : ℕ) (s : String) → take n s ⧺ drop n s ≡ s
take-drop zero s = nil-append s
take-drop (suc n) [] = nil-append ""
take-drop (suc n) (c ∷ s) = rw cons-append (ap (λ u. c ∷ u) (take-drop n s))

pub truthy-append : (c : Char) (s t : String) → truthy ((c ∷ s) ⧺ t) ≡ true
truthy-append c s t = rw cons-append (truthy_of_ne (c ∷ append s t) λ e. longer (ap size e))
  where
    longer : suc (size (append s t)) ≡ 0 → ⊥
    longer e = omega arith
