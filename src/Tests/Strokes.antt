-- ===== src/Tests/Strokes.antt =====
-- Numbers in front of a text.
use Prim.Native.Char.{Char, code}
use Prim.Native.String.{[], ◌∷◌}
use crypt_keeper_extension.Prelude.{
  ℕ, zero, suc, String, true, ◌≡◌, refl, Option, none, some, arith, eqb, truthy, truthy_of_ne, ap,
  if◌then◌else◌,
}
use crypt_keeper_extension.Prelude.Text.{size}

-- A number is so many strokes and a stop.
abbrev pub put_nat : ℕ → String → String
put_nat zero rest = "." ∷ rest
put_nat (suc n) rest = "|" ∷ put_nat n rest

abbrev one_more : Option (ℕ × String) → Option (ℕ × String)
one_more none = none
one_more (some (n, rest)) = some (suc n, rest)

abbrev pub get_nat : String → Option (ℕ × String)
get_nat [] = none
get_nat (c ∷ s) = let more = one_more (get_nat s) in if eqb (code c) 124 then more else some (0, s)

pub get_nat-put_nat : (n : ℕ) (rest : String) → get_nat (put_nat n rest) ≡ some (n, rest)
get_nat-put_nat zero rest = refl
get_nat-put_nat (suc n) rest = rw (get_nat-put_nat n rest) refl

cons-truthy : (c : Char) (s : String) → truthy (c ∷ s) ≡ true
cons-truthy c s = truthy_of_ne (c ∷ s) (λ e. ground (arith, ap size e))

pub put_nat-truthy : (n : ℕ) (rest : String) → truthy (put_nat n rest) ≡ true
put_nat-truthy zero rest = cons-truthy "." rest
put_nat-truthy (suc n) rest = cons-truthy "|" (put_nat n rest)

-- A text with a mark in front; one that is marked already stays as it is.
abbrev pub marked : String → String
marked [] = "#"
marked (c ∷ s) = if eqb (code c) 35 then c ∷ s else "#" ∷ (c ∷ s)

abbrev pub with_mark : String → String
with_mark s = "#" ∷ s

pub marked-marked : (s : String) → marked (marked s) ≡ marked s
marked-marked [] = refl
marked-marked (c ∷ s) = ground arith

pub marked-truthy : (s : String) → truthy (marked s) ≡ true
marked-truthy [] = refl
marked-truthy (c ∷ s) = ground (arith, cons-truthy c s, cons-truthy "#" (c ∷ s))

pub marked-with_mark : (s : String) → marked (with_mark s) ≡ with_mark s
marked-with_mark s = refl

pub with_mark-truthy : (s : String) → truthy (with_mark s) ≡ true
with_mark-truthy s = cons-truthy "#" s
