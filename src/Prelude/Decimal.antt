-- ===== src/Prelude/Decimal.antt =====
-- A decimal text tells its number.
use Prim.Native.Nat.{ℕ, zero, suc, ◌+◌, ◌-◌, ◌*◌, ◌/◌, ◌%◌, ◌≤◌, ◌<◌}
use Prim.Native.Char.{code}
use Prim.Native.String.{String, [], ◌∷◌}
use mathlib.Core.Path.{◌≡◌, refl, sym, ap, ◌∙◌}
use mathlib.Core.Logic.{inl, inr}
use native.Mathlib.Omega.{arith}
use text.Mathlib.TextLemmas.{nil-append, cons-append}
use crypt_keeper_extension.Prelude.Tests.{ltb, Bool-cases}
use crypt_keeper_extension.Prelude.Text.{◌⧺◌, digit, decimal, decimal_from}

-- The number that a text of digits stands for, after one that stands before it.
abbrev number_from : ℕ → String → ℕ
number_from before [] = before
number_from before (c ∷ s) = number_from (before * 10 + (code c - 48)) s

number_from-digit :
    (n before : ℕ) (rest : String)
    → n < 10
    → number_from before (digit n ⧺ rest) ≡ number_from (before * 10 + n) rest
number_from-digit zero before rest h = rw (cons-append, nil-append) refl
number_from-digit (suc zero) before rest h = rw (cons-append, nil-append) refl
number_from-digit (suc (suc zero)) before rest h = rw (cons-append, nil-append) refl
number_from-digit (suc (suc (suc zero))) before rest h = rw (cons-append, nil-append) refl
number_from-digit (suc (suc (suc (suc zero)))) before rest h = rw (cons-append, nil-append) refl
number_from-digit (suc (suc (suc (suc (suc zero))))) before rest h =
    rw (cons-append, nil-append) refl
number_from-digit (suc (suc (suc (suc (suc (suc zero)))))) before rest h =
    rw (cons-append, nil-append) refl
number_from-digit (suc (suc (suc (suc (suc (suc (suc zero))))))) before rest h =
    rw (cons-append, nil-append) refl
number_from-digit (suc (suc (suc (suc (suc (suc (suc (suc zero)))))))) before rest h =
    rw (cons-append, nil-append) refl
number_from-digit (suc (suc (suc (suc (suc (suc (suc (suc (suc zero))))))))) before rest h =
    rw (cons-append, nil-append) refl
number_from-digit (suc (suc (suc (suc (suc (suc (suc (suc (suc (suc n)))))))))) before rest h =
    absurd (omega arith)

number_from-decimal_from :
    (fuel n : ℕ) (rest : String)
    → n ≤ fuel
    → number_from 0 (decimal_from fuel n rest) ≡ number_from n rest
unfolding decimal_from
number_from-decimal_from zero n rest h =
    number_from-digit n 0 rest (omega arith) ∙ ap (λ k. number_from k rest) (omega arith)
number_from-decimal_from (suc fuel) n rest h = elim (Bool-cases (ltb n 10)) [
  | inl small ↦
      rw small
        (number_from-digit n 0 rest (ground arith) ∙ ap (λ k. number_from k rest) (omega arith))
  | inr large ↦ rw large (
      number_from-decimal_from fuel (n / 10) (digit (n % 10) ⧺ rest) (ground arith)
      ∙ number_from-digit (n % 10) (n / 10) rest (omega arith)
      ∙ ap (λ k. number_from k rest) (omega arith))
]

number_from-decimal : (n : ℕ) → number_from 0 (decimal n) ≡ n
unfolding decimal
number_from-decimal n = number_from-decimal_from n n "" (omega arith)

pub decimal-injective : (m n : ℕ) → decimal m ≡ decimal n → m ≡ n
decimal-injective m n h = sym (number_from-decimal m) ∙ ap (number_from 0) h ∙ number_from-decimal n
