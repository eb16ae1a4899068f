-- ===== src/ZkIdentity/Ellipsis.antt =====
-- util/account.ts: the short form of a commitment.
use Prim.Native.String.{[], ◌∷◌}
use text.Mathlib.TextLemmas.{nil-append, cons-append}
use crypt_keeper_extension.Prelude.{
  ℕ, zero, suc, ◌+◌, ◌-◌, ◌≤◌, ◌<◌, String, ◌≡◌, refl, ap, ◌∙◌, sym, arith, leb, Bool-cases, inl,
  inr, if◌then◌else◌,
}
use crypt_keeper_extension.Prelude.Text.{size, take, drop, ◌⧺◌, take-drop}
use crypt_keeper_extension.ZkIdentity.{ellipsify}

size-append : (s t : String) → size (s ⧺ t) ≡ size s + size t
size-append [] t = rw (nil-append t) (omega arith)
size-append (c ∷ s) t = rw cons-append (omega (arith, size-append s t))

size-take : (n : ℕ) (s : String) → n ≤ size s → size (take n s) ≡ n
size-take zero s h = refl
size-take (suc n) [] h = absurd (omega arith)
size-take (suc n) (c ∷ s) h = ap suc (size-take n s (omega arith))

size-drop : (n : ℕ) (s : String) → n ≤ size s → size (drop n s) + n ≡ size s
size-drop n s h =
    omega (arith, size-take n s h, size-append (take n s) (drop n s), ap size (take-drop n s))

drop_nil : (n : ℕ) → drop n "" ≡ ""
drop_nil zero = refl
drop_nil (suc n) = refl

suc_form : (k m : ℕ) → suc (k + m) ≡ suc k + m
suc_form k m = omega arith

drop-drop : (k m : ℕ) (s : String) → drop m (drop k s) ≡ drop (k + m) s
drop-drop zero m s = ap (λ (j : ℕ). drop j s) (omega arith)
drop-drop (suc k) zero [] = rw (drop_nil (suc k + 0)) refl
drop-drop (suc k) (suc m) [] = rw (drop_nil (suc k + suc m)) refl
drop-drop (suc k) m (c ∷ s) = drop-drop k m s ∙ ap (λ (j : ℕ). drop j (c ∷ s)) (suc_form k m)

-- The short form of a text has at most 13 characters: a text of up to 10 stays as it is, and of a
-- longer one there are its first 6 and its last 4, with three dots between.
pub ellipsify_bounds :
    (text : String)
    → (size (ellipsify text) ≤ 13)
      × (if leb (size text) 10
          then ellipsify text ≡ text
          else (before : String) × (mid : String) × (last : String) × (text ≡ before ⧺ mid ⧺ last)
            × (size before ≡ 6)
            × (size last ≡ 4)
            × (ellipsify text ≡ before ⧺ "..." ⧺ last))
unfolding ellipsify
ellipsify_bounds text = elim (Bool-cases (leb (size text) 10)) [
  | inl short ↦ let bound : size text ≤ 10 = ground (arith, short) in rw short (omega arith, refl)
  | inr long ↦
      let bound : 10 < size text = ground (arith, long) in
      let n = size text in
      let last : drop (n - 10) (drop 6 text) ≡ drop (n - 4) text =
        drop-drop 6 (n - 10) text ∙ ap (λ (j : ℕ). drop j text) (omega arith) in
      let six : size (take 6 text) ≡ 6 = size-take 6 text (omega arith) in
      let four : size (drop (n - 4) text) ≡ 4 =
        omega (arith, size-drop (n - 4) text (omega arith)) in
      rw long (
        omega (
          arith,
          six,
          four,
          size-append (take 6 text) ("..." ⧺ drop (n - 4) text),
          size-append "..." (drop (n - 4) text),
        ),
        (
          take 6 text,
          take (n - 10) (drop 6 text),
          drop (n - 4) text,
          sym (rw (← last, take-drop (n - 10) (drop 6 text)) (take-drop 6 text)),
          six,
          four,
          refl,
        ),
      )
]
