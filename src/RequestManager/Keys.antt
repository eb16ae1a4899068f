-- ===== src/RequestManager/Keys.antt =====
-- The ids and windows by which requests and promises belong together, in lists.
use crypt_keeper_extension.Prelude.{
  ℕ, String, Bool, true, ◌≡◌, refl, ap, sym, ◌∙◌, List, [], ◌∷◌, ◌++◌, ◌⊎◌, inl, inr, filter, All,
  Bool-cases,
}

abbrev pub IsIn : String × ℕ → List (String × ℕ) → Type 0
IsIn k [] = ⊥
IsIn k (x ∷ xs) = (k ≡ x) ⊎ IsIn k xs

pub IsIn-append_l : (k : String × ℕ) (xs ys : List (String × ℕ)) → IsIn k xs → IsIn k (xs ++ ys)
IsIn-append_l k [] ys h = elim h [ ]
IsIn-append_l k (x ∷ xs) ys (inl e) = inl e
IsIn-append_l k (x ∷ xs) ys (inr h) = inr (IsIn-append_l k xs ys h)

pub IsIn-append_last : (k : String × ℕ) (xs : List (String × ℕ)) → IsIn k (xs ++ k ∷ [])
IsIn-append_last k [] = inl refl
IsIn-append_last k (x ∷ xs) = inr (IsIn-append_last k xs)

-- Taking one out leaves the others.
pub IsIn-without :
    (k j : String × ℕ) (before rest : List (String × ℕ))
    → IsIn k (before ++ j ∷ rest)
    → (k ≡ j) ⊎ IsIn k (before ++ rest)
IsIn-without k j [] rest h = h
IsIn-without k j (x ∷ xs) rest (inl e) = inr (inl e)
IsIn-without k j (x ∷ xs) rest (inr h) = elim (IsIn-without k j xs rest h) [
  | inl same ↦ inl same
  | inr other ↦ inr (inr other)
]

pub IsIn-filter :
    (keep : String × ℕ → Bool) (k : String × ℕ) (xs : List (String × ℕ))
    → keep k ≡ true
    → IsIn k xs
    → IsIn k (filter keep xs)
IsIn-filter keep k [] kept h = elim h [ ]
IsIn-filter keep k (x ∷ xs) kept (inl e) =
    let there : keep x ≡ true = ap keep (sym e) ∙ kept in rw there (inl e)
IsIn-filter keep k (x ∷ xs) kept (inr h) = elim (Bool-cases (keep x)) [
  | inl there ↦ rw there (inr (IsIn-filter keep k xs kept h))
  | inr dropped ↦ rw dropped (IsIn-filter keep k xs kept h)
]

module _ {A : Type 0} {P Q : A → Type 0} where
  pub All-weaken : ((x : A) → P x → Q x) → (xs : List A) → All P xs → All Q xs
  All-weaken f [] h = tt
  All-weaken f (x ∷ xs) (p, rest) = (f x p, All-weaken f xs rest)

  -- Of what a filter keeps, the test is known.
  pub All-kept :
      (keep : A → Bool)
      → ((x : A) → keep x ≡ true → P x → Q x)
      → (xs : List A) → All P xs
      → All Q (filter keep xs)
  All-kept keep f [] h = tt
  All-kept keep f (x ∷ xs) (p, rest) = elim (Bool-cases (keep x)) [
    | inl kept ↦ rw kept (f x kept p, All-kept keep f xs rest)
    | inr dropped ↦ rw dropped (All-kept keep f xs rest)
  ]
