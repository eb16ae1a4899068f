-- ===== src/History/Order.antt =====
-- The order in which the history is shown: the newest operation first.
use crypt_keeper_extension.Prelude.{
  ℕ, ◌≡◌, ◌≤◌, refl, List, [], ◌∷◌, arith, eqb, leb, filter, All, Bool-cases, inl, inr,
}
use mathlib.Core.List.{Perm}
use mathlib.Core.List.Perm
use crypt_keeper_extension.Types.{Operation}
use crypt_keeper_extension.Env.{Env}
use crypt_keeper_extension.History.{sort_by_time, insert_by_time}

module _ (env : Env) where
  abbrev time : Operation → ℕ
  time o = env.time_of o.created_at

  -- No operation is older than a later one.
  abbrev pub IsNewestFirst : List Operation → Type 0
  IsNewestFirst [] = Unit
  IsNewestFirst (x ∷ xs) = All (λ y. time y ≤ time x) xs × IsNewestFirst xs

  All-weaken :
      (a b : ℕ) (xs : List Operation) → a ≤ b → All (λ y. time y ≤ a) xs → All (λ y. time y ≤ b) xs
  All-weaken a b [] le h = tt
  All-weaken a b (x ∷ xs) le h = (omega (arith, h.0), All-weaken a b xs le h.1)

  insert_by_time-All :
      (P : Operation → Type 0) (x : Operation) (xs : List Operation)
      → P x
      → All P xs
      → All P (insert_by_time env x xs)
  unfolding insert_by_time
  insert_by_time-All P x [] hx h = (hx, tt)
  insert_by_time-All P x (y ∷ ys) hx h = elim (Bool-cases (leb (time y) (time x))) [
    | inl e ↦ rw e (hx, h)
    | inr e ↦ rw e (h.0, insert_by_time-All P x ys hx h.1)
  ]

  insert_by_time-IsNewestFirst :
      (x : Operation) (xs : List Operation)
      → IsNewestFirst xs
      → IsNewestFirst (insert_by_time env x xs)
  unfolding insert_by_time
  insert_by_time-IsNewestFirst x [] h = (tt, tt)
  insert_by_time-IsNewestFirst x (y ∷ ys) h = elim (Bool-cases (leb (time y) (time x))) [
    | inl e ↦ rw e ((ground arith, All-weaken (time y) (time x) ys (ground arith) h.0), h)
    | inr e ↦
        rw e (insert_by_time-All _ x ys (ground arith) h.0, insert_by_time-IsNewestFirst x ys h.1)
  ]

  insert_by_time-Perm :
      (x : Operation) (xs : List Operation) → Perm (insert_by_time env x xs) (x ∷ xs)
  unfolding insert_by_time
  insert_by_time-Perm x [] = Perm.rfl
  insert_by_time-Perm x (y ∷ ys) = elim (Bool-cases (leb (time y) (time x))) [
    | inl e ↦ rw e Perm.rfl
    | inr e ↦ rw e (Perm.trans (Perm.cons y (insert_by_time-Perm x ys)) (Perm.swap x y ys))
  ]

  -- The operations of one moment.
  abbrev pub at_time : ℕ → List Operation → List Operation
  at_time t = filter (λ o. eqb (time o) t)

  insert_by_time-at_time :
      (t : ℕ) (x : Operation) (xs : List Operation)
      → at_time t (insert_by_time env x xs) ≡ at_time t (x ∷ xs)
  unfolding insert_by_time
  insert_by_time-at_time t x [] = refl
  insert_by_time-at_time t x (y ∷ ys) = ground (arith, insert_by_time-at_time t x ys)

  sort_by_time-IsNewestFirst : (xs : List Operation) → IsNewestFirst (sort_by_time env xs)
  unfolding sort_by_time
  sort_by_time-IsNewestFirst [] = tt
  sort_by_time-IsNewestFirst (x ∷ xs) =
      insert_by_time-IsNewestFirst x (sort_by_time env xs) (sort_by_time-IsNewestFirst xs)

  sort_by_time-Perm : (xs : List Operation) → Perm (sort_by_time env xs) xs
  unfolding sort_by_time
  sort_by_time-Perm [] = Perm.rfl
  sort_by_time-Perm (x ∷ xs) =
      Perm.trans (insert_by_time-Perm x (sort_by_time env xs)) (Perm.cons x (sort_by_time-Perm xs))

  sort_by_time-at_time :
      (t : ℕ) (xs : List Operation) → at_time t (sort_by_time env xs) ≡ at_time t xs
  unfolding sort_by_time
  sort_by_time-at_time t [] = refl
  sort_by_time-at_time t (x ∷ xs) =
      ground (arith, insert_by_time-at_time t x (sort_by_time env xs), sort_by_time-at_time t xs)

  -- The history is sorted from the newest to the oldest, it has the operations that it had, and those
  -- of one moment keep their order.
  pub sort_by_time_lem :
      (xs : List Operation)
      → IsNewestFirst (sort_by_time env xs)
        × Perm (sort_by_time env xs) xs
        × ((t : ℕ) → at_time t (sort_by_time env xs) ≡ at_time t xs)
  sort_by_time_lem xs =
      (sort_by_time-IsNewestFirst xs, sort_by_time-Perm xs, λ t. sort_by_time-at_time t xs)
