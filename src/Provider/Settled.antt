-- ===== src/Provider/Settled.antt =====
-- How a promise is settled, and the entries of the map of promises.
use crypt_keeper_extension.Prelude.{
  ℕ, suc, ◌<◌, String, false, ◌&&◌, not, ◌≡◌, refl, Option, none, some, List, [], ◌∷◌, eqb, present,
  is_some, arith, All, Bool-cases, inl, inr, ◌==◌, eq_iff, if◌then◌else◌,
}
use crypt_keeper_extension.Prelude.Text.{decimal}
use crypt_keeper_extension.Prelude.Decimal.{decimal-injective}
use crypt_keeper_extension.JsMap
use crypt_keeper_extension.JsMap.{JsMap}
use crypt_keeper_extension.Provider.{Reply, Settlement, resolved, rejected, settlement, settle}

abbrev settled_by : {P : Type 0} → Option String → Option P → Settlement P
settled_by none value = resolved value
settled_by (some e) value = rejected e

-- How a reply settles a promise.
abbrev pub settlement_of : {P : Type 0} → Reply P → Settlement P
settlement_of reply = settled_by (present reply.error) reply.value

-- The entries of the map are those of requests that were made.
abbrev pub IsAsked : ℕ → String × ℕ → Type 0
IsAsked n e = (e.0 ≡ decimal e.1) × (e.1 < n)

pub All-get :
    {V : Type 0} (Q : String × V → Type 0) (key : String) (m : JsMap V) (v : V)
    → All Q m
    → JsMap.get key m ≡ some v
    → Q (key, v)
unfolding JsMap.get
All-get Q key [] v h e = absurd (ground arith)
All-get Q key ((j, w) ∷ m) v (q, h) e = elim (Bool-cases (j == key)) [
  | inl same ↦
      let here : j ≡ key = ground (arith, eq_iff j key, same) in
      let it : w ≡ v = ground (arith, same, e) in rw (← here, ← it) q
  | inr other ↦ All-get Q key m v h (ground (arith, other, e))
]

pub decimal_apart : (i k : ℕ) → eqb i k ≡ false → (decimal i == decimal k) ≡ false
decimal_apart i k other = elim (Bool-cases (decimal i == decimal k)) [
  | inr apart ↦ apart
  | inl same ↦
      let e : i ≡ k =
        decimal-injective i k (ground (arith, eq_iff (decimal i) (decimal k), same)) in
      absurd (ground (arith, e, other))
]

pub settlement-settle :
    {P : Type 0} (i k : ℕ) (how : Settlement P) (before : List (ℕ × Settlement P))
    → settlement k (settle i how before)
      ≡ (if eqb i k && not (is_some (settlement k before)) then some how else settlement k before)
unfolding settle settlement
settlement-settle i k how before = ground arith

pub settlement-settle_open :
    {P : Type 0} (k j : ℕ) (how : Settlement P) (before : List (ℕ × Settlement P))
    → settlement k before ≡ none
    → settlement j (settle k how before) ≡ (if eqb k j then some how else settlement j before)
settlement-settle_open k j how before unsettled = elim (Bool-cases (eqb k j)) [
  | inl same ↦
      let e : k ≡ j = ground (arith, same) in
      ground (arith, e, same, unsettled, settlement-settle k j how before)
  | inr other ↦ ground (arith, other, settlement-settle k j how before)
]

pub All-weaken : (n : ℕ) (m : JsMap ℕ) → All (IsAsked n) m → All (IsAsked (suc n)) m
All-weaken n [] h = tt
All-weaken n ((j, v) ∷ m) ((e, lt), h) = ((e, omega arith), All-weaken n m h)

pub All-set :
    (n : ℕ) (m : JsMap ℕ) → All (IsAsked n) m → All (IsAsked (suc n)) (JsMap.set (decimal n) n m)
unfolding JsMap.set
All-set n [] h = ((refl, omega arith), tt)
All-set n ((j, v) ∷ m) ((e, lt), h) = elim (Bool-cases (j == decimal n)) [
  | inl same ↦ rw same ((ground (arith, eq_iff j (decimal n), same), omega arith), All-weaken n m h)
  | inr other ↦ rw other ((e, omega arith), All-set n m h)
]

pub All-delete :
    (n : ℕ) (key : String) (m : JsMap ℕ) → All (IsAsked n) m → All (IsAsked n) (JsMap.delete key m)
unfolding JsMap.delete
All-delete n key [] h = tt
All-delete n key ((j, v) ∷ m) (q, h) = elim (Bool-cases (j == key)) [
  | inl same ↦ rw same h
  | inr other ↦ rw other (q, All-delete n key m h)
]
