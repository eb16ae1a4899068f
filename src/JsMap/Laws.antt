-- ===== src/JsMap/Laws.antt =====
-- The laws of the map: lookup after each operation, keys that are distinct, and reading entries
-- back into a map.
use crypt_keeper_extension.Prelude.{
  String, true, false, ◌≡◌, refl, ◌∙◌, sym, none, some, List, [], ◌∷◌, ◌++◌, arith, ◌==◌, eq_iff,
  eq_refl, if◌then◌else◌,
}
use crypt_keeper_extension.JsMap.{JsMap, get, has, set, delete, set_all, of_entries}
use mathlib.Core.List.{append-nil, append_assoc}

module _ {ℓ} {V : Type ℓ} where
  -- No entry has the key.
  abbrev pub Absent : String → JsMap V → Type 0
  Absent k [] = Unit
  Absent k ((j, v) ∷ m) = ((j == k) ≡ false) × Absent k m

  -- Each key is there once, as in every `Map`.
  abbrev pub IsMap : JsMap V → Type 0
  IsMap [] = Unit
  IsMap ((j, v) ∷ m) = Absent j m × IsMap m

  pub get-set :
      (k j : String) (v : V) (m : JsMap V)
      → get j (set k v m) ≡ (if k == j then some v else get j m)
  unfolding get set
  get-set k j v [] = refl
  get-set k j v ((i, w) ∷ m) = ground (arith, eq_iff k j, eq_iff i k, eq_iff i j, get-set k j v m)

  pub get_of_Absent : (k : String) (m : JsMap V) → Absent k m → get k m ≡ none
  unfolding get
  get_of_Absent k [] h = refl
  get_of_Absent k ((j, v) ∷ m) h = ground (arith, get_of_Absent k m h.1)

  pub Absent-of_get : (k : String) (m : JsMap V) → get k m ≡ none → Absent k m
  unfolding get
  Absent-of_get k [] h = tt
  Absent-of_get k ((j, v) ∷ m) h = ground (arith, Absent-of_get k m)

  pub get-delete :
      (k j : String) (m : JsMap V)
      → IsMap m
      → get j (delete k m) ≡ (if k == j then none else get j m)
  unfolding get delete
  get-delete k j [] h = ground arith
  get-delete k j ((i, w) ∷ m) h =
      ground (arith, eq_iff k j, eq_iff i k, eq_iff i j, get-delete k j m h.1, get_of_Absent j m)

  pub set-Absent :
      (k j : String) (v : V) (m : JsMap V) → (k == j) ≡ false → Absent j m → Absent j (set k v m)
  unfolding set
  set-Absent k j v [] e h = (e, tt)
  set-Absent k j v ((i, w) ∷ m) e h = ground (arith, set-Absent k j v m e h.1)

  pub set-IsMap : (k : String) (v : V) (m : JsMap V) → IsMap m → IsMap (set k v m)
  unfolding set
  set-IsMap k v [] h = (tt, tt)
  set-IsMap k v ((j, w) ∷ m) h =
      ground (arith, eq_iff j k, eq_iff k j, set-Absent k j v m, set-IsMap k v m h.1)

  pub delete-Absent : (k j : String) (m : JsMap V) → Absent j m → Absent j (delete k m)
  unfolding delete
  delete-Absent k j [] h = tt
  delete-Absent k j ((i, w) ∷ m) h = ground (arith, delete-Absent k j m h.1)

  pub delete-IsMap : (k : String) (m : JsMap V) → IsMap m → IsMap (delete k m)
  unfolding delete
  delete-IsMap k [] h = tt
  delete-IsMap k ((j, w) ∷ m) h = ground (arith, delete-Absent k j m h.0, delete-IsMap k m h.1)

  pub set_all-IsMap :
      (m : JsMap V) (entries : List (String × V)) → IsMap m → IsMap (set_all m entries)
  unfolding set_all
  set_all-IsMap m [] h = h
  set_all-IsMap m ((k, v) ∷ entries) h = set_all-IsMap (set k v m) entries (set-IsMap k v m h)

  pub of_entries-IsMap : (entries : List (String × V)) → IsMap (of_entries entries)
  unfolding of_entries
  of_entries-IsMap entries = set_all-IsMap [] entries tt

  -- A new key goes to the end.
  pub set_of_Absent : (k : String) (v : V) (m : JsMap V) → Absent k m → set k v m ≡ m ++ (k, v) ∷ []
  unfolding set
  set_of_Absent k v [] h = refl
  set_of_Absent k v ((j, w) ∷ m) h = ground (arith, set_of_Absent k v m h.1)

  abbrev Apart : JsMap V → JsMap V → Type 0
  Apart m [] = Unit
  Apart m ((k, v) ∷ n) = Absent k m × Apart m n

  Absent-append :
      (k j : String) (v : V) (m : JsMap V)
      → Absent k m
      → (j == k) ≡ false
      → Absent k (m ++ (j, v) ∷ [])
  Absent-append k j v [] h e = (e, tt)
  Absent-append k j v ((i, w) ∷ m) h e = (h.0, Absent-append k j v m h.1 e)

  Apart-append :
      (k : String) (v : V) (m n : JsMap V) → Apart m n → Absent k n → Apart (m ++ (k, v) ∷ []) n
  Apart-append k v m [] h a = tt
  Apart-append k v m ((j, w) ∷ n) h a = (
    Absent-append j k v m h.0 (ground (arith, eq_iff j k, eq_iff k j, a.0)),
    Apart-append k v m n h.1 a.1,
  )

  set_all_of_Apart : (m n : JsMap V) → Apart m n → IsMap n → set_all m n ≡ m ++ n
  unfolding set_all
  set_all_of_Apart m [] h d = sym (append-nil m)
  set_all_of_Apart m ((k, v) ∷ n) h d = rw (set_of_Absent k v m h.0) (
      set_all_of_Apart (m ++ (k, v) ∷ []) n (Apart-append k v m n h.1 d.0) d.1
      ∙ append_assoc m ((k, v) ∷ []) n)

  Apart-nil : (n : JsMap V) → Apart [] n
  Apart-nil [] = tt
  Apart-nil (e ∷ n) = (tt, Apart-nil n)

  -- Reading the entries of a map back gives the same map, in the same order.
  pub of_entries_of_IsMap : (m : JsMap V) → IsMap m → of_entries m ≡ m
  unfolding of_entries
  of_entries_of_IsMap m h = set_all_of_Apart [] m (Apart-nil m) h

  -- The entry that comes last wins, and those of the first map are kept elsewhere.
  pub get-set_all :
      (j : String) (m n : JsMap V)
      → IsMap n
      → get j (set_all m n) ≡ (if has j n then get j n else get j m)
  unfolding set_all has get
  get-set_all j m [] h = refl
  get-set_all j m ((k, v) ∷ n) h =
      ground
        (arith, get-set_all j (set k v m) n h.1, get-set k j v m, eq_iff k j, get_of_Absent k n h.0)

  pub has-set : (k j : String) (v : V) (m : JsMap V) → has k m ≡ true → has k (set j v m) ≡ true
  unfolding has
  has-set k j v m h = ground (arith, get-set j k v m)

  pub has-set_self : (k : String) (v : V) (m : JsMap V) → has k (set k v m) ≡ true
  unfolding has
  has-set_self k v m = simp (get-set, eq_refl)

  pub get-set_self : (k : String) (v : V) (m : JsMap V) → get k (set k v m) ≡ some v
  get-set_self k v m = simp (get-set, eq_refl)
