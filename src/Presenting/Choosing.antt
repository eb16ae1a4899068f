-- ===== src/Presenting/Choosing.antt =====
-- What is presented is what the user has chosen.
use crypt_keeper_extension.Prelude.{
  String, Bool, true, false, not, ◌≡◌, refl, ap, ◌∙◌, none, some, List, [], ◌∷◌, ◌++◌, map, any,
  filter, arith, Bool-cases, inl, inr, ◌==◌, eq_iff, eq_refl, if◌then◌else◌,
}
use crypt_keeper_extension.Presenting.{Presenting, is_empty, includes, toggle, create}
use crypt_keeper_extension.Credentials.{presentation_of}

-- Whether a hash was clicked an odd number of times.
abbrev pub is_odd : String → List String → Bool
is_odd hash [] = false
is_odd hash (h ∷ hs) = if h == hash then not (is_odd hash hs) else is_odd hash hs

abbrev pub toggles : List String → Presenting → Presenting
toggles [] p = p
toggles (h ∷ hs) p = toggles hs (toggle h p)

includes-filter :
    (k hash : String) (hs : List String)
    → includes k (filter (λ h. not (h == hash)) hs) ≡ (if hash == k then false else includes k hs)
includes-filter k hash [] = ground arith
includes-filter k hash (h ∷ hs) =
    ground (arith, includes-filter k hash hs, eq_iff h hash, eq_iff hash k, eq_iff h k)

includes-append :
    (k hash : String) (hs : List String)
    → includes k (hs ++ hash ∷ []) ≡ (if hash == k then true else includes k hs)
includes-append k hash [] = ground arith
includes-append k hash (h ∷ hs) = ground (arith, includes-append k hash hs)

includes-toggle :
    (k hash : String) (p : Presenting)
    → includes k (toggle hash p).selected
      ≡ (if hash == k then not (includes k p.selected) else includes k p.selected)
unfolding toggle
includes-toggle k hash p = elim (Bool-cases (includes hash p.selected)) [
  | inl there ↦ ground (arith, there, includes-filter k hash p.selected, eq_iff hash k)
  | inr missing ↦ ground (arith, missing, includes-append k hash p.selected, eq_iff hash k)
]

includes-toggles :
    (k : String) (hs : List String) (p : Presenting)
    → includes k (toggles hs p).selected
      ≡ (if is_odd k hs then not (includes k p.selected) else includes k p.selected)
includes-toggles k [] p = refl
includes-toggles k (h ∷ hs) p =
    ground (arith, includes-toggles k hs (toggle h p), includes-toggle k h p)

toggles_keep : (hs : List String) (p : Presenting) → ((toggles hs p).credentials ≡ p.credentials)
unfolding toggle
toggles_keep [] p = refl
toggles_keep (h ∷ hs) p = toggles_keep hs (toggle h p)

-- A clicked hash is one of the clicks.
is_odd-includes : (k : String) (hs : List String) → is_odd k hs ≡ true → includes k hs ≡ true
is_odd-includes k [] odd = absurd (ground (arith, odd))
is_odd-includes k (h ∷ hs) odd = elim (Bool-cases (h == k)) [
  | inl same ↦ ground (arith, same)
  | inr other ↦ ground (arith, other, is_odd-includes k hs (ground (arith, other, odd)))
]

any_of_includes :
    (f : String → Bool) (k : String) (hs : List String)
    → includes k hs ≡ true
    → f k ≡ true
    → any f hs ≡ true
any_of_includes f k [] there holds = absurd (ground (arith, there))
any_of_includes f k (h ∷ hs) there holds = elim (Bool-cases (h == k)) [
  | inl same ↦ let e : h ≡ k = ground (arith, eq_iff h k, same) in rw (e, holds) refl
  | inr other ↦
      let rest = any_of_includes f k hs (ground (arith, other, there)) holds in ground (arith, rest)
]

none_of_empty :
    (f : String → Bool) (chosen hs : List String)
    → is_empty chosen ≡ true
    → ((k : String) → includes k chosen ≡ f k)
    → any f hs ≡ false
none_of_empty f [] [] empty same = refl
none_of_empty f [] (h ∷ hs) empty same = ground (arith, same h, none_of_empty f [] hs empty same)
none_of_empty f (c ∷ cs) hs empty same = absurd (ground (arith, empty))

-- Something is selected exactly if something was clicked an odd number of times.
is_empty-any :
    (hs chosen : List String)
    → ((k : String) → includes k chosen ≡ is_odd k hs)
    → is_empty chosen ≡ not (any (λ h. is_odd h hs) hs)
is_empty-any hs [] same = rw (none_of_empty (λ h. is_odd h hs) [] hs refl same) refl
is_empty-any hs (c ∷ cs) same =
    let odd : is_odd c hs ≡ true = ground (arith, same c, eq_refl c) in
    rw (any_of_includes (λ h. is_odd h hs) c hs (is_odd-includes c hs odd) odd) refl

filter_ext :
    {A : Type 0} (f g : A → Bool) (xs : List A) → ((x : A) → f x ≡ g x) → filter f xs ≡ filter g xs
filter_ext f g [] same = refl
filter_ext f g (x ∷ xs) same = ground (arith, same x, filter_ext f g xs same)

-- From an empty choice, after any clicks: there is a presentation exactly if some credential was
-- clicked an odd number of times, and it has exactly the credentials of the store that were, in the
-- order of the store.
pub create-toggles :
    (hs : List String) (p : Presenting)
    → p.selected ≡ []
    → create (toggles hs p) ≡ (
        if any (λ h. is_odd h hs) hs
        then some (
            presentation_of (
              map
                (λ c. c.verifiable_credential)
                (filter (λ c. is_odd c.metadata.hash hs) p.credentials)))
        else none)
unfolding create
create-toggles hs p fresh =
    let same : (k : String) → includes k (toggles hs p).selected ≡ is_odd k hs =
      λ k. ground (arith, includes-toggles k hs p, ap (includes k) fresh) in
    let credentials =
      ap (filter (λ c. includes c.metadata.hash (toggles hs p).selected)) (toggles_keep hs p)
      ∙ filter_ext (λ c. includes c.metadata.hash (toggles hs p).selected)
          (λ c. is_odd c.metadata.hash hs) p.credentials (λ c. same c.metadata.hash) in
    ground (arith, is_empty-any hs (toggles hs p).selected same, credentials)
