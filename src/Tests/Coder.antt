-- ===== src/Tests/Coder.antt =====
-- A plain text format for the sample environment: what is written in front of any text is read back.
use crypt_keeper_extension.Prelude.{
  ℕ, zero, suc, String, Bool, true, false, ◌≡◌, refl, Option, none, some, List, [], ◌∷◌, eqb,
  length,
}
use crypt_keeper_extension.Tests.Strokes.{put_nat, get_nat, get_nat-put_nat}
use crypt_keeper_extension.Prelude.Text.{◌⧺◌, size, take, drop, take-append, drop-append}
use crypt_keeper_extension.Prelude.Codec.{Codec, IsCodec}

abbrev pub Reader : Type 0 → Type 0
Reader A = String → Option (A × String)

pub record Coder (A : Type 0) : Type 0 where
  pub put : A → String → String
  pub get : Reader A
  pub get-put : (a : A) (rest : String) → get (put a rest) ≡ some (a, rest)

abbrev next : {A B : Type 0} → Option (A × String) → (A → Reader B) → Option (B × String)
next none f = none
next (some (a, rest)) f = f a rest

abbrev pub nat : Coder ℕ
nat = record { put = put_nat; get = get_nat; get-put = get_nat-put_nat }

-- A text follows its length.
abbrev pub put_text : String → String → String
put_text s rest = put_nat (size s) (s ⧺ rest)

abbrev pub get_text : Reader String
get_text t = next (get_nat t) (λ n rest. some (take n rest, drop n rest))

pub get_text-put_text : (s rest : String) → get_text (put_text s rest) ≡ some (s, rest)
get_text-put_text s rest =
    rw (get_nat-put_nat (size s) (s ⧺ rest), take-append s rest, drop-append s rest) refl

abbrev pub text : Coder String
text = record { put = put_text; get = get_text; get-put = get_text-put_text }

module _ {A B : Type 0} (a : Coder A) (b : Coder B) where
  abbrev put_pair : A × B → String → String
  put_pair p rest = a.put p.0 (b.put p.1 rest)

  abbrev get_pair : Reader (A × B)
  get_pair t = next (a.get t) (λ x u. next (b.get u) (λ y rest. some ((x, y), rest)))

  pub get_pair-put_pair : (p : A × B) (rest : String) → get_pair (put_pair p rest) ≡ some (p, rest)
  get_pair-put_pair p rest = rw (a.get-put p.0 (b.put p.1 rest), b.get-put p.1 rest) refl

  abbrev pub pair : Coder (A × B)
  pair = record { put = put_pair; get = get_pair; get-put = get_pair-put_pair }

module _ {A B : Type 0} (b : Coder B) (to : A → B) (from : B → A) where
  abbrev put_via : A → String → String
  put_via x rest = b.put (to x) rest

  abbrev get_via : Reader A
  get_via t = next (b.get t) (λ y rest. some (from y, rest))

  abbrev pub via : ((x : A) → from (to x) ≡ x) → Coder A
  via back = record {
    put = put_via;
    get = get_via;
    get-put = λ x rest. rw (b.get-put (to x) rest, back x) refl;
  }

module _ {A : Type 0} (a : Coder A) where
  abbrev put_option : Option A → String → String
  put_option none rest = put_nat 0 rest
  put_option (some x) rest = put_nat 1 (a.put x rest)

  abbrev get_tagged : ℕ → Reader (Option A)
  get_tagged zero rest = some (none, rest)
  get_tagged (suc n) rest = next (a.get rest) (λ x u. some (some x, u))

  abbrev get_option : Reader (Option A)
  get_option t = next (get_nat t) get_tagged

  pub get_option-put_option :
      (o : Option A) (rest : String) → get_option (put_option o rest) ≡ some (o, rest)
  get_option-put_option none rest = refl
  get_option-put_option (some x) rest = rw (a.get-put x rest) refl

  abbrev pub option : Coder (Option A)
  option = record { put = put_option; get = get_option; get-put = get_option-put_option }

  abbrev put_all : List A → String → String
  put_all [] rest = rest
  put_all (x ∷ xs) rest = a.put x (put_all xs rest)

  abbrev get_all : ℕ → Reader (List A)
  get_all zero t = some ([], t)
  get_all (suc n) t = next (a.get t) (λ x u. next (get_all n u) (λ xs rest. some (x ∷ xs, rest)))

  get_all-put_all :
      (xs : List A) (rest : String) → get_all (length xs) (put_all xs rest) ≡ some (xs, rest)
  get_all-put_all [] rest = refl
  get_all-put_all (x ∷ xs) rest = rw (a.get-put x (put_all xs rest), get_all-put_all xs rest) refl

  abbrev put_list : List A → String → String
  put_list xs rest = put_nat (length xs) (put_all xs rest)

  abbrev get_list : Reader (List A)
  get_list t = next (get_nat t) get_all

  pub get_list-put_list :
      (xs : List A) (rest : String) → get_list (put_list xs rest) ≡ some (xs, rest)
  get_list-put_list xs rest =
      rw (get_nat-put_nat (length xs) (put_all xs rest)) (get_all-put_all xs rest)

  abbrev pub list : Coder (List A)
  list = record { put = put_list; get = get_list; get-put = get_list-put_list }

abbrev whole : {A : Type 0} → Option (A × String) → Option A
whole none = none
whole (some (a, rest)) = some a

abbrev pub codec : {A : Type 0} → Coder A → Codec A
codec a = record { stringify = λ x. a.put x ""; parse = λ t. whole (a.get t) }

pub codec-IsCodec : {A : Type 0} (a : Coder A) → IsCodec (codec a)
codec-IsCodec a x = rw (a.get-put x "") refl

abbrev to_nat : Bool → ℕ
to_nat true = 1
to_nat false = 0

pub to_nat_back : (b : Bool) → eqb (to_nat b) 1 ≡ b
to_nat_back true = refl
to_nat_back false = refl

abbrev pub bool : Coder Bool
bool = via nat to_nat (λ n. eqb n 1) to_nat_back
