-- ===== src/Mpsc/Buffer.antt =====
-- Lemmas on lists and options for the buffer of mpsc_channel.h.
use galay_kernel.Prelude.{
  ℕ, zero, suc, ◌+◌, ◌≤◌, ◌<◌, ◌≡◌, refl, ap, ◌∙◌, true, false, Option, none, some, List, [], ◌∷◌,
  ◌++◌, arith, length, drop, get_elem?, option_list, if◌then◌else◌, is_some, is_empty,
}

pub drop-get :
    (xs : List ℕ) (i : ℕ)
    → i < length xs
    → option_list (get_elem? xs i) ++ drop (i + 1) xs ≡ drop i xs
drop-get [] i h = absurd (omega arith)
drop-get (x ∷ xs) zero h = refl
drop-get (x ∷ xs) (suc i) h =
    ap (λ k. option_list (get_elem? xs i) ++ drop k (x ∷ xs))
      (let e : suc i + 1 ≡ suc (i + 1) = omega arith in e)
    ∙ drop-get xs i (omega arith)

pub get-length : (xs : List ℕ) (i : ℕ) → i < length xs → length (option_list (get_elem? xs i)) ≡ 1
get-length [] i h = absurd (omega arith)
get-length (x ∷ xs) zero h = refl
get-length (x ∷ xs) (suc i) h = get-length xs i (omega arith)

pub nil_of_length : (xs : List ℕ) → length xs ≡ 0 → xs ≡ []
nil_of_length [] e = refl
nil_of_length (x ∷ xs) e = absurd (omega arith)

pub some_length : (o : Option ℕ) → is_some o ≡ true → length (option_list o) ≡ 1
some_length none e = absurd (cc)
some_length (some x) e = refl

pub none_of : (o : Option ℕ) → is_some o ≡ false → o ≡ none
none_of none e = refl
none_of (some x) e = absurd (cc)

pub drop_all : (xs : List ℕ) (i : ℕ) → length xs ≤ i → drop i xs ≡ []
drop_all [] zero h = refl
drop_all [] (suc i) h = refl
drop_all (x ∷ xs) zero h = absurd (omega arith)
drop_all (x ∷ xs) (suc i) h = drop_all xs i (omega arith)

-- What a batch hands over.
abbrev pub batch : Option (List ℕ) → List ℕ
batch none = []
batch (some values) = values

pub batch-values :
    (values : List ℕ) → values ≡ batch (if is_empty values then none else some values)
batch-values [] = refl
batch-values (x ∷ xs) = refl
