-- ===== src/Task/References/Counted.antt =====
-- m_refs counts the references to a state, and the last one deletes it (galay-kernel/kernel/task.cc).
use galay_kernel.Prelude.{
  ℕ, zero, suc, ◌+◌, ◌≤◌, ◌<◌, ◌≡◌, ◌≢◌, refl, sym, ◌∙◌, ap, inl, inr, Option, none, some, List, [],
  ◌∷◌, ◌++◌, ltb, ◌==◌, if◌then◌else◌, length, get_elem?, set, add32, sub32, count, word32, ◌-◌,
  arith, Bool-cases,
}
use galay_kernel.Task.References.{
  Store, state_of, state_at, release_from, retain_into, move_into, add_empty, create,
}

abbrev pub holds : ℕ → Option ℕ → ℕ
holds s none = 0
holds s (some s') = if s' == s then 1 else 0

-- The number of references to a state.
abbrev pub holders : ℕ → List (Option ℕ) → ℕ
holders s [] = 0
holders s (r ∷ rs) = holds s r + holders s rs

holders-length : (s : ℕ) (rs : List (Option ℕ)) → holders s rs ≤ length rs
holders-length s [] = omega arith
holders-length s (none ∷ rs) = let h = holders-length s rs in omega arith
holders-length s (some s' ∷ rs) = let h = holders-length s rs in ground arith

holders-append :
    (s : ℕ) (front back : List (Option ℕ))
    → holders s (front ++ back) ≡ holders s front + holders s back
holders-append s [] back = omega arith
holders-append s (r ∷ front) back = let h = holders-append s front back in omega arith

holders-set :
    (s i : ℕ) (rs : List (Option ℕ)) (old new : Option ℕ)
    → get_elem? rs i ≡ some old
    → holders s (set rs i new) + holds s old ≡ holders s rs + holds s new
holders-set s i [] old new found = ground arith
holders-set s zero (r ∷ rs) old new found = ground arith
holders-set s (suc i) (r ∷ rs) old new found =
    let h = holders-set s i rs old new found in omega arith

pub get_elem?-set :
    (i : ℕ) (rs : List (Option ℕ)) (new : Option ℕ)
    → i < length rs
    → get_elem? (set rs i new) i ≡ some new
get_elem?-set i [] new inside = ground arith
get_elem?-set zero (r ∷ rs) new inside = refl
get_elem?-set (suc i) (r ∷ rs) new inside = get_elem?-set i rs new (omega arith)

get_elem?-set_other :
    (i j : ℕ) (rs : List (Option ℕ)) (new : Option ℕ)
    → i ≢ j
    → get_elem? (set rs i new) j ≡ get_elem? rs j
get_elem?-set_other i j [] new apart = refl
get_elem?-set_other zero zero (r ∷ rs) new apart = absurd (apart refl)
get_elem?-set_other zero (suc j) (r ∷ rs) new apart = refl
get_elem?-set_other (suc i) zero (r ∷ rs) new apart = refl
get_elem?-set_other (suc i) (suc j) (r ∷ rs) new apart =
    get_elem?-set_other i j rs new (λ e. apart (ap suc e))

pub get_elem?-append :
    (rs : List (Option ℕ)) (r : Option ℕ) → get_elem? (rs ++ r ∷ []) (length rs) ≡ some r
get_elem?-append [] r = refl
get_elem?-append (x ∷ rs) r = get_elem?-append rs r

-- An empty reference at the end does not change what the others hold.
pub state_of-append :
    (rs : List (Option ℕ)) (j : ℕ)
    → state_of (get_elem? (rs ++ none ∷ []) j) ≡ state_of (get_elem? rs j)
state_of-append [] zero = refl
state_of-append [] (suc j) = refl
state_of-append (x ∷ rs) zero = refl
state_of-append (x ∷ rs) (suc j) = state_of-append rs j

pub state_of-inside :
    (rs : List (Option ℕ)) (j s : ℕ) → state_of (get_elem? rs j) ≡ some s → j < length rs
state_of-inside [] j s e = ground arith
state_of-inside (x ∷ rs) zero s e = omega arith
state_of-inside (x ∷ rs) (suc j) s e = let h = state_of-inside rs j s e in omega arith

pub length-set : (i : ℕ) (rs : List (Option ℕ)) (new : Option ℕ) → length (set rs i new) ≡ length rs
length-set i [] new = refl
length-set zero (r ∷ rs) new = refl
length-set (suc i) (r ∷ rs) new = ap suc (length-set i rs new)

state_of→get_elem? : (o : Option (Option ℕ)) (s : ℕ) → state_of o ≡ some s → o ≡ some (some s)
state_of→get_elem? none s e = ground arith
state_of→get_elem? (some o) s e = ap some e

-- m_refs is the number of references; a state is deleted once, when it has none.
pub record RefCounted (st : Store) : Type 0 where
  pub counts : (s : ℕ) → s < st.created → st.refs s ≡ holders s st.references
  pub deletes :
      (s : ℕ)
      → s < st.created
      → count s st.deleted ≡ (if holders s st.references == 0 then 1 else 0)
  pub unborn : (s : ℕ) → st.created ≤ s → (holders s st.references ≡ 0) × (count s st.deleted ≡ 0)

pub held_at :
    (i s : ℕ) (st : Store) → state_at i st ≡ some s → get_elem? st.references i ≡ some (some s)
held_at i s st e = state_of→get_elem? (get_elem? st.references i) s e

-- A state that a reference holds was created, and is counted.
pub held-born :
    (i s : ℕ) (st : Store)
    → RefCounted st
    → state_at i st ≡ some s
    → (s < st.created) × (1 ≤ holders s st.references)
held-born i s st h e =
    let found = held_at i s st e in
    let total = holders-set s i st.references (some s) none found in
    let one : holds s (some s) ≡ 1 = ground arith in
    elim (Bool-cases (ltb s st.created)) [
      | inl inside ↦ (ground arith, omega arith)
      | inr outside ↦ let none_yet = h.unborn s (ground arith) in absurd (omega (arith, none_yet.0))
    ]

pub release_from-RefCounted :
    (i s : ℕ) (st : Store)
    → RefCounted st
    → length st.references < word32
    → state_at i st ≡ some s
    → RefCounted (release_from i st (some s))
release_from-RefCounted i s st h small e =
    let found = held_at i s st e in
    let (born, some_left) = held-born i s st h e in
    let now = h.counts s born in
    let most = holders-length s st.references in
    let counter : sub32 (st.refs s) 1 ≡ st.refs s - 1 = omega arith in
    record {
      counts = λ x x_born.
          let total = holders-set x i st.references (some s) none found in
          let before = h.counts x x_born in
          elim (Bool-cases (s == x)) [ inl same ↦ ground arith | inr other ↦ ground arith ];
      deletes = λ x x_born.
          let total = holders-set x i st.references (some s) none found in
          let before = h.deletes x x_born in
          elim (Bool-cases (s == x)) [ inl same ↦ ground arith | inr other ↦ ground arith ];
      unborn = λ x x_unborn.
          let total = holders-set x i st.references (some s) none found in
          let before = h.unborn x x_unborn in ground arith;
    }

pub retain_into-RefCounted :
    (i s : ℕ) (st : Store)
    → RefCounted st
    → length st.references < word32
    → get_elem? st.references i ≡ some none
    → s < st.created
    → 1 ≤ holders s st.references
    → RefCounted (retain_into i st (some s))
retain_into-RefCounted i s st h small found born some_left =
    let now = h.counts s born in
    let total = holders-set s i st.references none (some s) found in
    let one : holds s (some s) ≡ 1 = ground arith in
    let most = holders-length s (set st.references i (some s)) in
    let same_length = length-set i st.references (some s) in
    let counter : add32 (st.refs s) 1 ≡ st.refs s + 1 = omega arith in
    record {
      counts = λ x x_born.
          let total_x = holders-set x i st.references none (some s) found in
          let before = h.counts x x_born in
          elim (Bool-cases (s == x)) [ inl same ↦ ground arith | inr other ↦ ground arith ];
      deletes = λ x x_born.
          let total_x = holders-set x i st.references none (some s) found in
          let before = h.deletes x x_born in
          elim (Bool-cases (s == x)) [ inl same ↦ ground arith | inr other ↦ ground arith ];
      unborn = λ x x_unborn.
          let total_x = holders-set x i st.references none (some s) found in
          let before = h.unborn x x_unborn in ground arith;
    }

-- References that hold the same states as often.
same_holders-RefCounted :
    (st : Store) (rs : List (Option ℕ))
    → RefCounted st
    → ((x : ℕ) → holders x rs ≡ holders x st.references)
    → RefCounted (record st { references = rs })
same_holders-RefCounted st rs h same = record {
  counts = λ x x_born. let before = h.counts x x_born in let e = same x in ground arith;
  deletes = λ x x_born. let before = h.deletes x x_born in let e = same x in ground arith;
  unborn = λ x x_unborn. let before = h.unborn x x_unborn in let e = same x in ground arith;
}

pub move_into-RefCounted :
    (i j s : ℕ) (st : Store)
    → RefCounted st
    → i ≢ j
    → get_elem? st.references i ≡ some none
    → state_at j st ≡ some s
    → RefCounted (move_into i j st (some s))
move_into-RefCounted i j s st h apart empty e =
    let emptied = set st.references j none in
    let still : get_elem? emptied i ≡ some none =
      get_elem?-set_other j i st.references none (λ x. apart (sym x)) ∙ empty in
    same_holders-RefCounted st (set emptied i (some s)) h (λ x.
      let out = holders-set x j st.references (some s) none (held_at j s st e) in
      let into = holders-set x i emptied none (some s) still in omega arith)

pub add_empty-RefCounted : (st : Store) → RefCounted st → RefCounted (add_empty st)
add_empty-RefCounted st h =
    same_holders-RefCounted st (st.references ++ none ∷ []) h
      (λ x. let e = holders-append x st.references (none ∷ []) in omega arith)

pub create-RefCounted : (st : Store) → RefCounted st → RefCounted (create st)
unfolding create
create-RefCounted st h = record {
  counts = λ x x_born.
      let total = holders-append x st.references (some st.created ∷ []) in
      elim (Bool-cases (st.created == x)) [
        | inl same ↦ let none_yet = h.unborn x (ground arith) in ground arith
        | inr other ↦ let before = h.counts x (ground arith) in ground arith
      ];
  deletes = λ x x_born.
      let total = holders-append x st.references (some st.created ∷ []) in
      elim (Bool-cases (st.created == x)) [
        | inl same ↦ let none_yet = h.unborn x (ground arith) in ground arith
        | inr other ↦ let before = h.deletes x (ground arith) in ground arith
      ];
  unborn = λ x x_unborn.
      let total = holders-append x st.references (some st.created ∷ []) in
      let before = h.unborn x (omega arith) in ground arith;
}
