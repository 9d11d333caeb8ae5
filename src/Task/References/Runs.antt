-- ===== src/Task/References/Runs.antt =====
-- Calls on references keep m_refs right (galay-kernel/kernel/task.cc).
use galay_kernel.Prelude.{
  ℕ, zero, suc, ◌≤◌, ◌<◌, ◌≡◌, ◌≢◌, refl, sym, ◌∙◌, ap, subst, inl, inr, Option, none, some, List,
  [], ◌∷◌, ltb, ◌==◌, if_elim, length, get_elem?, set, word32, arith, Option-cases, length-append,
}
use galay_kernel.Task.References.{
  Store, init, state_of, state_at, release, release_from, retain_into, move_into, add_empty, create,
  copy_construct, move_construct, destroy, copy_assign, move_assign, Call, creates, copies, moves,
  destroys, copy_assigns, move_assigns, perform, run,
}
use galay_kernel.Task.References.Counted.{
  RefCounted, length-set, held-born, get_elem?-set, get_elem?-append, state_of-append,
  state_of-inside, release_from-RefCounted, retain_into-RefCounted, move_into-RefCounted,
  add_empty-RefCounted, create-RefCounted,
}

length-release_from :
    (i : ℕ) (st : Store) (o : Option ℕ)
    → length (release_from i st o).references ≡ length st.references
length-release_from i st none = refl
length-release_from i st (some s) = length-set i st.references none

length-retain_into :
    (i : ℕ) (st : Store) (o : Option ℕ)
    → length (retain_into i st o).references ≡ length st.references
length-retain_into i st none = refl
length-retain_into i st (some s) = length-set i st.references (some s)

length-move_into :
    (i j : ℕ) (st : Store) (o : Option ℕ)
    → length (move_into i j st o).references ≡ length st.references
length-move_into i j st none = refl
length-move_into i j st (some s) =
    length-set i (set st.references j none) (some s) ∙ length-set j st.references none

length-add_empty : (st : Store) → length (add_empty st).references ≡ suc (length st.references)
length-add_empty st = let e = length-append st.references (none ∷ []) in omega arith

length-perform : (c : Call) (st : Store) → length st.references ≤ length (perform c st).references
unfolding create copy_construct move_construct destroy copy_assign move_assign release
length-perform creates st =
    let e = length-append st.references (some st.created ∷ []) in omega arith
length-perform (copies j) st =
    let e = length-retain_into (length st.references) (add_empty st) (state_at j st) in
    let grown = length-add_empty st in omega arith
length-perform (moves j) st =
    let e = length-move_into (length st.references) j (add_empty st) (state_at j st) in
    let grown = length-add_empty st in omega arith
length-perform (destroys i) st = let e = length-release_from i st (state_at i st) in omega arith
length-perform (copy_assigns i j) st =
    let st' = release_from i st (state_at i st) in
    let e = length-release_from i st (state_at i st) in
    let e' = length-retain_into i st' (state_at j st') in
    if_elim (λ (x : Store). length st.references ≤ length x.references)
      (ltb i (length st.references))
      (λ inside.
        if_elim (λ (x : Store). length st.references ≤ length x.references) (i == j)
          (λ same. omega arith) (λ apart. omega arith))
      (λ outside. omega arith)
length-perform (move_assigns i j) st =
    let st' = release_from i st (state_at i st) in
    let e = length-release_from i st (state_at i st) in
    let e' = length-move_into i j st' (state_at j st') in
    if_elim (λ (x : Store). length st.references ≤ length x.references)
      (ltb i (length st.references))
      (λ inside.
        if_elim (λ (x : Store). length st.references ≤ length x.references) (i == j)
          (λ same. omega arith) (λ apart. omega arith))
      (λ outside. omega arith)

release-RefCounted :
    (i : ℕ) (st : Store)
    → RefCounted st
    → length st.references < word32
    → RefCounted (release_from i st (state_at i st))
release-RefCounted i st h small = elim (Option-cases (state_at i st)) [
  | inl empty ↦ subst (λ o. RefCounted (release_from i st o)) (sym empty) h
  | inr (s, e) ↦
      subst (λ o. RefCounted (release_from i st o)) (sym e)
        (release_from-RefCounted i s st h small e)
]

-- A reference that was released is empty, and another is as before.
released :
    (i : ℕ) (st : Store)
    → i < length st.references
    → get_elem? (release_from i st (state_at i st)).references i ≡ some none
released i st inside = elim (Option-cases (state_at i st)) [
  | inl empty ↦
      subst (λ o. get_elem? (release_from i st o).references i ≡ some none) (sym empty)
        (held_none (get_elem? st.references i) (get_elem?-inside i st.references inside) empty)
  | inr (s, e) ↦
      subst (λ o. get_elem? (release_from i st o).references i ≡ some none) (sym e)
        (get_elem?-set i st.references none inside)
]
  where
    get_elem?-inside : (k : ℕ) (rs : List (Option ℕ)) → k < length rs → get_elem? rs k ≢ none
    get_elem?-inside k [] less = λ e. absurd (omega (arith, less))
    get_elem?-inside zero (r ∷ rs) less = λ e. ground arith
    get_elem?-inside (suc k) (r ∷ rs) less = get_elem?-inside k rs (omega arith)

    held_none : (o : Option (Option ℕ)) → o ≢ none → state_of o ≡ none → o ≡ some none
    held_none none there e = absurd (there refl)
    held_none (some r) there e = ap some e

copied-RefCounted :
    (i j : ℕ) (st : Store)
    → RefCounted st
    → length st.references < word32
    → get_elem? st.references i ≡ some none
    → RefCounted (retain_into i st (state_at j st))
copied-RefCounted i j st h small empty = elim (Option-cases (state_at j st)) [
  | inl nothing ↦ subst (λ o. RefCounted (retain_into i st o)) (sym nothing) h
  | inr (s, e) ↦
      let (born, some_left) = held-born j s st h e in
      subst (λ o. RefCounted (retain_into i st o)) (sym e)
        (retain_into-RefCounted i s st h small empty born some_left)
]

moved-RefCounted :
    (i j : ℕ) (st : Store)
    → RefCounted st
    → i ≢ j
    → get_elem? st.references i ≡ some none
    → RefCounted (move_into i j st (state_at j st))
moved-RefCounted i j st h apart empty = elim (Option-cases (state_at j st)) [
  | inl nothing ↦ subst (λ o. RefCounted (move_into i j st o)) (sym nothing) h
  | inr (s, e) ↦
      subst (λ o. RefCounted (move_into i j st o)) (sym e)
        (move_into-RefCounted i j s st h apart empty e)
]

perform-RefCounted :
    (c : Call) (st : Store)
    → RefCounted st
    → length (perform c st).references < word32
    → RefCounted (perform c st)
unfolding copy_construct move_construct destroy copy_assign move_assign release
perform-RefCounted creates st h small = create-RefCounted st h
perform-RefCounted (copies j) st h small =
    let n = length st.references in
    let e = length-retain_into n (add_empty st) (state_at j st) in
    let copied =
      copied-RefCounted n j (add_empty st) (add_empty-RefCounted st h) (omega arith)
        (get_elem?-append st.references none) in
    subst (λ o. RefCounted (retain_into n (add_empty st) o)) (state_of-append st.references j)
      copied
perform-RefCounted (moves j) st h small =
    let n = length st.references in
    elim (Option-cases (state_at j st)) [
      | inl nothing ↦
          subst (λ o. RefCounted (move_into n j (add_empty st) o)) (sym nothing)
            (add_empty-RefCounted st h)
      | inr (s, e) ↦
          let inside = state_of-inside st.references j s e in
          let moved =
            moved-RefCounted n j (add_empty st) (add_empty-RefCounted st h)
              (λ same. absurd (omega (arith, same, inside)))
              (get_elem?-append st.references none) in
          subst (λ o. RefCounted (move_into n j (add_empty st) o)) (state_of-append st.references j)
            moved
    ]
perform-RefCounted (destroys i) st h small =
    let e = length-release_from i st (state_at i st) in release-RefCounted i st h (omega arith)
perform-RefCounted (copy_assigns i j) st h small =
    let st' = release_from i st (state_at i st) in
    let e = length-release_from i st (state_at i st) in
    let longer = length-perform (copy_assigns i j) st in
    if_elim (λ (x : Store). RefCounted x) (ltb i (length st.references))
      (λ inside.
        if_elim (λ (x : Store). RefCounted x) (i == j) (λ same. h)
          (λ apart.
            copied-RefCounted i j st' (release-RefCounted i st h (omega arith)) (omega arith)
              (released i st (ground arith))))
      (λ outside. h)
perform-RefCounted (move_assigns i j) st h small =
    let st' = release_from i st (state_at i st) in
    let longer = length-perform (move_assigns i j) st in
    if_elim (λ (x : Store). RefCounted x) (ltb i (length st.references))
      (λ inside.
        if_elim (λ (x : Store). RefCounted x) (i == j) (λ same. h)
          (λ apart.
            moved-RefCounted i j st' (release-RefCounted i st h (omega arith)) (λ e. ground arith)
              (released i st (ground arith))))
      (λ outside. h)

length-run :
    (calls : List Call) (st : Store) → length st.references ≤ length (run calls st).references
length-run [] st = omega arith
length-run (c ∷ calls) st =
    let one = length-perform c st in let rest = length-run calls (perform c st) in omega arith

run-Counted_from :
    (calls : List Call) (st : Store)
    → RefCounted st
    → length (run calls st).references < word32
    → RefCounted (run calls st)
run-Counted_from [] st h small = h
run-Counted_from (c ∷ calls) st h small =
    let rest = length-run calls (perform c st) in
    run-Counted_from calls (perform c st) (perform-RefCounted c st h (omega arith)) small

-- Through any calls on references, of which there are fewer than 2^32: m_refs of a state is the
-- number of references to it; a state that was created and has none was deleted, once; and a state
-- that has one was not.
pub run-RefCounted :
    (calls : List Call) → length (run calls init).references < word32 → RefCounted (run calls init)
run-RefCounted calls small =
    run-Counted_from calls init
      (record {
        counts = λ s born. ground arith;
        deletes = λ s born. absurd (omega (arith, born));
        unborn = λ s unborn. (refl, refl);
      })
      small
