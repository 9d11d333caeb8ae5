-- ===== src/Balancer/Turns.antt =====
-- The round robin of async_strategy.hpp gives every node its turn.
use mathlib.Core.List.{append_assoc}
use mathlib.Core.Path.{ap₂}
use native.Mathlib.Nat.{suc-mod, mod-eq_of_lt, zero-mod}
use galay_kernel.Prelude.{
  ℕ, zero, suc, ◌+◌, ◌%◌, ◌<◌, ◌≡◌, refl, ap, ◌∙◌, sym, false, length-append, Option, some, List,
  [], ◌∷◌, ◌++◌, arith, length, get_elem?, map, if_elim, is_empty, word32, add32,
}
use galay_kernel.Balancer.{RoundRobin, select}

next_place : (index n k : ℕ) → index % n ≡ k % n → (index + 1) % n ≡ (k + 1) % n
next_place index n k e =
    ap (λ i. i % n) (let q : index + 1 ≡ suc index = omega arith in q)
    ∙ suc-mod index n
    ∙ ap (λ i. suc i % n) e
    ∙ sym (suc-mod k n)
    ∙ ap (λ i. i % n) (let q : suc k ≡ k + 1 = omega arith in q)

module _ {ℓ} {A : Type ℓ} where
  -- So many choices, one after the other.
  abbrev pub selects : ℕ → RoundRobin A → List (Option A)
  selects zero b = []
  selects (suc n) b = let (out, b') = select b in out ∷ selects n b'

  get-append :
      (before : List A) (x : A) (after : List A)
      → get_elem? (before ++ x ∷ after) (length before) ≡ some x
  get-append [] x after = refl
  get-append (y ∷ before) x after = get-append before x after

  not_empty : (before after : List A) (x : A) → is_empty (before ++ x ∷ after) ≡ false
  not_empty [] after x = refl
  not_empty (y ∷ before) after x = refl

  turn_from :
      (index : ℕ) (nodes before after : List A)
      → nodes ≡ before ++ after
      → index % length nodes ≡ length before % length nodes
      → index + length after < word32
      → selects (length after) (record { index = index; nodes = nodes }) ≡ map some after
  unfolding select
  turn_from index nodes before [] e place fresh = refl
  turn_from index nodes before (x ∷ after) e place fresh =
      let len : length nodes ≡ length before + suc (length after) =
        ap length e ∙ length-append before (x ∷ after) in
      let at : index % length nodes ≡ length before = place ∙ mod-eq_of_lt (omega (arith, len)) in
      let chosen : get_elem? nodes (index % length nodes) ≡ some x =
        ap (get_elem? nodes) at
        ∙ ap (λ ns. get_elem? ns (length before)) e
        ∙ get-append before x after in
      let e' : nodes ≡ (before ++ x ∷ []) ++ after = e ∙ sym (append_assoc before (x ∷ []) after) in
      let place' : (index + 1) % length nodes ≡ length (before ++ x ∷ []) % length nodes =
        next_place index (length nodes) (length before) place
        ∙ ap (λ k. k % length nodes) (sym (length-append before (x ∷ []))) in
      let index' : add32 index 1 ≡ index + 1 = omega arith in
      let later : selects (length after) (record { index = add32 index 1; nodes = nodes })
          ≡ map some after =
        ap (λ i. selects (length after) (record { index = i; nodes = nodes })) index'
        ∙ turn_from (index + 1) nodes (before ++ x ∷ []) after e' place' (omega arith) in
      let full : is_empty nodes ≡ false = ap is_empty e ∙ not_empty before after x in
      if_elim
        (λ (r : Option A × RoundRobin A).
          (r.0 ∷ selects (length after) r.1) ≡ some x ∷ map some after)
        (is_empty nodes) (λ none_left. absurd (cc)) (λ _. ap₂ ◌∷◌ chosen later)

  -- From an index that is a multiple of the number of nodes on, as many choices as there are nodes
  -- give every node once, in order, as long as the 32-bit index does not wrap in between.
  pub select-turn :
      (b : RoundRobin A)
      → b.index % length b.nodes ≡ 0
      → b.index + length b.nodes < word32
      → selects (length b.nodes) b ≡ map some b.nodes
  select-turn b whole fresh =
      turn_from b.index b.nodes [] b.nodes refl (whole ∙ sym (zero-mod (length b.nodes))) fresh
