-- ===== src/Balancer/Shares.antt =====
-- The weighted random choice of async_strategy.hpp gives every node its weight's share of the draws.
use galay_kernel.Prelude.{
  ℕ, ◌+◌, ◌≤◌, ◌<◌, ◌≡◌, refl, ap, ◌∙◌, false, ◌||◌, Option, some, none, List, [], ◌∷◌, ◌++◌, arith,
  if_elim, is_empty, leb, ◌==◌, word32, sub32,
}
use galay_kernel.Balancer
use galay_kernel.Balancer.{Node, WeightedRandom, select_weighted}

module _ {ℓ} {A : Type ℓ} where
  abbrev pub weights : List (Node A) → ℕ
  weights [] = 0
  weights (n ∷ nodes) = n.weight + weights nodes

  weights-append : (xs ys : List (Node A)) → weights (xs ++ ys) ≡ weights xs + weights ys
  weights-append [] ys = omega arith
  weights-append (x ∷ xs) ys = omega (arith, weights-append xs ys)

  pick-share :
      (last : Option A) (before after : List (Node A)) (n : Node A) (draw : ℕ)
      → weights before < draw
      → draw ≤ weights before + n.weight
      → weights before + n.weight < word32
      → Balancer.pick last (before ++ n ∷ after) draw ≡ some n.node
  unfolding Balancer.pick
  pick-share last [] after n draw low high fits =
      if_elim (λ o. o ≡ some n.node) (leb draw n.weight) (λ _. refl) (λ more. absurd (ground arith))
  pick-share last (m ∷ before) after n draw low high fits =
      if_elim (λ o. o ≡ some n.node) (leb draw m.weight) (λ few. absurd (ground arith))
        (λ _.
          pick-share (some m.node) before after n (sub32 draw m.weight) (omega arith) (omega arith)
            (omega arith))

  not_empty : (before after : List (Node A)) (n : Node A) → is_empty (before ++ n ∷ after) ≡ false
  not_empty [] after n = refl
  not_empty (m ∷ before) after n = refl

  -- A node whose weight is `w` is returned for exactly `w` draws in a row, those past the weights of
  -- the nodes before it, as long as the total weight is right and does not wrap: each node has its
  -- weight's share of the draws.
  pub select_weighted-share :
      (b : WeightedRandom A) (before after : List (Node A)) (n : Node A) (draw : ℕ)
      → b.nodes ≡ before ++ n ∷ after
      → b.total_weight ≡ weights b.nodes
      → b.total_weight < word32
      → weights before < draw
      → draw ≤ weights before + n.weight
      → select_weighted b draw ≡ some n.node
  unfolding select_weighted
  select_weighted-share b before after n draw e total fits low high =
      let sums : weights b.nodes ≡ weights before + (n.weight + weights after) =
        ap weights e ∙ weights-append before (n ∷ after) in
      let some_nodes : is_empty b.nodes ≡ false = ap is_empty e ∙ not_empty before after n in
      if_elim (λ o. o ≡ some n.node) (is_empty b.nodes || (b.total_weight == 0))
        (λ none_left. absurd (ground (arith, some_nodes, sums)))
        (λ _.
          ap (λ nodes. Balancer.pick none nodes draw) e
          ∙ pick-share none before after n draw low high (omega (arith, sums)))
