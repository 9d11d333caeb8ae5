-- ===== src/Balancer.antt =====
-- galay-kernel/common/async_strategy.hpp: the balancers that choose a node in turn, at random, or at
-- random by weight. What a random distribution draws is an argument, within its bounds. `m_index`
-- and the total weight are 32-bit words. The smooth weighted round robin is not modelled here.
pub mod Turns
pub mod Shares
mod Tests
use galay_kernel.Prelude.{
  ℕ, zero, suc, ◌+◌, ◌%◌, Bool, ◌||◌, Option, none, some, List, [], ◌∷◌, ◌++◌, leb, ◌==◌,
  if◌then◌else◌, is_empty, length, get_elem?, map, add32, sub32, replicate,
}

-- RoundRobinLoadBalancer.
pub record RoundRobin {ℓ} (A : Type ℓ) : Type ℓ where
  pub index : ℕ
  pub nodes : List A

-- WeightedRandomLoadBalancer.
pub record Node {ℓ} (A : Type ℓ) : Type ℓ where
  pub node : A
  pub weight : ℕ

pub record WeightedRandom {ℓ} (A : Type ℓ) : Type ℓ where
  pub nodes : List (Node A)
  pub total_weight : ℕ

module _ {ℓ} {A : Type ℓ} where
  pub in_turn : List A → RoundRobin A
  in_turn nodes = record { index = 0; nodes = nodes }

  pub select : RoundRobin A → Option A × RoundRobin A
  select b =
      if is_empty b.nodes
      then (none, b)
      else (get_elem? b.nodes (b.index % length b.nodes), record b { index = add32 b.index 1 })

  pub append : A → RoundRobin A → RoundRobin A
  append node b = record b { nodes = b.nodes ++ node ∷ [] }

  -- RandomLoadBalancer::select, which draws an index below the number of nodes.
  pub select_random : List A → ℕ → Option A
  select_random nodes draw = if is_empty nodes then none else get_elem? nodes draw

  pub append_weighted : A → ℕ → WeightedRandom A → WeightedRandom A
  append_weighted node weight b = record {
    nodes = b.nodes ++ (record { node = node; weight = weight }) ∷ [];
    total_weight = add32 b.total_weight weight;
  }

  -- The loops of the constructor, over both vectors or, if their lengths differ, with weight 1.
  append_all : List A → List ℕ → WeightedRandom A → WeightedRandom A
  unfolding append_weighted
  append_all [] weights b = b
  append_all (node ∷ nodes) [] b = b
  append_all (node ∷ nodes) (weight ∷ weights) b =
      append_all nodes weights (append_weighted node weight b)

  pub by_weight : List A → List ℕ → WeightedRandom A
  unfolding append_all
  by_weight nodes weights =
      append_all nodes
        (if length nodes == length weights then weights else replicate (length nodes) 1)
        (record { nodes = []; total_weight = 0 })

  -- The loop of select, with the node that is returned behind it.
  pick : Option A → List (Node A) → ℕ → Option A
  pick last [] random_weight = last
  pick last (n ∷ nodes) random_weight =
      let rest = pick (some n.node) nodes (sub32 random_weight n.weight) in
      if leb random_weight n.weight then some n.node else rest

  -- `draw` is between 1 and the total weight.
  pub select_weighted : WeightedRandom A → ℕ → Option A
  unfolding pick
  select_weighted b draw =
      if is_empty b.nodes || (b.total_weight == 0) then none else pick none b.nodes draw
