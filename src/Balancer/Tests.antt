-- ===== src/Balancer/Tests.antt =====
-- Runs of the balancers of async_strategy.hpp at concrete inputs.
use galay_kernel.Prelude.{ℕ, ◌≡◌, refl, some, [], ◌∷◌, arith}
use galay_kernel.Balancer.{RoundRobin, Node, WeightedRandom, select_weighted}
use galay_kernel.Balancer.Shares.{select_weighted-share}

abbrev third_turn : RoundRobin ℕ
third_turn = record { index = 6; nodes = 10 ∷ 20 ∷ 30 ∷ [] }

abbrev light : Node ℕ
light = record { node = 10; weight = 1 }

abbrev heavy : Node ℕ
heavy = record { node = 20; weight = 3 }

abbrev pair : WeightedRandom ℕ
pair = record { nodes = light ∷ heavy ∷ []; total_weight = 4 }

select_weighted-share_example : select_weighted pair 3 ≡ some 20
select_weighted-share_example =
    select_weighted-share pair (light ∷ []) [] heavy 3 refl refl (omega arith) (omega arith)
      (omega arith)
