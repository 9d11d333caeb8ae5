-- ===== src/WakeCoordinator/Counts.antt =====
-- What the calls of wake_coordinator.h add up to.
use galay_kernel.Prelude.{
  ℕ, ◌+◌, ◌≤◌, ◌<◌, ◌≡◌, refl, ap, ◌∙◌, Bool, true, false, ◌==◌, not, ◌&&◌, ◌||◌, List, [], ◌∷◌,
  arith, length, if◌then◌else◌, word64,
}
use galay_kernel.WakeCoordinator.{
  WakeCoordinator, request_wake, force_wake, mark_sleeping, mark_awake, cancel_pending_wake,
  on_remote_collected,
}

pub data Op : Type 0 where
  requests : (queue_was_empty : Bool) → Op
  forces : Op
  sleeps : Op
  awakes : Op
  cancels : Op
  collects : (drained : ℕ) → Op

abbrev pub step : Op → WakeCoordinator → Bool × WakeCoordinator
step (requests queue_was_empty) c = request_wake queue_was_empty c
step forces c = force_wake c
step sleeps c = (false, mark_sleeping c)
step awakes c = (false, mark_awake c)
step cancels c = (false, cancel_pending_wake c)
step (collects drained) c = (false, on_remote_collected drained c)

-- Which of the calls reach the notifier, one flag for each, and the coordinator after them.
abbrev pub run : List Op → WakeCoordinator → List Bool × WakeCoordinator
run [] c = ([], c)
run (op ∷ ops) c =
    let (notified, c') = step op c in let (flags, c'') = run ops c' in (notified ∷ flags, c'')

-- How many flags are set.
abbrev pub trues : List Bool → ℕ
trues [] = 0
trues (b ∷ bs) = (if b then 1 else 0) + trues bs

-- Whether a call is a request, or a forced wake, and whether it may withdraw a pending wake.
abbrev pub request_of : Op → ℕ
request_of (requests queue_was_empty) = 1
request_of forces = 0
request_of sleeps = 0
request_of awakes = 0
request_of cancels = 0
request_of (collects drained) = 0

abbrev pub force_of : Op → ℕ
force_of (requests queue_was_empty) = 0
force_of forces = 1
force_of sleeps = 0
force_of awakes = 0
force_of cancels = 0
force_of (collects drained) = 0

abbrev pub cancels_of : Op → ℕ
cancels_of (requests queue_was_empty) = 0
cancels_of forces = 0
cancels_of sleeps = 0
cancels_of awakes = 0
cancels_of cancels = 1
cancels_of (collects drained) = if drained == 0 then 0 else 1

abbrev pub total : (Op → ℕ) → List Op → ℕ
total f [] = 0
total f (op ∷ ops) = f op + total f ops

-- A wake is pending.
abbrev pub pending : WakeCoordinator → ℕ
pending c = if c.wakeup_pending then 1 else 0

-- What the notifier is promised, over the two facts that matter to it: whether the scheduler sleeps,
-- and whether a wake is under way that it has not answered yet.
pub record Facts : Type 0 where
  pub asleep : Bool
  pub under_way : Bool

-- A request is due to a scheduler that sleeps, or whose queue was empty, unless a wake is under way.
abbrev pub due : Op → Facts → Bool
due (requests queue_was_empty) f = (f.asleep || queue_was_empty) && not f.under_way
due forces f = true
due sleeps f = false
due awakes f = false
due cancels f = false
due (collects drained) f = false

abbrev pub follow : Op → Facts → Facts
follow (requests queue_was_empty) f = record f {
  under_way = f.under_way || f.asleep || queue_was_empty;
}
follow forces f = f
follow sleeps f = record f { asleep = true }
follow awakes f = record f { asleep = false }
follow cancels f = record f { under_way = false }
follow (collects drained) f = record f {
  asleep = f.asleep && (drained == 0);
  under_way = f.under_way && (drained == 0);
}

-- The calls of the notifier that are due, one flag for each of `ops`.
abbrev pub dues : List Op → Facts → List Bool
dues [] f = []
dues (op ∷ ops) f = due op f ∷ dues ops (follow op f)

abbrev pub facts : WakeCoordinator → Facts
facts c = record { asleep = c.sleeping; under_way = c.wakeup_pending }

-- What one call does to the counters.
record Stepped (op : Op) (c : WakeCoordinator) (result : Bool × WakeCoordinator) : Type 0 where
  asked : result.1.wake_requests ≡ c.wake_requests + request_of op
  notified : result.1.wake_emits ≡ c.wake_emits + (if result.0 then 1 else 0)
  balance :
      result.1.wake_emits + result.1.coalesced_wakes
      ≡ c.wake_emits + c.coalesced_wakes + request_of op + force_of op
  passed : result.0 ≡ due op (facts c)
  facts_after : facts result.1 ≡ follow op (facts c)
  merged : pending c + (if result.0 then 1 else 0) ≤ pending result.1 + force_of op + cancels_of op

request-Stepped :
    (queue_was_empty : Bool) (c : WakeCoordinator)
    → c.wake_requests + 1 < word64
    → c.wake_emits + c.coalesced_wakes + 1 < word64
    → Stepped (requests queue_was_empty) c (request_wake queue_was_empty c)
unfolding request_wake
request-Stepped q c a b = record {
  asked = ground arith;
  notified = ground arith;
  balance = ground arith;
  passed = ground arith;
  facts_after =
      ap (λ b. record { asleep = b; under_way = (request_wake q c).1.wakeup_pending })
        (ground arith)
      ∙ ap (λ b. record { asleep = c.sleeping; under_way = b }) (ground arith);
  merged = ground arith;
}

step-Stepped :
    (op : Op) (c : WakeCoordinator)
    → c.wake_requests + 1 < word64
    → c.wake_emits + c.coalesced_wakes + 1 < word64
    → Stepped op c (step op c)
unfolding request_wake force_wake mark_sleeping mark_awake cancel_pending_wake on_remote_collected
step-Stepped (requests true) c a b = request-Stepped true c a b
step-Stepped (requests false) c a b = request-Stepped false c a b
step-Stepped forces c a b = record {
  asked = ground arith;
  notified = ground arith;
  balance = ground arith;
  passed = refl;
  facts_after = refl;
  merged = ground arith;
}
step-Stepped sleeps c a b = record {
  asked = ground arith;
  notified = ground arith;
  balance = ground arith;
  passed = refl;
  facts_after = refl;
  merged = ground arith;
}
step-Stepped awakes c a b = record {
  asked = ground arith;
  notified = ground arith;
  balance = ground arith;
  passed = refl;
  facts_after = refl;
  merged = ground arith;
}
step-Stepped cancels c a b = record {
  asked = ground arith;
  notified = ground arith;
  balance = ground arith;
  passed = refl;
  facts_after = refl;
  merged = ground arith;
}
step-Stepped (collects drained) c a b = record {
  asked = ground arith;
  notified = ground arith;
  balance = ground arith;
  passed = refl;
  facts_after = ground arith;
  merged = ground arith;
}

-- The counters after `ops`, against those before.
pub record Counted (ops : List Op) (c : WakeCoordinator) (result : List Bool × WakeCoordinator)
    : Type 0 where
  pub asked : result.1.wake_requests ≡ c.wake_requests + total request_of ops
  pub passed : result.0 ≡ dues ops (facts c)
  pub notified : result.1.wake_emits ≡ c.wake_emits + trues result.0
  pub balance :
      result.1.wake_emits + result.1.coalesced_wakes
      ≡ c.wake_emits + c.coalesced_wakes + total request_of ops + total force_of ops
  pub merged :
      pending c + trues result.0 ≤ pending result.1 + total force_of ops + total cancels_of ops

-- Over any sequence of calls: the notifier is called for every forced wake, and for a request just
-- when the scheduler sleeps or its queue was empty and no wake is under way, that is, passed on and
-- not withdrawn by a cancel or by collecting tasks. The counters say how many requests there were,
-- how many calls of the notifier, and, with these, how many requests were merged, as long as none of
-- the counters wraps. Between two calls that withdraw the pending wake, the requests reach the
-- notifier at most once.
pub run-Counted :
    (ops : List Op) (c : WakeCoordinator)
    → c.wake_requests + length ops < word64
    → c.wake_emits + c.coalesced_wakes + length ops < word64
    → Counted ops c (run ops c)
run-Counted [] c a b = record {
  asked = omega arith;
  passed = refl;
  notified = omega arith;
  balance = omega arith;
  merged = omega arith;
}
run-Counted (op ∷ ops) c a b =
    let h = step-Stepped op c (omega arith) (omega arith) in
    let one : request_of op + force_of op ≤ 1 = few op in
    let k = run-Counted ops (step op c).1 (omega arith) (omega arith) in
    record {
      asked = omega (arith, h.asked, k.asked);
      passed =
          ap (λ b. b ∷ (run ops (step op c).1).0) h.passed
          ∙ ap (λ bs. due op (facts c) ∷ bs) (k.passed ∙ ap (dues ops) h.facts_after);
      notified = omega (arith, h.notified, k.notified);
      balance = omega (arith, h.balance, k.balance);
      merged = omega (arith, h.merged, k.merged);
    }
  where
    few : (op : Op) → request_of op + force_of op ≤ 1
    few (requests queue_was_empty) = omega arith
    few forces = omega arith
    few sleeps = omega arith
    few awakes = omega arith
    few cancels = omega arith
    few (collects drained) = omega arith
