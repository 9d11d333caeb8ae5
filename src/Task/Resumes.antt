-- ===== src/Task/Resumes.antt =====
-- requestTaskResume (galay-kernel/kernel/task.cc), by which every Waker wakes its task, against
-- Scheduler::resume (galay-kernel/kernel/scheduler.hpp), one access of an atomic at a time. Wakers
-- call from any thread; the entries of the task in queues are counted, those of requestTaskResume
-- apart from those of a spawn or a co_yield. Whether a scheduler takes the task is left open.
use galay_kernel.Prelude.{ℕ, suc, ◌+◌, ◌≤◌, ◌≡◌, Bool, true, false, arith}

pub record State : Type 0 where
  pub queued : Bool  -- m_queued
  pub owner_only : Bool  -- m_resume_owner_only
  pub done : Bool  -- m_done
  -- Wakers after the exchange, after the store to m_resume_owner_only, and after a refusal.
  pub claims : ℕ
  pub marked : ℕ
  pub refused : ℕ
  -- Calls of resume between their two stores.
  pub clearing : ℕ
  -- The entries in queues.
  pub wakes : ℕ
  pub plain : ℕ
  -- The entries that requestTaskResume has made, and the calls of resume that went on.
  pub enqueued : ℕ
  pub begun : ℕ

abbrev pub init : State
init = record {
  queued = false;
  owner_only = false;
  done = false;
  claims = 0;
  marked = 0;
  refused = 0;
  clearing = 0;
  wakes = 0;
  plain = 0;
  enqueued = 0;
  begun = 0;
}

pub data Step (s : State) : State → Type 0 where
  -- The exchange of m_queued; m_done was tested before it.
  wins : s.queued ≡ false → Step s (record s { queued = true; claims = suc s.claims })
  loses : s.queued ≡ true → Step s s
  marks :
      (n : ℕ)
      → s.claims ≡ suc n
      → Step s (record s { owner_only = true; claims = n; marked = suc s.marked })
  -- schedule returns true, or false.
  enqueues :
      (n : ℕ)
      → s.marked ≡ suc n
      → Step s (record s { marked = n; wakes = suc s.wakes; enqueued = suc s.enqueued })
  unmarks :
      (n : ℕ)
      → s.marked ≡ suc n
      → Step s (record s { owner_only = false; marked = n; refused = suc s.refused })
  withdraws : (n : ℕ) → s.refused ≡ suc n → Step s (record s { queued = false; refused = n })
  -- A spawn or a co_yield.
  schedules : Step s (record s { plain = suc s.plain })
  -- resume, up to its store to m_queued; m_done was tested before it.
  begins_wake :
      (n : ℕ)
      → s.wakes ≡ suc n
      → Step s
          (record s { queued = false; wakes = n; clearing = suc s.clearing; begun = suc s.begun })
  begins_plain :
      (n : ℕ)
      → s.plain ≡ suc n
      → Step s
          (record s { queued = false; plain = n; clearing = suc s.clearing; begun = suc s.begun })
  -- resume of a task that is done.
  drops_wake : (n : ℕ) → s.wakes ≡ suc n → s.done ≡ true → Step s (record s { wakes = n })
  drops_plain : (n : ℕ) → s.plain ≡ suc n → s.done ≡ true → Step s (record s { plain = n })
  -- resume, up to its return.
  clears : (n : ℕ) → s.clearing ≡ suc n → Step s (record s { owner_only = false; clearing = n })
  completes : Step s (record s { done = true })

pub data Reachable : State → Type 0 where
  starts : Reachable init
  moves : {s s' : State} → Reachable s → Step s s' → Reachable s'

abbrev as_number : Bool → ℕ
as_number true = 1
as_number false = 0

record Invariant (s : State) : Type 0 where
  limited : s.enqueued + (s.claims + s.marked + s.refused) ≤ s.begun + as_number s.queued
  under_way : s.queued ≡ true → s.done ≡ false → 1 ≤ s.claims + s.marked + s.refused + s.wakes

Step-Invariant : {s s' : State} → Step s s' → Invariant s → Invariant s'
Step-Invariant {s = s} (wins e) h =
    let l = h.limited in record { limited = ground arith; under_way = λ q f. ground arith }
Step-Invariant {s = s} (loses e) h = h
Step-Invariant {s = s} (marks n e) h =
    let l = h.limited in
    record { limited = ground arith; under_way = λ q f. let u = h.under_way q f in ground arith }
Step-Invariant {s = s} (enqueues n e) h =
    let l = h.limited in record { limited = ground arith; under_way = λ q f. ground arith }
Step-Invariant {s = s} (unmarks n e) h =
    let l = h.limited in record { limited = ground arith; under_way = λ q f. ground arith }
Step-Invariant {s = s} (withdraws n e) h =
    let l = h.limited in record { limited = ground arith; under_way = λ q f. ground arith }
Step-Invariant {s = s} schedules h =
    let l = h.limited in record { limited = l; under_way = h.under_way }
Step-Invariant {s = s} (begins_wake n e) h =
    let l = h.limited in record { limited = ground arith; under_way = λ q f. ground arith }
Step-Invariant {s = s} (begins_plain n e) h =
    let l = h.limited in record { limited = ground arith; under_way = λ q f. ground arith }
Step-Invariant {s = s} (drops_wake n e d) h =
    let l = h.limited in record { limited = l; under_way = λ q f. ground arith }
Step-Invariant {s = s} (drops_plain n e d) h =
    let l = h.limited in record { limited = l; under_way = λ q f. ground arith }
Step-Invariant {s = s} (clears n e) h =
    let l = h.limited in record { limited = l; under_way = h.under_way }
Step-Invariant {s = s} completes h =
    let l = h.limited in record { limited = l; under_way = λ q f. ground arith }

Reachable-Invariant : {s : State} → Reachable s → Invariant s
Reachable-Invariant starts = record { limited = ground arith; under_way = λ q f. ground arith }
Reachable-Invariant (moves before step) = Step-Invariant step (Reachable-Invariant before)

-- However wakers and schedulers interleave, requestTaskResume has made at most one entry more than
-- there were resumptions.
pub enqueued-Limited : {s : State} → Reachable s → s.enqueued ≤ s.begun + 1
enqueued-Limited {s = s} run = let h = Reachable-Invariant run in let l = h.limited in ground arith

-- While m_queued is set, so that a further request is refused, a task that is not done has an entry
-- that requestTaskResume made, or a waker that has yet to make one or to undo its claim.
pub queued-Resumes :
    {s : State}
    → Reachable s
    → s.queued ≡ true
    → s.done ≡ false
    → 1 ≤ s.claims + s.marked + s.refused + s.wakes
queued-Resumes run = (Reachable-Invariant run).under_way
