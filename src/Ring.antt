-- ===== src/Ring.antt =====
-- galay-kernel/kernel/io_scheduler.hpp, class ChaseLevTaskRing: the fixed-capacity deque of tasks
-- that a scheduler thread owns and that its siblings steal from. Here each operation runs alone;
-- `Ring/Race` takes the accesses of owner and thief one at a time.
-- A `TaskState*` is a number, and an empty `TaskRef` or a null slot is `none`. `head` and `tail` are
-- `uint64_t`, with their wrap written out. A read through a valid index yields `index & kMask`.
pub mod Refine
pub mod Race
pub mod Deque
mod Window
mod Tests
use galay_kernel.Prelude.{
  ℕ, zero, suc, ◌+◌, ◌-◌, ◌%◌, Bool, true, false, Option, none, some, List, [], ◌++◌, ltb, leb,
  ◌==◌, if◌then◌else◌, update, option_list, add64, sub64,
}

-- kCapacity; `& kMask` is `% capacity`.
abbrev pub capacity : ℕ
capacity = 256

pub record Ring : Type 0 where
  pub slots : ℕ → Option ℕ
  pub head : ℕ
  pub tail : ℕ

pub empty_ring : Ring
empty_ring = record { slots = λ _. none; head = 0; tail = 0 }

-- The slot at which index `i` is stored.
abbrev pub mask : ℕ → ℕ
mask i = i % capacity

-- The flag says whether the task was taken over; if not, it stays with the caller.
pub push_back : Ring → Option ℕ → Bool × Ring
push_back r none = (false, r)
push_back r (some task) = if leb capacity (sub64 r.tail r.head) then (false, r) else (
  true,
  record r { slots = update r.slots (mask r.tail) (some task); tail = add64 r.tail 1 },
)

-- The task at `index`, whose slot is emptied, with `head` and `tail` set as given.
take_slot : Ring → ℕ → ℕ → ℕ → Option (Option ℕ) × Ring
take_slot r index h t = (
  some (r.slots (mask index)),
  record { slots = update r.slots (mask index) none; head = h; tail = t },
)

-- `none` is the result false, `some out` the result true with `out` assigned.
pub pop_back : Ring → Option (Option ℕ) × Ring
unfolding take_slot
pop_back r =
    if r.tail == 0
    then (none, r)
    else (let tail = r.tail - 1 in
        if ltb tail r.head
        then (none, record r { tail = r.head })
        else if r.head == tail
        then take_slot r tail (add64 tail 1) (add64 tail 1)
        else take_slot r tail r.head tail)

-- `owner_only task` is the flag `m_resume_owner_only` of that task.
pub steal_front : (ℕ → Bool) → Ring → Option (Option ℕ) × Ring
unfolding take_slot
steal_front owner_only r = if leb r.tail r.head then (none, r) else elim (r.slots (mask r.head)) [
  | none ↦ (none, r)
  | some candidate ↦
      if owner_only candidate then (none, r) else take_slot r r.head (add64 r.head 1) r.tail
]

pub size : Ring → ℕ
size r = sub64 r.tail r.head

pub remaining_capacity : Ring → ℕ
unfolding size
remaining_capacity r =
    let current = size r in if leb capacity current then 0 else capacity - current

pub is_empty_ring : Ring → Bool
unfolding size
is_empty_ring r = size r == 0

-- The loop of `clear` over `n` indices from `index` on, with the tasks that it releases.
clear_from : (ℕ → Option ℕ) → ℕ → ℕ → List ℕ × (ℕ → Option ℕ)
clear_from slots index zero = ([], slots)
clear_from slots index (suc n) =
    let (released, rest) = clear_from (update slots (mask index) none) (suc index) n in
    (option_list (slots (mask index)) ++ released, rest)

pub clear : Ring → List ℕ × Ring
unfolding clear_from
clear r =
    let (released, slots) = clear_from r.slots r.head (r.tail - r.head) in
    (released, record { slots = slots; head = r.tail; tail = r.tail })
