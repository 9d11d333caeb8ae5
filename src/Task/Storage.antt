-- ===== src/Task/Storage.antt =====
-- The free list of a thread for the storage of task states (galay-kernel/kernel/task.cc). operator new
-- is a parameter: an address that is not in use. The other end, operator delete, forgets an address.
use galay_kernel.Prelude.{
  ℕ, suc, ◌+◌, ◌-◌, ◌≤◌, ◌<◌, ◌≡◌, refl, inl, inr, Bool, true, false, not, ◌||◌, List, [], ◌∷◌, leb,
  ◌==◌, if◌then◌else◌, if_elim, update, length, count, sub64, add64, arith, Bool-cases,
}

-- kTaskStateFreeListLimit
abbrev pub free_list_limit : ℕ
free_list_limit = 1024

pub record FreeList : Type 0 where
  pub nodes : List ℕ
  pub free_count : ℕ  -- size_t

abbrev pub allocate_from : ℕ → FreeList → List ℕ → ℕ × FreeList
allocate_from new_address f [] = (new_address, f)
allocate_from new_address f (node ∷ nodes) =
    (node, record { nodes = nodes; free_count = sub64 f.free_count 1 })

-- allocateTaskStateStorage; `is_state` says that the size is that of a TaskState.
unfoldable pub allocate_task_state_storage : Bool → ℕ → FreeList → ℕ × FreeList
allocate_task_state_storage is_state new_address f =
    if is_state then allocate_from new_address f f.nodes else (new_address, f)

-- releaseTaskStateStorage
unfoldable pub release_task_state_storage : Bool → ℕ → FreeList → FreeList
release_task_state_storage is_state ptr f =
    if not is_state || leb free_list_limit f.free_count
    then f
    else record { nodes = ptr ∷ f.nodes; free_count = add64 f.free_count 1 }

-- The free list, and how often each address is in use.
pub record Memory : Type 0 where
  pub free_list : FreeList
  pub live : ℕ → ℕ

unfoldable pub init : Memory
init = record { free_list = record { nodes = []; free_count = 0 }; live = λ a. 0 }

abbrev pub after_allocate : Memory → ℕ × FreeList → Memory
after_allocate m (a, f) = record { free_list = f; live = update m.live a (suc (m.live a)) }

pub data Step (m : Memory) : Memory → Type 0 where
  allocates :
      (is_state : Bool) (new_address : ℕ)
      → m.live new_address ≡ 0
      → count new_address m.free_list.nodes ≡ 0
      → Step m (after_allocate m (allocate_task_state_storage is_state new_address m.free_list))
  releases :
      (is_state : Bool) (ptr : ℕ)
      → 1 ≤ m.live ptr
      → Step m (record {
        free_list = release_task_state_storage is_state ptr m.free_list;
        live = update m.live ptr (m.live ptr - 1);
      })

pub data Reachable : Memory → Type 0 where
  starts : Reachable init
  moves : {m m' : Memory} → Reachable m → Step m m' → Reachable m'

-- No address is in use twice, nor in use and free; the counter is the length of the free list, which
-- has a limit.
pub record Sound (m : Memory) : Type 0 where
  pub once : (a : ℕ) → m.live a + count a m.free_list.nodes ≤ 1
  pub counted : m.free_list.free_count ≡ length m.free_list.nodes
  pub limited : length m.free_list.nodes ≤ free_list_limit

allocated-Sound :
    (m : Memory) (new_address : ℕ) (nodes : List ℕ)
    → Sound m
    → m.free_list.nodes ≡ nodes
    → m.live new_address ≡ 0
    → count new_address m.free_list.nodes ≡ 0
    → Sound (after_allocate m (allocate_from new_address m.free_list nodes))
allocated-Sound m new_address [] h e dead absent = record {
  once = λ a.
      let before = h.once a in
      elim (Bool-cases (new_address == a)) [ inl this ↦ ground arith | inr other ↦ ground arith ];
  counted = h.counted;
  limited = h.limited;
}
allocated-Sound m new_address (node ∷ nodes) h e dead absent =
    let counted = h.counted in
    let limited = h.limited in
    let sizes : length m.free_list.nodes ≡ suc (length nodes) = ground (arith, e) in
    record {
      once = λ a.
          let before = h.once a in
          elim (Bool-cases (node == a)) [
            | inl this ↦ ground (arith, e)
            | inr other ↦ ground (arith, e)
          ];
      counted = omega arith;
      limited = omega arith;
    }

Step-Sound : {m m' : Memory} → Step m m' → Sound m → Sound m'
unfolding allocate_task_state_storage release_task_state_storage
Step-Sound {m = m} (allocates true new_address dead absent) h =
    allocated-Sound m new_address m.free_list.nodes h refl dead absent
Step-Sound {m = m} (allocates false new_address dead absent) h = record {
  once = λ a.
      let before = h.once a in
      elim (Bool-cases (new_address == a)) [ inl this ↦ ground arith | inr other ↦ ground arith ];
  counted = h.counted;
  limited = h.limited;
}
Step-Sound {m = m} (releases is_state ptr used) h =
    let counted = h.counted in
    let limited = h.limited in
    let live' = update m.live ptr (m.live ptr - 1) in
    if_elim (λ (f : FreeList). Sound (record { free_list = f; live = live' }))
      (not is_state || leb free_list_limit m.free_list.free_count)
      (λ full. record {
        once = λ a.
            let before = h.once a in
            elim (Bool-cases (ptr == a)) [ inl this ↦ ground arith | inr other ↦ ground arith ];
        counted = counted;
        limited = limited;
      })
      (λ room.
        let small : m.free_list.free_count < free_list_limit = ground arith in
        record {
          once = λ a.
              let before = h.once a in
              elim (Bool-cases (ptr == a)) [ inl this ↦ ground arith | inr other ↦ ground arith ];
          counted = omega arith;
          limited = omega arith;
        })

-- However states are allocated and released on a thread, no address is in use twice or in use while
-- it is in the free list, and the counter of the free list is its length, which is at most 1024.
-- operator new returns addresses that are not in use, and only addresses in use are released.
pub Reachable-Sound : {m : Memory} → Reachable m → Sound m
unfolding init
Reachable-Sound starts = record { once = λ a. omega arith; counted = refl; limited = omega arith }
Reachable-Sound (moves before step) = Step-Sound step (Reachable-Sound before)
