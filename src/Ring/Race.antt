-- ===== src/Ring/Race.antt =====
-- galay-kernel/kernel/io_scheduler.hpp, class ChaseLevTaskRing, one atomic access at a time: one
-- owner runs push_back and pop_back, any number of thieves run steal_front on the same ring.
-- Accesses interleave in any order and each sees the last write (sequential consistency); what
-- weaker memory orders allow beyond that is not modelled. `Ring.Refine` covers the runs where no
-- two calls overlap. `m_tail.store(tail + 1)` of push_back wraps at 64 bits; the other indices stored
-- are never past one that push_back has stored.
pub mod OwnerSide
pub mod Claims
pub mod Loss
mod Tests
use galay_kernel.Prelude.{
  ℕ, suc, ◌+◌, ◌-◌, ◌≤◌, ◌<◌, ◌≡◌, ◌≢◌, Bool, true, false, Option, none, some, List, ◌∷◌, update,
  add64,
}
use galay_kernel.Ring.{Ring, capacity, mask}

-- Where the owner stands, with its live local variables. `tail` is written by the owner alone, so
-- its own loads of it are not steps.
pub data Owner : Type 0 where
  idle : Owner
  push_loaded : (task head : ℕ) → Owner  -- push_back, after the load of `m_head`
  push_stored : Owner  -- before `m_tail.store(tail + 1)`
  popping : (tail : ℕ) → Owner  -- pop_back, after `m_tail.store(tail)`
  pop_loaded : (tail head : ℕ) → Owner  -- after the load of `m_head`
  pop_lost : (head : ℕ) → Owner  -- after the failed compare-exchange
  pop_won : (tail : ℕ) → Owner  -- after the successful one
  pop_taking : (tail : ℕ) → Owner  -- before the exchange of the slot

pub data Thief : Type 0 where
  rest : Thief
  got_head : (head : ℕ) → Thief  -- after the load of `m_head`
  got_tail : (head tail : ℕ) → Thief  -- after the load of `m_tail`
  chosen : (head : ℕ) → Thief  -- before the compare-exchange
  stolen : (head : ℕ) → Thief  -- before the exchange of the slot

-- One step of the owner on the shared ring, with the task that it hands out, if it does.
pub data OwnerMove (m : Ring) : Owner → Ring → Owner → Option (Option ℕ) → Type 0 where
  push_load : (task : ℕ) → OwnerMove m idle m (push_loaded task m.head) none
  push_full :
      {task head : ℕ} → capacity ≤ m.tail - head → OwnerMove m (push_loaded task head) m idle none
  push_store :
      {task head : ℕ}
      → m.tail - head < capacity
      → OwnerMove m
          (push_loaded task head)
          (record m { slots = update m.slots (mask m.tail) (some task) })
          push_stored
          none
  push_publish : OwnerMove m push_stored (record m { tail = add64 m.tail 1 }) idle none
  pop_empty : m.tail ≡ 0 → OwnerMove m idle m idle none
  pop_lower :
      (tail : ℕ)
      → m.tail ≡ suc tail
      → OwnerMove m idle (record m { tail = tail }) (popping tail) none
  pop_load : {tail : ℕ} → OwnerMove m (popping tail) m (pop_loaded tail m.head) none
  pop_restore :
      {tail head : ℕ}
      → tail < head
      → OwnerMove m (pop_loaded tail head) (record m { tail = head }) idle none
  pop_take :
      {tail head : ℕ}
      → head < tail
      → OwnerMove m
          (pop_loaded tail head)
          (record m { slots = update m.slots (mask tail) none })
          idle
          (some (m.slots (mask tail)))
  pop_cas_win :
      {tail head : ℕ}
      → head ≡ tail
      → m.head ≡ head
      → OwnerMove m (pop_loaded tail head) (record m { head = tail + 1 }) (pop_won tail) none
  pop_cas_lose :
      {tail head : ℕ}
      → head ≡ tail
      → m.head ≢ head
      → OwnerMove m (pop_loaded tail head) m (pop_lost m.head) none
  pop_give_up : {head : ℕ} → OwnerMove m (pop_lost head) (record m { tail = head }) idle none
  pop_raise :
      {tail : ℕ} → OwnerMove m (pop_won tail) (record m { tail = tail + 1 }) (pop_taking tail) none
  pop_last :
      {tail : ℕ}
      → OwnerMove m
          (pop_taking tail)
          (record m { slots = update m.slots (mask tail) none })
          idle
          (some (m.slots (mask tail)))

-- One step of a thief. A null candidate, or one that its owner must resume, ends the call.
pub data ThiefMove (owner_only : ℕ → Bool) (m : Ring)
    : Thief → Ring → Thief → Option (Option ℕ) → Type 0 where
  steal_head : ThiefMove owner_only m rest m (got_head m.head) none
  steal_tail : {head : ℕ} → ThiefMove owner_only m (got_head head) m (got_tail head m.tail) none
  steal_none :
      {head tail : ℕ} → tail ≤ head → ThiefMove owner_only m (got_tail head tail) m rest none
  steal_null :
      {head tail : ℕ}
      → head < tail
      → m.slots (mask head) ≡ none
      → ThiefMove owner_only m (got_tail head tail) m rest none
  steal_refused :
      {head tail : ℕ} (candidate : ℕ)
      → head < tail
      → m.slots (mask head) ≡ some candidate
      → owner_only candidate ≡ true
      → ThiefMove owner_only m (got_tail head tail) m rest none
  steal_read :
      {head tail : ℕ} (candidate : ℕ)
      → head < tail
      → m.slots (mask head) ≡ some candidate
      → owner_only candidate ≡ false
      → ThiefMove owner_only m (got_tail head tail) m (chosen head) none
  steal_cas_win :
      {head : ℕ}
      → m.head ≡ head
      → ThiefMove owner_only m (chosen head) (record m { head = head + 1 }) (stolen head) none
  steal_cas_lose : {head : ℕ} → m.head ≢ head → ThiefMove owner_only m (chosen head) m rest none
  steal_take :
      {head : ℕ}
      → ThiefMove owner_only m
          (stolen head)
          (record m { slots = update m.slots (mask head) none })
          rest
          (some (m.slots (mask head)))

-- `given` lists what the calls have handed out, the latest first.
pub record System : Type 0 where
  pub ring : Ring
  pub owner : Owner
  pub thief : ℕ → Thief
  pub given : List (Option ℕ)

abbrev pub record_given : Option (Option ℕ) → List (Option ℕ) → List (Option ℕ)
record_given none given = given
record_given (some out) given = out ∷ given

pub data Step (owner_only : ℕ → Bool) (s : System) : System → Type 0 where
  owner_moves :
      {m : Ring} {o : Owner} {out : Option (Option ℕ)}
      → OwnerMove s.ring s.owner m o out
      → Step owner_only s (record s { ring = m; owner = o; given = record_given out s.given })
  thief_moves :
      (i : ℕ) {m : Ring} {t : Thief} {out : Option (Option ℕ)}
      → ThiefMove owner_only s.ring (s.thief i) m t out
      → Step owner_only s
          (record s { ring = m; thief = update s.thief i t; given = record_given out s.given })

pub data Steps (owner_only : ℕ → Bool) (s : System) : System → Type 0 where
  here : Steps owner_only s s
  next : {t u : System} → Steps owner_only s t → Step owner_only t u → Steps owner_only s u
