-- ===== src/Task/References.antt =====
-- TaskRef of galay-kernel/kernel/task.cc: references that share the state of a task. The references
-- that there are stand in a list; a state is a number, and `deleted` has the calls of delete. The
-- references that a state holds itself are among the others.
pub mod Counted
pub mod Runs
use galay_kernel.Prelude.{
  ℕ, zero, suc, ◌+◌, Bool, true, false, Option, none, some, List, [], ◌∷◌, ◌++◌, ltb, ◌==◌,
  if◌then◌else◌, update, length, get_elem?, set, add32, sub32,
}

pub record Store : Type 0 where
  pub references : List (Option ℕ)
  pub refs : ℕ → ℕ  -- m_refs, uint32_t
  pub deleted : List ℕ
  pub created : ℕ

abbrev pub init : Store
init = record { references = []; refs = λ s. 0; deleted = []; created = 0 }

-- The reference `i`, if there is one and it is not empty.
abbrev pub state_of : Option (Option ℕ) → Option ℕ
state_of none = none
state_of (some reference) = reference

abbrev pub state_at : ℕ → Store → Option ℕ
state_at i st = state_of (get_elem? st.references i)

abbrev pub release_from : ℕ → Store → Option ℕ → Store
release_from i st none = st
release_from i st (some s) = record st {
  references = set st.references i none;
  refs = update st.refs s (sub32 (st.refs s) 1);
  deleted = if st.refs s == 1 then s ∷ st.deleted else st.deleted;
}

unfoldable pub release : ℕ → Store → Store
release i st = release_from i st (state_at i st)

-- The state of one reference given to another that is empty, with retain.
abbrev pub retain_into : ℕ → Store → Option ℕ → Store
retain_into i st none = st
retain_into i st (some s) = record st {
  references = set st.references i (some s);
  refs = update st.refs s (add32 (st.refs s) 1);
}

abbrev pub move_into : ℕ → ℕ → Store → Option ℕ → Store
move_into i j st none = st
move_into i j st (some s) = record st { references = set (set st.references j none) i (some s) }

abbrev pub add_empty : Store → Store
add_empty st = record st { references = st.references ++ none ∷ [] }

-- TaskRef(new TaskState(...), false)
unfoldable pub create : Store → Store
create st = record st {
  references = st.references ++ some st.created ∷ [];
  refs = update st.refs st.created 1;
  created = suc st.created;
}

-- The copy constructor.
unfoldable pub copy_construct : ℕ → Store → Store
copy_construct j st = retain_into (length st.references) (add_empty st) (state_at j st)

-- The move constructor.
unfoldable pub move_construct : ℕ → Store → Store
move_construct j st = move_into (length st.references) j (add_empty st) (state_at j st)

-- The destructor.
unfoldable pub destroy : ℕ → Store → Store
unfolding release
destroy i st = release i st

unfoldable pub copy_assign : ℕ → ℕ → Store → Store
unfolding release
copy_assign i j st =
    if i == j then st else (let st' = release i st in retain_into i st' (state_at j st'))

unfoldable pub move_assign : ℕ → ℕ → Store → Store
unfolding release
move_assign i j st =
    if i == j then st else (let st' = release i st in move_into i j st' (state_at j st'))

-- A call on references that exist; a call on others changes nothing.
pub data Call : Type 0 where
  creates : Call
  copies : (j : ℕ) → Call
  moves : (j : ℕ) → Call
  destroys : (i : ℕ) → Call
  copy_assigns : (i j : ℕ) → Call
  move_assigns : (i j : ℕ) → Call

abbrev pub perform : Call → Store → Store
perform creates st = create st
perform (copies j) st = copy_construct j st
perform (moves j) st = move_construct j st
perform (destroys i) st = destroy i st
perform (copy_assigns i j) st = if ltb i (length st.references) then copy_assign i j st else st
perform (move_assigns i j) st = if ltb i (length st.references) then move_assign i j st else st

abbrev pub run : List Call → Store → Store
run [] st = st
run (c ∷ calls) st = run calls (perform c st)
