-- ===== src/Task.antt =====
-- galay-kernel/kernel/task.h and task.cc: the shared state of a coroutine. A task is the number of
-- its state, a scheduler and a runtime are numbers, and a null pointer is `none`. A result is a
-- number; whether its type is stored inline is a parameter. The child modules have references, the
-- storage of states and the requests to resume.
pub mod Results
pub mod Continuations
pub mod References
pub mod Storage
pub mod Resumes
mod Tests
use galay_kernel.Prelude.{
  ℕ, zero, suc, Bool, true, false, not, ◌&&◌, Option, none, some, is_some, List, [], ◌∷◌, ◌++◌,
  ◌==◌, if◌then◌else◌, update, option_list, replicate,
}

-- TaskResultErrorCode
pub data ErrorCode : Type 0 where
  invalid_state : ErrorCode
  task_exception : ErrorCode
  already_consumed : ErrorCode
  result_unavailable : ErrorCode
  schedule_failed : ErrorCode

-- std::expected<T, TaskResultError>
pub data Taken : Type 0 where
  taken : (v : ℕ) → Taken
  failed : (code : ErrorCode) → Taken

-- m_result_kind with the storage.
pub data Stored : Type 0 where
  empty : Stored
  inlined : (v : ℕ) → Stored
  on_heap : (v : ℕ) → Stored

pub record TaskState : Type 0 where
  pub scheduler : Option ℕ
  pub runtime : Option ℕ
  pub then_task : Option ℕ
  pub next_task : Option ℕ
  pub result_error : Option ErrorCode
  pub done : Bool
  pub result_consumed : Bool
  pub stored : Stored

-- A new state, after get_return_object without a runtime.
abbrev pub new_state : TaskState
new_state = record {
  scheduler = none;
  runtime = none;
  then_task = none;
  next_task = none;
  result_error = none;
  done = false;
  result_consumed = false;
  stored = empty;
}

-- The index of the text of `message`.
pub message_index : ErrorCode → ℕ
message_index invalid_state = 0
message_index task_exception = 1
message_index already_consumed = 2
message_index result_unavailable = 3
message_index schedule_failed = 4

-- TaskResultStorageTraits::store
abbrev pub store : Bool → ℕ → TaskState → TaskState
store true v s = record s { stored = inlined v }
store false v s = record s { stored = on_heap v }

abbrev pub try_take_stored : Bool → TaskState → Stored → Taken × TaskState
try_take_stored true s (inlined v) = (taken v, record s { stored = empty })
try_take_stored true s empty = (failed result_unavailable, s)
try_take_stored true s (on_heap v) = (failed result_unavailable, s)
try_take_stored false s (on_heap v) = (taken v, record s { stored = empty })
try_take_stored false s empty = (failed result_unavailable, s)
try_take_stored false s (inlined v) = (failed result_unavailable, s)

-- TaskResultStorageTraits::tryTake
abbrev pub try_take : Bool → TaskState → Taken × TaskState
try_take is_inline s = try_take_stored is_inline s s.stored

abbrev pub store_task_result : Bool → ℕ → TaskState → TaskState
store_task_result is_inline v s = store is_inline v s

abbrev pub store_task_error : ErrorCode → TaskState → TaskState
store_task_error code s = record s { result_error = some code }

abbrev pub take_or_error : Bool → TaskState → Option ErrorCode → Taken × TaskState
take_or_error is_inline s (some code) = (failed code, s)
take_or_error is_inline s none =
    if s.result_consumed
    then (failed already_consumed, s)
    else try_take is_inline (record s { result_consumed = true })

-- tryTakeTaskResult of a task that is done, by a reference that may be empty.
pub try_take_task_result : Bool → Option TaskState → Taken × Option TaskState
try_take_task_result is_inline none = (failed invalid_state, none)
try_take_task_result is_inline (some s) =
    let (out, s') = take_or_error is_inline s s.result_error in (out, some s')

-- TaskCompletionState
pub record Completion : Type 0 where
  pub value : Option ℕ
  pub ready : Bool
  pub consumed : Bool

abbrev pub new_completion : Completion
new_completion = record { value = none; ready = false; consumed = false }

pub set_value : ℕ → Completion → Completion
set_value v c = record c { value = some v; ready = true }

abbrev pub take_value : Completion → Option ℕ → Taken × Completion
take_value c none = (failed result_unavailable, c)
take_value c (some v) = (taken v, record c { consumed = true })

-- `take` of a state that is ready.
pub take_completion : Completion → Taken × Completion
take_completion c = if c.consumed then (failed already_consumed, c) else take_value c c.value

-- JoinHandle: the task, or the state of a blocking task.
pub data JoinHandle : Type 0 where
  of_task : (task : TaskState) → JoinHandle
  of_blocking : (completion : Completion) → JoinHandle
  of_nothing : JoinHandle

abbrev pub joined : Taken × Option TaskState → Taken × JoinHandle
joined (out, none) = (out, of_nothing)
joined (out, some s) = (out, of_task s)

pub join : Bool → JoinHandle → Taken × JoinHandle
unfolding try_take_task_result take_completion
join is_inline (of_task s) = joined (try_take_task_result is_inline (some s))
join is_inline (of_blocking c) = let (out, c') = take_completion c in (out, of_blocking c')
join is_inline of_nothing = (failed invalid_state, of_nothing)

-- The outcomes of calls of join one after the other, first call first.
abbrev pub joins : Bool → ℕ → JoinHandle → List Taken
joins is_inline zero h = []
joins is_inline (suc n) h = let (out, h') = join is_inline h in out ∷ joins is_inline n h'
