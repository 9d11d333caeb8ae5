-- ===== src/Task/Results.antt =====
-- The result of a task is taken once, and a task and a blocking task look the same to whoever joins
-- them (galay-kernel/kernel/task.h).
use galay_kernel.Prelude.{
  ℕ, zero, suc, ◌≡◌, refl, ◌∙◌, ap, Bool, true, false, none, some, List, [], ◌∷◌, replicate, arith,
  sym,
}
use galay_kernel.Task
use galay_kernel.Task.{
  ErrorCode, task_exception, already_consumed, Taken, taken, failed, Stored, empty, TaskState,
  store_task_result, store_task_error, Completion, new_completion, set_value, JoinHandle, of_task,
  of_blocking, join, joins,
}

-- What a coroutine ends with.
pub data End : Type 0 where
  returns : (v : ℕ) → End
  throws : End

-- The part of return_value and of unhandled_exception before completeTaskState.
abbrev pub record_end : Bool → End → TaskState → TaskState
record_end is_inline (returns v) s = store_task_result is_inline v s
record_end is_inline throws s = store_task_error task_exception s

-- What the calls of join see.
abbrev pub outcomes : End → ℕ → List Taken
outcomes (returns v) zero = []
outcomes (returns v) (suc n) = taken v ∷ replicate n (failed already_consumed)
outcomes throws n = replicate n (failed task_exception)

consumed_task :
    (is_inline : Bool) (n : ℕ) (s : TaskState)
    → s.result_error ≡ none
    → s.result_consumed ≡ true
    → joins is_inline n (of_task s) ≡ replicate n (failed already_consumed)
unfolding join Task.try_take_task_result
consumed_task is_inline zero s clean gone = refl
consumed_task is_inline (suc n) s clean gone =
    ground (arith, clean, gone, consumed_task is_inline n s clean gone)

consumed_completion :
    (is_inline : Bool) (n : ℕ) (c : Completion)
    → c.consumed ≡ true
    → joins is_inline n (of_blocking c) ≡ replicate n (failed already_consumed)
unfolding join Task.take_completion
consumed_completion is_inline zero c gone = refl
consumed_completion is_inline (suc n) c gone =
    ground (arith, gone, consumed_completion is_inline n c gone)

failed_task :
    (is_inline : Bool) (n : ℕ) (s : TaskState) (code : ErrorCode)
    → s.result_error ≡ some code
    → joins is_inline n (of_task s) ≡ replicate n (failed code)
unfolding join Task.try_take_task_result
failed_task is_inline zero s code wrong = refl
failed_task is_inline (suc n) s code wrong =
    ground (arith, wrong, failed_task is_inline n s code wrong)

-- Any number of calls of join of a task that has ended, from a state without an error or a result:
-- the first gets the value and the later ones kAlreadyConsumed, or all get kTaskException.
pub joins-Once :
    (is_inline : Bool) (end : End) (n : ℕ) (s : TaskState)
    → s.result_error ≡ none
    → s.result_consumed ≡ false
    → joins is_inline n (of_task (record_end is_inline end s)) ≡ outcomes end n
unfolding join Task.try_take_task_result
joins-Once is_inline (returns v) zero s clean fresh = refl
joins-Once true (returns v) (suc n) s clean fresh =
    let rest =
      consumed_task true n (record s { result_consumed = true; stored = empty }) clean refl in
    ground (arith, clean, fresh, rest)
joins-Once false (returns v) (suc n) s clean fresh =
    let rest =
      consumed_task false n (record s { result_consumed = true; stored = empty }) clean refl in
    ground (arith, clean, fresh, rest)
joins-Once is_inline throws n s clean fresh =
    failed_task is_inline n (store_task_error task_exception s) task_exception refl

-- A blocking task that ends with a value gives to any number of calls of join what a coroutine that
-- ends with the value, from a state without an error or a result, gives to them, whether or not the
-- coroutine's value is stored inline.
pub joins-Blocking :
    (is_inline blocking_inline : Bool) (v n : ℕ) (s : TaskState)
    → s.result_error ≡ none
    → s.result_consumed ≡ false
    → joins blocking_inline n (of_blocking (set_value v new_completion))
      ≡ joins is_inline n (of_task (record_end is_inline (returns v) s))
unfolding set_value join Task.take_completion
joins-Blocking is_inline blocking_inline v n s clean fresh =
    by_count n ∙ sym (joins-Once is_inline (returns v) n s clean fresh)
  where
    by_count :
        (m : ℕ)
        → joins blocking_inline m (of_blocking (set_value v new_completion))
          ≡ outcomes (returns v) m
    by_count zero = refl
    by_count (suc m) =
        ap (λ l. taken v ∷ l)
          (consumed_completion blocking_inline m
            (record { value = some v; ready = true; consumed = true }) refl)
