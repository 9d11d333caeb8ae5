-- ===== src/Task/Continuations/Attached.antt =====
-- The tasks that `then` attaches, and what the end of their task schedules
-- (galay-kernel/kernel/task.cc).
use galay_kernel.Prelude.{
  ℕ, zero, suc, ◌≡◌, refl, ◌∙◌, ap, inl, inr, true, Option, none, some, List, [], ◌∷◌, ◌++◌, ◌==◌,
  if_elim, arith, is_some, Bool-cases,
}
use galay_kernel.Task.Continuations.{
  World, write, schedule_on, schedule_if_any, complete_task_state, inherit_task_runtime,
  give_scheduler, set_task_scheduler, and_then, attach_task_continuation,
}
use galay_kernel.Task.Continuations.Awaits.{tasks-schedule_if_any}

-- `then` of each task in turn.
abbrev pub attach_all : ℕ → ℕ → List ℕ → World → World
attach_all fuel t [] w = w
attach_all fuel t (n ∷ ns) w = attach_all fuel t ns (attach_task_continuation fuel t n w)

-- What attaching keeps.
record Framed (w w' : World) : Type 0 where
  log : w'.scheduled ≡ w.scheduled
  parents : (t : ℕ) → (w'.tasks t).next_task ≡ (w.tasks t).next_task

Framed-both : (w w1 w2 : World) → Framed w w1 → Framed w1 w2 → Framed w w2
Framed-both w w1 w2 a b = record { log = b.log ∙ a.log; parents = λ t. b.parents t ∙ a.parents t }

inherit-Framed :
    (t : ℕ) (runtime : Option ℕ) (w : World) → Framed w (inherit_task_runtime t runtime w)
inherit-Framed t runtime w =
    if_elim (λ (x : World). Framed w x) (is_some (w.tasks t).runtime)
      (λ has. record { log = refl; parents = λ x. refl })
      (λ lacks. record { log = refl; parents = λ x. ground arith })

and_then-Framed :
    (follow : ℕ → World → World) (next : Option ℕ) (w : World)
    → ((n : ℕ) → Framed w (follow n w))
    → Framed w (and_then follow next w)
and_then-Framed follow none w h = record { log = refl; parents = λ x. refl }
and_then-Framed follow (some n) w h =
    if_elim (λ (x : World). Framed w x) (is_some (w.tasks n).scheduler)
      (λ has. record { log = refl; parents = λ x. refl }) (λ lacks. h n)

set_task_scheduler-Framed :
    (fuel scheduler t : ℕ) (w : World) → Framed w (set_task_scheduler fuel scheduler t w)
unfolding set_task_scheduler
set_task_scheduler-Framed zero scheduler t w = record { log = refl; parents = λ x. ground arith }
set_task_scheduler-Framed (suc fuel) scheduler t w =
    let w' = write t (record (w.tasks t) { scheduler = some scheduler }) w in
    let follow : ℕ → World → World = λ n. set_task_scheduler fuel scheduler n in
    Framed-both w w' (and_then follow (w'.tasks t).then_task w')
      (record { log = refl; parents = λ x. ground arith })
      (and_then-Framed follow (w'.tasks t).then_task w'
        (λ n. set_task_scheduler-Framed fuel scheduler n w'))

give-Framed : (fuel t : ℕ) (o : Option ℕ) (w : World) → Framed w (give_scheduler fuel t o w)
give-Framed fuel t none w = record { log = refl; parents = λ x. refl }
give-Framed fuel t (some scheduler) w =
    if_elim (λ (x : World). Framed w x) (is_some (w.tasks t).scheduler)
      (λ has. record { log = refl; parents = λ x. refl })
      (λ lacks. set_task_scheduler-Framed fuel scheduler t w)

attach-Framed : (fuel t n : ℕ) (w : World) → Framed w (attach_task_continuation fuel t n w)
unfolding attach_task_continuation
attach-Framed fuel t n w =
    let w' = inherit_task_runtime n (w.tasks t).runtime w in
    let w'' = give_scheduler fuel n (w'.tasks t).scheduler w' in
    let a = inherit-Framed n (w.tasks t).runtime w in
    let b = give-Framed fuel n (w'.tasks t).scheduler w' in
    Framed-both w w'' (write t (record (w''.tasks t) { then_task = some n }) w'')
      (Framed-both w w' w'' a b) (record { log = refl; parents = λ x. ground arith })

attach_all-Framed : (fuel t : ℕ) (ns : List ℕ) (w : World) → Framed w (attach_all fuel t ns w)
attach_all-Framed fuel t [] w = record { log = refl; parents = λ x. refl }
attach_all-Framed fuel t (n ∷ ns) w =
    let w' = attach_task_continuation fuel t n w in
    Framed-both w w' (attach_all fuel t ns w') (attach-Framed fuel t n w)
      (attach_all-Framed fuel t ns w')

then-attach :
    (fuel t n : ℕ) (w : World) → ((attach_task_continuation fuel t n w).tasks t).then_task ≡ some n
unfolding attach_task_continuation
then-attach fuel t n w = ground arith

then-attach_all :
    (fuel t : ℕ) (ns : List ℕ) (n : ℕ) (w : World)
    → ((attach_all fuel t (ns ++ n ∷ []) w).tasks t).then_task ≡ some n
then-attach_all fuel t [] n w = then-attach fuel t n w
then-attach_all fuel t (x ∷ ns) n w =
    then-attach_all fuel t ns n (attach_task_continuation fuel t x w)

scheduled_some :
    (o : Option ℕ) (n k : ℕ) (w : World)
    → o ≡ some n
    → (w.tasks n).scheduler ≡ some k
    → (schedule_if_any o w).scheduled ≡ w.scheduled ++ (k, n) ∷ []
scheduled_some none n k w e bound = ground arith
scheduled_some (some x) n k w e bound =
    let same : (w.tasks x).scheduler ≡ some k = ground arith in
    let x_is : x ≡ n = ground arith in
    ap (λ o. (schedule_on x o w).scheduled) same ∙ ap (λ y. w.scheduled ++ (k, y) ∷ []) x_is

scheduled_none :
    (o : Option ℕ) (w : World) → o ≡ none → (schedule_if_any o w).scheduled ≡ w.scheduled
scheduled_none none w e = refl
scheduled_none (some x) w e = ground arith

scheduled_complete :
    (t n k : ℕ) (w : World)
    → (w.tasks t).then_task ≡ some n
    → (w.tasks t).next_task ≡ none
    → (w.tasks n).scheduler ≡ some k
    → (complete_task_state t w).scheduled ≡ w.scheduled ++ (k, n) ∷ []
unfolding complete_task_state
scheduled_complete t n k w attached alone bound =
    let w1 = write t (record (w.tasks t) { done = true }) w in
    let w1' = write t (record (w1.tasks t) { then_task = none }) w1 in
    let w2 = schedule_if_any (w1.tasks t).then_task w1' in
    let w2' = write t (record (w2.tasks t) { next_task = none }) w2 in
    let asked : (w1.tasks t).then_task ≡ some n = ground arith in
    let there : (w1'.tasks n).scheduler ≡ some k = elim (Bool-cases (t == n)) [
      | inl e ↦ ground arith
      | inr e ↦ ground arith
    ] in
    let parent : (w1'.tasks t).next_task ≡ none = ground arith in
    let kept = tasks-schedule_if_any (w1.tasks t).then_task w1' in
    scheduled_none (w2.tasks t).next_task w2' (ap (λ f. (f t).next_task) kept ∙ parent)
    ∙ scheduled_some (w1.tasks t).then_task n k w1' asked there

quiet_complete :
    (t : ℕ) (w : World)
    → (w.tasks t).then_task ≡ none
    → (w.tasks t).next_task ≡ none
    → (complete_task_state t w).scheduled ≡ w.scheduled
unfolding complete_task_state
quiet_complete t w no_then no_next =
    let w1 = write t (record (w.tasks t) { done = true }) w in
    let w1' = write t (record (w1.tasks t) { then_task = none }) w1 in
    let w2 = schedule_if_any (w1.tasks t).then_task w1' in
    let w2' = write t (record (w2.tasks t) { next_task = none }) w2 in
    let asked : (w1.tasks t).then_task ≡ none = ground arith in
    let parent : (w1'.tasks t).next_task ≡ none = ground arith in
    let kept = tasks-schedule_if_any (w1.tasks t).then_task w1' in
    scheduled_none (w2.tasks t).next_task w2' (ap (λ f. (f t).next_task) kept ∙ parent)
    ∙ scheduled_none (w1.tasks t).then_task w1' asked

cleared_complete :
    (t : ℕ) (w : World)
    → (((complete_task_state t w).tasks t).then_task ≡ none)
      × (((complete_task_state t w).tasks t).next_task ≡ none)
unfolding complete_task_state
cleared_complete t w =
    let w1 = write t (record (w.tasks t) { done = true }) w in
    let w1' = write t (record (w1.tasks t) { then_task = none }) w1 in
    let w2 = schedule_if_any (w1.tasks t).then_task w1' in
    let w2' = write t (record (w2.tasks t) { next_task = none }) w2 in
    let first = tasks-schedule_if_any (w1.tasks t).then_task w1' in
    let then_gone : (w1'.tasks t).then_task ≡ none = ground arith in
    let then_gone2 : (w2.tasks t).then_task ≡ none = ap (λ f. (f t).then_task) first ∙ then_gone in
    let second = tasks-schedule_if_any (w2.tasks t).next_task w2' in
    let then_gone3 : (w2'.tasks t).then_task ≡ none = ground arith in
    let next_gone3 : (w2'.tasks t).next_task ≡ none = ground arith in
    (ap (λ f. (f t).then_task) second ∙ then_gone3, ap (λ f. (f t).next_task) second ∙ next_gone3)

-- Completing a task a second time schedules nothing: its continuation and its parent are scheduled at
-- most once.
pub complete-Once :
    (t : ℕ) (w : World)
    → (complete_task_state t (complete_task_state t w)).scheduled
      ≡ (complete_task_state t w).scheduled
complete-Once t w =
    let (no_then, no_next) = cleared_complete t w in
    quiet_complete t (complete_task_state t w) no_then no_next

-- Of the tasks that are attached to a task with `then`, which has no parent that waits for it, the
-- end of the task schedules the last one, on its scheduler, and nothing else: the others are lost.
pub attach-Last :
    (fuel t n k : ℕ) (ns : List ℕ) (w : World)
    → (w.tasks t).next_task ≡ none
    → ((attach_all fuel t (ns ++ n ∷ []) w).tasks n).scheduler ≡ some k
    → (complete_task_state t (attach_all fuel t (ns ++ n ∷ []) w)).scheduled
      ≡ w.scheduled ++ (k, n) ∷ []
attach-Last fuel t n k ns w alone bound =
    let w' = attach_all fuel t (ns ++ n ∷ []) w in
    let f = attach_all-Framed fuel t (ns ++ n ∷ []) w in
    scheduled_complete t n k w' (then-attach_all fuel t ns n w) (f.parents t ∙ alone) bound
    ∙ ap (λ l. l ++ (k, n) ∷ []) f.log
