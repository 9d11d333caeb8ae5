-- ===== src/Waiter/Wakeups.antt =====
-- A coroutine that waits on an async_waiter.h is woken, and may be resumed too early.
use galay_kernel.Prelude.{arith, ℕ, ◌≡◌, ◌⊎◌, inl, inr, refl, ap, ◌∙◌, sym, Bool, true, false}
use galay_kernel.Waiter.{
  State, Step, Steps, here, next, Notifier, Waiting, start, fresh, won, stored, finished, starting,
  unready, registered, withdrawing, suspended, resuming, returned, notify_ready, notify_store,
  notify_wake, notify_quiet, await_ready_true, await_ready_false, suspend_register, suspend_ready,
  suspend_withdraw, suspend_stay, wake_resume, resume_return,
}

abbrev begun : Notifier → Bool
begun (fresh v) = false
begun (won v) = true
begun stored = true
begun finished = true

abbrev is_finished : Notifier → Bool
is_finished (fresh v) = false
is_finished (won v) = false
is_finished stored = false
is_finished finished = true

abbrev is_suspended : Waiting → Bool
is_suspended starting = false
is_suspended unready = false
is_suspended registered = false
is_suspended withdrawing = false
is_suspended suspended = true
is_suspended resuming = false
is_suspended (returned v) = false

abbrev is_registered : Waiting → Bool
is_registered starting = false
is_registered unready = false
is_registered registered = true
is_registered withdrawing = false
is_registered suspended = false
is_registered resuming = false
is_registered (returned v) = false

record Inv (s : State) : Type 0 where
  ready : s.ready ≡ begun s.notifier
  seen : is_registered s.waiter ≡ true → (s.waiting ≡ true) ⊎ (begun s.notifier ≡ true)
  owed :
      is_suspended s.waiter ≡ true
      → (s.woken ≡ true) ⊎ ((s.waiting ≡ true) × (is_finished s.notifier ≡ false))

unbegun : (n : Notifier) → begun n ≡ false → is_finished n ≡ false
unbegun (fresh v) e = refl
unbegun (won v) e = refl
unbegun stored e = refl
unbegun finished e = absurd (cc)

Step-Inv : {s t : State} → Inv s → Step s t → Inv t
Step-Inv {s} h (notify_ready v e f) = record {
  ready = refl;
  seen = λ _. inr refl;
  owed = λ q. ground (arith, h.owed q);
}
Step-Inv {s} h (notify_store v e) = record {
  ready = ground (arith, h.ready, e);
  seen = λ q. inr refl;
  owed = λ q. ground (arith, h.owed q);
}
Step-Inv {s} h (notify_wake e f) = record {
  ready = ground (arith, h.ready, e);
  seen = λ q. inr refl;
  owed = λ q. inl refl;
}
Step-Inv {s} h (notify_quiet e f) = record {
  ready = ground (arith, h.ready, e);
  seen = λ q. inr refl;
  owed = λ q. ground (arith, h.owed q, f);
}
Step-Inv {s} h (await_ready_true e f) = record {
  ready = h.ready;
  seen = λ q. absurd (cc);
  owed = λ q. absurd (cc);
}
Step-Inv {s} h (await_ready_false e f) = record {
  ready = h.ready;
  seen = λ q. absurd (cc);
  owed = λ q. absurd (cc);
}
Step-Inv {s} h (suspend_register e f) = record {
  ready = h.ready;
  seen = λ q. inl refl;
  owed = λ q. absurd (cc);
}
Step-Inv {s} h (suspend_ready e f) = record {
  ready = h.ready;
  seen = λ q. absurd (cc);
  owed = λ q. absurd (cc);
}
Step-Inv {s} h (suspend_withdraw e) = record {
  ready = h.ready;
  seen = λ q. absurd (cc);
  owed = λ q. absurd (cc);
}
Step-Inv {s} h (suspend_stay e f) = record {
  ready = h.ready;
  seen = λ q. absurd (cc);
  owed = λ q. inr (
    ground (arith, h.seen (ap is_registered e), h.ready, f),
    unbegun s.notifier (sym h.ready ∙ f),
  );
}
Step-Inv {s} h (wake_resume e f) = record {
  ready = h.ready;
  seen = λ q. absurd (cc);
  owed = λ q. absurd (cc);
}
Step-Inv {s} h (resume_return e) = record {
  ready = h.ready;
  seen = λ q. absurd (cc);
  owed = λ q. absurd (cc);
}

Steps-Inv : {s t : State} → Inv s → Steps s t → Inv t
Steps-Inv h here = h
Steps-Inv h (next path step) = Step-Inv (Steps-Inv h path) step

-- However notify and the waiting coroutine interleave, a coroutine that is suspended when notify has
-- returned has been woken.
pub notified_woken :
    {v : ℕ} {s : State}
    → Steps (start v) s
    → s.waiter ≡ suspended
    → s.notifier ≡ finished
    → s.woken ≡ true
notified_woken {v} {s} path w n =
    let h =
      Steps-Inv (record { ready = refl; seen = λ q. absurd (cc); owed = λ q. absurd (cc) }) path in
    elim (h.owed (ap is_suspended w)) [ inl e ↦ e | inr r ↦ absurd (cc (r.1, ap is_finished n)) ]
