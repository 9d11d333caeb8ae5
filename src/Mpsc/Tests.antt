-- ===== src/Mpsc/Tests.antt =====
-- Runs of an mpsc_channel.h at concrete inputs, with a list for the queue.
use galay_kernel.Prelude.{◌≡◌, refl, true, false, is_some, none, some, List, [], ◌∷◌, arith}
use galay_kernel.Concurrent.{list_queue}
use galay_kernel.Mpsc
use galay_kernel.Mpsc.Order.{in_order}
use galay_kernel.Mpsc.Await.{
  timed_out, fresh, await_ready, await_suspend, await_resume, late_wake_times_out,
}
use galay_kernel.Mpsc.Session.{
  Op, sends, sends_batch, recvs, recvs_batch, run, start, Accounted, run-Accounted,
}

-- A prefetch of two, a batch that takes what was prefetched and more.
abbrev ops : List Op
ops =
    sends 1
    ∷ sends_batch (2 ∷ 3 ∷ 4 ∷ 5 ∷ [])
    ∷ recvs
    ∷ recvs
    ∷ recvs_batch 2
    ∷ sends 6
    ∷ recvs_batch 9
    ∷ []

run-ops : (run list_queue ops (start list_queue in_order 4 2)).got ≡ 1 ∷ 2 ∷ 3 ∷ 4 ∷ 5 ∷ 6 ∷ []
unfolding Mpsc.init Mpsc.counted_enqueue Mpsc.send Mpsc.send_batch Mpsc.try_recv Mpsc.try_recv_batch
    Mpsc.wake_if_needed Mpsc.wake_published_waiter Mpsc.try_pop_prefetched_value Mpsc.from_queue
    Mpsc.received Mpsc.pop_prefetched Mpsc.fill_batch Mpsc.prefetched_count Mpsc.reset_prefetch
    Mpsc.try_prefetch_single_recv_values Mpsc.WaitRegistration.has_waiter
    Mpsc.WaitRegistration.consume_wake
run-ops = refl

run-Accounted_example :
    Accounted list_queue in_order (run list_queue ops (start list_queue in_order 4 2))
run-Accounted_example = run-Accounted list_queue in_order 4 2 ops (omega arith)

abbrev quiet : Mpsc.Channel list_queue
quiet = record {
  size = 0;
  registration = record { waiter = none; generation = 3 };
  queue = [];
  default_batch_size = 1;
  prefetch_limit = 0;
  prefetch = [];
  prefetch_index = 0;
  prefetch_count = 0;
}

found_at_once :
    is_some (Mpsc.try_recv list_queue (Mpsc.counted_enqueue list_queue 5 quiet).2).0 ≡ true
unfolding Mpsc.counted_enqueue Mpsc.try_recv
found_at_once = refl

late_wake_times_out_example :
    let (taken, prev_size, ch1) = Mpsc.counted_enqueue list_queue 5 quiet in
    let (got, ch2) = Mpsc.try_recv list_queue ch1 in
    let (now, a3, ch3) = await_ready list_queue (Mpsc.try_recv list_queue) fresh ch2 in
    let (suspended, a4, ch4) = await_suspend list_queue (Mpsc.try_recv list_queue) 7 a3 ch3 in
    let (woken, ch5) = Mpsc.wake_if_needed list_queue prev_size ch4 in
    (now ≡ false)
    × (suspended ≡ true)
    × (woken ≡ some 7)
    × ((await_resume list_queue (Mpsc.try_recv list_queue) a4 ch5).0 ≡ timed_out)
late_wake_times_out_example =
    late_wake_times_out list_queue 5 7 quiet
      (record { size = refl; fits = omega arith; index = omega arith; buffer = omega arith }) refl
      refl found_at_once
