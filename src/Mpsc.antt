-- ===== src/Mpsc.antt =====
-- galay-kernel/concurrency/mpsc_channel.h: the channel from many threads to one coroutine, with its
-- awaitables. `m_queue` is a moodycamel queue, a parameter, and values are numbers. The buffer of
-- prefetched values is known by its first `m_prefetchCount` entries. A coroutine is the address of
-- its task. Each call runs alone here.
-- `m_size` wraps at 32 bits.
pub mod Order
pub mod Buffer
pub mod Delivery
pub mod Batches
pub mod Sends
pub mod Session
pub mod Await
mod Tests
use galay_kernel.Prelude.{
  ℕ, zero, suc, ◌+◌, ◌-◌, ◌%◌, max, Bool, true, false, not, ◌||◌, Option, none, some, List, [], ◌∷◌,
  ◌++◌, ltb, ◌==◌, if◌then◌else◌, is_some, is_empty, length, get_elem?, add32, sub32, word32,
  option_list,
}
use galay_kernel.Concurrent.{ConcurrentQueue}
use galay_kernel.WaitRegistration
use galay_kernel.WaitRegistration.{WaitRegistration, arm, consume_wake}

module _ (c : ConcurrentQueue) where
  open c use {Queue, enqueue, enqueue_bulk, try_dequeue, try_dequeue_bulk}

  pub record Channel : Type 0 where
    pub size : ℕ  -- uint32_t
    pub registration : WaitRegistration
    pub queue : Queue
    pub default_batch_size : ℕ
    pub prefetch_limit : ℕ
    pub prefetch : List ℕ
    pub prefetch_index : ℕ
    pub prefetch_count : ℕ

  pub init : ℕ → ℕ → Channel
  init default_batch_size single_recv_prefetch_limit = record {
    size = 0;
    registration = WaitRegistration.init;
    queue = c.empty;
    default_batch_size = max 1 default_batch_size;
    prefetch_limit = single_recv_prefetch_limit;
    prefetch = [];
    prefetch_index = 0;
    prefetch_count = 0;
  }

  -- The waiter that is woken, if there is one.
  pub wake_published_waiter : Channel → Option ℕ × Channel
  wake_published_waiter ch =
      let (waiter, registration) = consume_wake ch.registration in
      (waiter, record ch { registration = registration })

  -- The end of send and sendBatch, `prev_size` being what fetch_add returned.
  pub wake_if_needed : ℕ → Channel → Option ℕ × Channel
  unfolding wake_published_waiter
  wake_if_needed prev_size ch =
      if prev_size == 0 || WaitRegistration.has_waiter ch.registration
      then wake_published_waiter ch
      else (none, ch)

  -- The part of send before the wake: whether the value was taken over, and what fetch_add returned.
  pub counted_enqueue : ℕ → Channel → Bool × ℕ × Channel
  counted_enqueue x ch =
      let (taken, queue) = enqueue ch.queue x in
      (taken, ch.size, record ch { size = add32 ch.size 1; queue = queue })

  -- Both overloads: the result, and the waiter that is woken.
  pub send : ℕ → Channel → Bool × Option ℕ × Channel
  unfolding counted_enqueue wake_if_needed
  send x ch =
      let (taken, prev_size, ch1) = counted_enqueue x ch in
      if not taken
      then (false, none, record ch1 { size = sub32 ch1.size 1 })
      else (let (woken, ch2) = wake_if_needed prev_size ch1 in (true, woken, ch2))

  -- Both overloads, for fewer than 2^32 values.
  pub send_batch : List ℕ → Channel → Bool × Option ℕ × Channel
  unfolding wake_if_needed
  send_batch values ch =
      if is_empty values
      then (true, none, ch)
      else (let count = length values % word32 in
          let size = add32 ch.size count in
          let (taken, queue) = enqueue_bulk ch.queue values in
          if not taken
          then (false, none, record ch { size = sub32 size count; queue = queue })
          else (let (woken, ch') =
                wake_if_needed ch.size (record ch { size = size; queue = queue }) in
              (true, woken, ch')))

  pub prefetched_count : Channel → ℕ
  prefetched_count ch = ch.prefetch_count - ch.prefetch_index

  -- The reset of both indices once all prefetched values are spent.
  reset_prefetch : Channel → Channel
  reset_prefetch ch =
      if ch.prefetch_index == ch.prefetch_count
      then record ch { prefetch_index = 0; prefetch_count = 0; prefetch = [] }
      else ch

  pub try_pop_prefetched_value : Channel → Option ℕ × Channel
  unfolding prefetched_count reset_prefetch
  try_pop_prefetched_value ch =
      if prefetched_count ch == 0
      then (none, ch)
      else (let ch' = reset_prefetch (record ch { prefetch_index = ch.prefetch_index + 1 }) in
          (get_elem? ch.prefetch ch.prefetch_index, record ch' { size = sub32 ch'.size 1 }))

  pub try_prefetch_single_recv_values : Channel → Bool × Channel
  unfolding prefetched_count
  try_prefetch_single_recv_values ch =
      if not (prefetched_count ch == 0) || (ch.prefetch_limit == 0)
      then (true, ch)
      else (let (values, queue) = try_dequeue_bulk ch.queue ch.prefetch_limit in
          if length values == 0 then (false, record ch { queue = queue }) else (
            true,
            record ch {
              queue = queue;
              prefetch = values;
              prefetch_index = 0;
              prefetch_count = length values;
            },
          ))

  -- The end of tryRecv, after try_dequeue.
  received : Option ℕ → Channel → Option ℕ × Channel
  unfolding try_prefetch_single_recv_values
  received none ch = (none, ch)
  received (some value) ch =
      let (_, ch') = try_prefetch_single_recv_values ch in
      (some value, record ch' { size = sub32 ch'.size 1 })

  -- The rest of tryRecv when the prefetch buffer gave `cached`.
  from_queue : Option ℕ → Channel → Option ℕ × Channel
  unfolding received
  from_queue (some value) ch = (some value, ch)
  from_queue none ch =
      if ch.size == 0
      then (none, ch)
      else (let (out, queue) = try_dequeue ch.queue in received out (record ch { queue = queue }))

  pub try_recv : Channel → Option ℕ × Channel
  unfolding from_queue try_pop_prefetched_value
  try_recv ch = let (cached, ch') = try_pop_prefetched_value ch in from_queue cached ch'

  -- The loop of tryRecvBatch over the prefetched values, at most `count` of them.
  pop_prefetched : ℕ → Channel → List ℕ × Channel
  unfolding try_pop_prefetched_value
  pop_prefetched zero ch = ([], ch)
  pop_prefetched (suc count) ch =
      let (cached, ch') = try_pop_prefetched_value ch in
      let (values, ch'') = pop_prefetched count ch' in
      if is_some cached then (option_list cached ++ values, ch'') else ([], ch')

  -- The bulk dequeue of tryRecvBatch behind `values`.
  fill_batch : ℕ → List ℕ → Channel → List ℕ × Channel
  fill_batch max_count values ch =
      if ltb (length values) max_count
      then (let (more, queue) = try_dequeue_bulk ch.queue (max_count - length values) in
          (
            values ++ more,
            record ch {
              queue = queue;
              size = if ltb 0 (length more) then sub32 ch.size (length more % word32) else ch.size;
            },
          ))
      else (values, ch)

  pub try_recv_batch : ℕ → Channel → Option (List ℕ) × Channel
  unfolding pop_prefetched fill_batch
  try_recv_batch max_count ch =
      if ch.size == 0
      then (none, ch)
      else (let (cached, ch') = pop_prefetched max_count ch in
          let (values, ch'') = fill_batch max_count cached ch' in
          (if is_empty values then none else some values, ch''))
