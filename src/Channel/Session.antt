-- ===== src/Channel/Session.antt =====
-- The channel of unsafe_channel.h with one consumer coroutine and any number of senders: which
-- event leads to which call, and what the consumer has received.
use galay_kernel.Prelude.{
  ℕ, Bool, true, false, Option, none, some, List, [], ◌∷◌, ◌++◌, if◌then◌else◌, option_list,
}
use galay_kernel.Channel
use galay_kernel.Channel.{
  Channel, Kind, one, batch, batched, Wakeup, Result, value, timed_out, WakeMode, send, send_batch,
  try_recv, try_recv_batch, await_ready, await_suspend, await_resume,
}

pub data Consumer : Type 0 where
  running : Consumer
  waiting : (kind : Kind) → Consumer
  awake : (kind : Kind) → Consumer  -- woken, and not yet resumed

pub record Session {ℓ} (A : Type ℓ) : Type ℓ where
  pub channel : Channel A
  pub consumer : Consumer
  pub received : List A

-- What may happen. A `handle` and a `task` are those of the consumer.
pub data Event {ℓ} (A : Type ℓ) : Type ℓ where
  sends : (x : A) (immediately : Bool) → Event A
  sends_batch : (values : List A) (immediately : Bool) → Event A
  tries : Event A
  tries_batch : (max_count : ℕ) → Event A
  awaits : (kind : Kind) (handle task : ℕ) → Event A
  resumes : Event A
  times_out : Event A

abbrev pub wake : Option Wakeup → Consumer → Consumer
wake none consumer = consumer
wake (some w) running = running
wake (some w) (waiting kind) = awake kind
wake (some w) (awake kind) = awake kind

module _ {ℓ} {A : Type ℓ} where
  abbrev pub start : WakeMode → Session A
  start mode = record { channel = Channel.init mode; consumer = running; received = [] }

  abbrev pub given : Result (List A) → List A
  given timed_out = []
  given (value xs) = xs

  abbrev pub given_batch : Option (List A) → List A
  given_batch none = []
  given_batch (some xs) = xs

  -- await_resume, which ends the wait.
  abbrev pub finish : Kind → Bool → Session A → Session A
  finish kind failed s =
      let (out, ch) = await_resume kind failed s.channel in
      record { channel = ch; consumer = running; received = s.received ++ given out }

  -- co_await.
  abbrev pub begin : Kind → ℕ → ℕ → Session A → Session A
  begin kind handle task s =
      if await_ready kind s.channel
      then finish kind false s
      else (let (suspended, ch) = await_suspend kind handle task s.channel in
          if suspended
          then record s { channel = ch; consumer = waiting kind }
          else finish kind false (record s { channel = ch }))

  -- The consumer acts only when it runs, and is resumed only when it does not; a timer may fire
  -- before or after it is woken.
  abbrev pub acts : Event A → Consumer → Session A → Session A
  acts (sends x immediately) consumer s =
      let (w, ch) = send x immediately s.channel in
      record s { channel = ch; consumer = wake w consumer }
  acts (sends_batch values immediately) consumer s =
      let (w, ch) = send_batch values immediately s.channel in
      record s { channel = ch; consumer = wake w consumer }
  acts tries running s =
      let (out, ch) = try_recv s.channel in
      record { channel = ch; consumer = running; received = s.received ++ option_list out }
  acts (tries_batch max_count) running s =
      let (out, ch) = try_recv_batch max_count s.channel in
      record { channel = ch; consumer = running; received = s.received ++ given_batch out }
  acts (awaits kind handle task) running s = begin kind handle task s
  acts resumes (awake kind) s = finish kind false s
  acts times_out (waiting kind) s = finish kind true s
  acts times_out (awake kind) s = finish kind true s
  acts tries (waiting kind) s = s
  acts tries (awake kind) s = s
  acts (tries_batch max_count) (waiting kind) s = s
  acts (tries_batch max_count) (awake kind) s = s
  acts (awaits kind handle task) (waiting k) s = s
  acts (awaits kind handle task) (awake k) s = s
  acts resumes running s = s
  acts resumes (waiting kind) s = s
  acts times_out running s = s

  abbrev pub run : List (Event A) → Session A → Session A
  run [] s = s
  run (e ∷ es) s = run es (acts e s.consumer s)

  -- What the senders have sent, in order.
  abbrev pub sent : Event A → List A
  sent (sends x immediately) = x ∷ []
  sent (sends_batch values immediately) = values
  sent tries = []
  sent (tries_batch max_count) = []
  sent (awaits kind handle task) = []
  sent resumes = []
  sent times_out = []

  abbrev pub all_sent : List (Event A) → List A
  all_sent [] = []
  all_sent (e ∷ es) = sent e ++ all_sent es
