-- ===== src/Dm.antt =====
-- sw/runtime/src/dm.h: the data mover (DM) core, which serves a ring of four transfer requests, and one
-- core that requests transfers and waits for them. Each step is one access to the shared struct `dm_t`,
-- to the interrupt of the DM core or to the DMA. The variant with the cluster-local interrupt.
pub mod Ring
pub mod Serve
pub mod Answers
use snitch_cluster_chips_it.Prelude.{
  ℕ, zero, suc, ◌+◌, ◌-◌, ◌%◌, Bool, true, false, List, [], ◌∷◌, ◌==◌, ltb, leb, if◌then◌else◌,
  replace, add32, ◌^◌,
}

-- `DM_TASK_QUEUE_SIZE`
abbrev pub queue_size : ℕ
queue_size = 4

-- `dm_task_t`
pub record Task : Type 0 where
  pub src : ℕ
  pub dst : ℕ
  pub size : ℕ
  pub sstrd : ℕ
  pub dstrd : ℕ
  pub nreps : ℕ
  pub cfg : ℕ
  pub twod : ℕ

-- The arguments of `dm_memcpy_async` and `dm_memcpy2d_async`.
pub data Request : Type 0 where
  memcpy : (dest src n : ℕ) → Request
  memcpy_2d : (src dst size sstrd dstrd nreps cfg : ℕ) → Request

-- What the DM core starts: `__builtin_sdma_start_oned` or `__builtin_sdma_start_twod`.
pub data Command : Type 0 where
  start_oned : (src dst size cfg : ℕ) → Command
  start_twod : (src dst size sstrd dstrd nreps cfg : ℕ) → Command

-- A slot after a request is written into it: a 1D request leaves the fields of a 2D one as they were.
unfoldable pub insert : Request → Task → Task
insert (memcpy dest src n) t = record t { src = src; dst = dest; size = n; twod = 0; cfg = 0 }
insert (memcpy_2d src dst size sstrd dstrd nreps cfg) t = record {
  src = src;
  dst = dst;
  size = size;
  sstrd = sstrd;
  dstrd = dstrd;
  nreps = nreps;
  cfg = cfg;
  twod = 1;
}

-- What a request asks for.
unfoldable pub wanted : Request → Command
wanted (memcpy dest src n) = start_oned src dest n 0
wanted (memcpy_2d src dst size sstrd dstrd nreps cfg) =
    start_twod src dst size sstrd dstrd nreps cfg

-- What a slot makes the DM core start.
unfoldable pub command : Task → Command
command t =
    if t.twod == 0
    then start_oned t.src t.dst t.size t.cfg
    else start_twod t.src t.dst t.size t.sstrd t.dstrd t.nreps t.cfg

-- `en_stat_t`; 0 is no request.
abbrev pub stat_wait_idle : ℕ
stat_wait_idle = 1

abbrev pub stat_exit : ℕ
stat_exit = 2

abbrev pub stat_ready : ℕ
stat_ready = 3

-- `dm_t`, the DM core's interrupt, and what the DMA has been told: the commands started, numbered from 0
-- on, and how many of them are finished. `puts` and `requested` number the requests as they are counted in.
pub record Shared : Type 0 where
  pub queue : ℕ → Task
  pub queue_back : ℕ
  pub queue_front : ℕ
  pub queue_fill : ℕ
  pub mutex : ℕ
  pub stat_q : ℕ
  pub stat_pvalid : ℕ
  pub dm_wfi : ℕ
  pub interrupt : Bool
  pub takes : ℕ
  pub issued : ℕ → Command
  pub finished : ℕ
  pub puts : ℕ
  pub requested : ℕ → Command

-- What follows `wake_dm`.
pub data After : Type 0 where
  return : After
  empty_queue : After
  idle_answer : After
  ready_answer : After

-- The next access of the requesting core.
pub data Client : Type 0 where
  idle : Client
  poll_size : Request → Client
  lock : Request → Client
  write_slot : Request → Client
  bump_fill : Request → Client
  bump_front : Client
  unlock : Client
  wake : After → Client
  signal : After → Client
  await_empty : Client
  await_stat : Client
  lock_idle : Client
  clear_idle : Client
  ask_idle : Client
  await_idle : Client
  lock_ready : Client
  clear_ready : Client
  ask_ready : Client
  await_ready : Client
  ask_exit : Client

-- The next access of the DM core.
pub data Mover : Type 0 where
  test_fill : Mover
  would_block : Mover
  issue : Mover
  bump_back : Mover
  drop_fill : Mover
  test_stat : Mover
  switch : Mover
  check_busy : Mover
  answer_idle : Mover
  answer_ready : Mover
  clear_stat : Mover
  sleep_fill : Mover
  sleep_stat : Mover
  enter_wfi : Mover
  wfi : Mover
  clear_interrupt : Mover
  leave_wfi : Mover
  exited : Mover

-- The functions that a core calls.
pub data Call : Type 0 where
  memcpy_async : Request → Call
  start : Call
  wait : Call
  wait_ready : Call
  exit : Call

unfoldable pub enter : Call → Client
enter (memcpy_async r) = poll_size r
enter start = wake return
enter wait = wake empty_queue
enter wait_ready = lock_ready
enter exit = ask_exit

unfoldable pub woken : After → Client
woken return = idle
woken empty_queue = await_empty
woken idle_answer = await_idle
woken ready_answer = await_ready

-- One access of the requesting core. Acquiring the mutex is a swap that is tried again until it reads 0;
-- the stores into a slot, which the mutex and the count keep from others, are one step.
unfoldable pub client_step : Client → Shared → Client × Shared
unfolding insert wanted woken
client_step idle s = (idle, s)
client_step (poll_size r) s = (if leb queue_size s.queue_fill then poll_size r else lock r, s)
client_step (lock r) s = (if s.mutex == 0 then write_slot r else lock r, record s { mutex = 1 })
client_step (write_slot r) s = (
  bump_fill r,
  record s { queue = replace s.queue_front (insert r (s.queue s.queue_front)) s.queue },
)
client_step (bump_fill r) s = (
  bump_front,
  record s {
    queue_fill = add32 s.queue_fill 1;
    puts = suc s.puts;
    requested = replace s.puts (wanted r) s.requested;
  },
)
client_step bump_front s = (unlock, record s { queue_front = suc s.queue_front % queue_size })
client_step unlock s = (idle, record s { mutex = 0 })
client_step (wake a) s = (if s.dm_wfi == 0 then wake a else signal a, s)
client_step (signal a) s = (woken a, record s { interrupt = true })
client_step await_empty s = (if s.queue_fill == 0 then await_stat else await_empty, s)
client_step await_stat s = (if s.stat_q == 0 then lock_idle else await_stat, s)
client_step lock_idle s = (if s.mutex == 0 then clear_idle else lock_idle, record s { mutex = 1 })
client_step clear_idle s = (ask_idle, record s { stat_pvalid = 0 })
client_step ask_idle s = (wake idle_answer, record s { stat_q = stat_wait_idle })
client_step await_idle s = (if s.stat_pvalid == 0 then await_idle else unlock, s)
client_step lock_ready s =
    (if s.mutex == 0 then clear_ready else lock_ready, record s { mutex = 1 })
client_step clear_ready s = (ask_ready, record s { stat_pvalid = 0 })
client_step ask_ready s = (wake ready_answer, record s { stat_q = stat_ready })
client_step await_ready s = (if s.stat_pvalid == 0 then await_ready else unlock, s)
client_step ask_exit s = (wake return, record s { stat_q = stat_exit })

-- One access of the DM core in `dm_main`; `busy` is what the DMA answers when it is asked whether a
-- command would block.
unfoldable pub mover_step : (busy : Bool) → Mover → Shared → Mover × Shared
unfolding command
mover_step busy test_fill s = (if s.queue_fill == 0 then test_stat else would_block, s)
mover_step busy would_block s = (if busy then would_block else issue, s)
mover_step busy issue s = (
  bump_back,
  record s {
    takes = suc s.takes;
    issued = replace s.takes (command (s.queue s.queue_back)) s.issued;
  },
)
mover_step busy bump_back s = (drop_fill, record s { queue_back = suc s.queue_back % queue_size })
mover_step busy drop_fill s = (test_stat, record s { queue_fill = add32 s.queue_fill (2 ^ 32 - 1) })
mover_step busy test_stat s = (if s.stat_q == 0 then sleep_fill else switch, s)
mover_step busy switch s = (
  if s.stat_q == stat_wait_idle
      then check_busy
      else if s.stat_q == stat_exit
      then exited
      else if s.stat_q == stat_ready
      then answer_ready
      else sleep_fill,
  s,
)
mover_step busy check_busy s = (if s.finished == s.takes then answer_idle else sleep_fill, s)
mover_step busy answer_idle s = (clear_stat, record s { stat_pvalid = 1 })
mover_step busy answer_ready s = (clear_stat, record s { stat_pvalid = 1 })
mover_step busy clear_stat s = (sleep_fill, record s { stat_q = 0 })
mover_step busy sleep_fill s = (if s.queue_fill == 0 then sleep_stat else test_fill, s)
mover_step busy sleep_stat s = (if s.stat_q == 0 then enter_wfi else test_fill, s)
mover_step busy enter_wfi s = (wfi, record s { dm_wfi = add32 s.dm_wfi 1 })
mover_step busy wfi s = (if s.interrupt then clear_interrupt else wfi, s)
mover_step busy clear_interrupt s = (leave_wfi, record s { interrupt = false })
mover_step busy leave_wfi s = (test_fill, record s { dm_wfi = add32 s.dm_wfi (2 ^ 32 - 1) })
mover_step busy exited s = (exited, s)

-- The DMA finishes the oldest command that it has been told and not finished.
unfoldable pub dma_step : Shared → Shared
dma_step s = if s.finished == s.takes then s else record s { finished = suc s.finished }

pub record System : Type 0 where
  pub client : Client
  pub mover : Mover
  pub shared : Shared

-- Who makes a step; a call is made only by a core that is in none.
pub data Actor : Type 0 where
  calls : Call → Actor
  client : Actor
  mover : (busy : Bool) → Actor
  dma : Actor

unfoldable pub begin : Call → Client → Client
unfolding enter
begin c idle = enter c
begin c other = other

unfoldable pub step : Actor → System → System
unfolding begin client_step mover_step dma_step
step (calls c) s = record s { client = begin c s.client }
step client s = record s {
  client = (client_step s.client s.shared).0;
  shared = (client_step s.client s.shared).1;
}
step (mover busy) s = record s {
  mover = (mover_step busy s.mover s.shared).0;
  shared = (mover_step busy s.mover s.shared).1;
}
step dma s = record s { shared = dma_step s.shared }

unfoldable pub run : List Actor → System → System
unfolding step
run [] s = s
run (a ∷ schedule) s = run schedule (step a s)

abbrev pub empty_task : Task
empty_task = record {
  src = 0;
  dst = 0;
  size = 0;
  sstrd = 0;
  dstrd = 0;
  nreps = 0;
  cfg = 0;
  twod = 0;
}

-- After `dm_init`: the struct is cleared, the DM core is in `dm_main`.
abbrev pub initial : System
initial = record {
  client = idle;
  mover = test_fill;
  shared = record {
    queue = λ i. empty_task;
    queue_back = 0;
    queue_front = 0;
    queue_fill = 0;
    mutex = 0;
    stat_q = 0;
    stat_pvalid = 0;
    dm_wfi = 0;
    interrupt = false;
    takes = 0;
    issued = λ k. start_oned 0 0 0 0;
    finished = 0;
    puts = 0;
    requested = λ k. start_oned 0 0 0 0;
  };
}
