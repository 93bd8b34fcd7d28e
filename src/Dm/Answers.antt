-- ===== src/Dm/Answers.antt =====
-- The requests for an answer: when `dm_wait` returns, the transfers are finished.
use snitch_cluster_chips_it.Prelude.{
  subst, ◌<◌, ◌≡◌, ◌⊎◌, inl, inr, Bool, true, false, ◌==◌, refl, sym, ap, ◌∙◌, arith, Bool-cases,
  List, [], ◌∷◌,
}
use snitch_cluster_chips_it.Dm.{
  Call, memcpy_async, start, wait, wait_ready, exit, Shared, Client, return, empty_queue,
  idle_answer, ready_answer, poll_size, lock, write_slot, bump_fill, bump_front, unlock, wake,
  signal, await_empty, await_stat, lock_idle, clear_idle, ask_idle, await_idle, lock_ready,
  clear_ready, ask_ready, await_ready, ask_exit, Mover, test_fill, would_block, issue, bump_back,
  drop_fill, test_stat, switch, check_busy, answer_idle, answer_ready, clear_stat, sleep_fill,
  sleep_stat, enter_wfi, wfi, clear_interrupt, leave_wfi, exited, client_step, mover_step, dma_step,
  idle, enter, begin, woken, Actor, calls, client, mover, dma, System, step, run, initial,
}
use snitch_cluster_chips_it.Dm.Ring.{Ring, has_seen}
use snitch_cluster_chips_it.Dm.Serve.{RingOf, run-RingOf, initial-RingOf}

-- The core waits for the DMA to be idle, and for the DM core to be ready.
unfoldable asks_idle : Client → Bool
asks_idle (wake idle_answer) = true
asks_idle (signal idle_answer) = true
asks_idle await_idle = true
asks_idle _ = false

unfoldable asks_ready : Client → Bool
asks_ready (wake ready_answer) = true
asks_ready (signal ready_answer) = true
asks_ready await_ready = true
asks_ready _ = false

-- The core has seen the ring empty and has requested nothing since.
unfoldable drained : Client → Bool
drained await_stat = true
drained lock_idle = true
drained clear_idle = true
drained ask_idle = true
drained (wake idle_answer) = true
drained (signal idle_answer) = true
drained await_idle = true
drained _ = false

-- The core has cleared the answer and not asked yet.
unfoldable has_cleared : Client → Bool
has_cleared ask_idle = true
has_cleared ask_ready = true
has_cleared _ = false

unfoldable serves_idle : Mover → Bool
serves_idle check_busy = true
serves_idle answer_idle = true
serves_idle _ = false

unfoldable found_idle : Mover → Bool
found_idle answer_idle = true
found_idle _ = false

unfoldable serves_ready : Mover → Bool
serves_ready answer_ready = true
serves_ready _ = false

unfoldable clears : Mover → Bool
clears clear_stat = true
clears _ = false

record Answers (c : Client) (m : Mover) (s : Shared) : Type 0 where
  empty : drained c ≡ true → s.takes ≡ s.puts
  found : found_idle m ≡ true → s.finished ≡ s.takes
  for_idle : serves_idle m ≡ true → (asks_idle c ≡ true) × (s.stat_pvalid ≡ 0)
  for_ready : serves_ready m ≡ true → (asks_ready c ≡ true) × (s.stat_pvalid ≡ 0)
  idle_asked : s.stat_q ≡ 1 → (asks_idle c ≡ true) ⊎ (clears m ≡ true)
  ready_asked : s.stat_q ≡ 3 → (asks_ready c ≡ true) ⊎ (clears m ≡ true)
  idle_answered :
      asks_idle c ≡ true
      → 0 < s.stat_pvalid
      → (s.finished ≡ s.takes) × (s.stat_q ≡ 1 → clears m ≡ true)
  ready_answered : asks_ready c ≡ true → 0 < s.stat_pvalid → s.stat_q ≡ 3 → clears m ≡ true
  cleared : has_cleared c ≡ true → s.stat_pvalid ≡ 0

client_step-Answers :
    (c : Client) (m : Mover) (s : Shared)
    → Ring c m s
    → Answers c m s
    → Answers (client_step c s).0 m (client_step c s).1
unfolding client_step woken asks_idle asks_ready drained has_cleared
client_step-Answers idle m s r a = ground arith
client_step-Answers (poll_size q) m s r a = ground arith
client_step-Answers (lock q) m s r a = ground arith
client_step-Answers (write_slot q) m s r a = ground arith
client_step-Answers (bump_fill q) m s r a = ground arith
client_step-Answers bump_front m s r a = ground arith
client_step-Answers unlock m s r a = ground arith
client_step-Answers (wake return) m s r a = ground arith
client_step-Answers (wake empty_queue) m s r a = ground arith
client_step-Answers (wake idle_answer) m s r a = ground arith
client_step-Answers (wake ready_answer) m s r a = ground arith
client_step-Answers (signal return) m s r a = ground arith
client_step-Answers (signal empty_queue) m s r a = ground arith
client_step-Answers (signal idle_answer) m s r a = ground arith
client_step-Answers (signal ready_answer) m s r a = ground arith
client_step-Answers await_empty m s r a = ground arith
client_step-Answers await_stat m s r a = ground arith
client_step-Answers lock_idle m s r a = ground arith
client_step-Answers clear_idle m s r a = ground arith
client_step-Answers ask_idle m s r a = ground arith
client_step-Answers await_idle m s r a = ground arith
client_step-Answers lock_ready m s r a = ground arith
client_step-Answers clear_ready m s r a = ground arith
client_step-Answers ask_ready m s r a = ground arith
client_step-Answers await_ready m s r a = ground arith
client_step-Answers ask_exit m s r a = ground arith

-- A core that asks for one of the answers is in no other state above.
abbrev Exclusive : Client → Type 0
Exclusive c =
    (asks_idle c ≡ true → (drained c ≡ true) × (has_cleared c ≡ false) × (asks_ready c ≡ false))
    × (asks_ready c ≡ true → has_cleared c ≡ false)

asks-Exclusive : (c : Client) → Exclusive c
unfolding asks_idle asks_ready drained has_cleared
asks-Exclusive idle = ground arith
asks-Exclusive (poll_size q) = ground arith
asks-Exclusive (lock q) = ground arith
asks-Exclusive (write_slot q) = ground arith
asks-Exclusive (bump_fill q) = ground arith
asks-Exclusive bump_front = ground arith
asks-Exclusive unlock = ground arith
asks-Exclusive (wake return) = ground arith
asks-Exclusive (wake empty_queue) = ground arith
asks-Exclusive (wake idle_answer) = ground arith
asks-Exclusive (wake ready_answer) = ground arith
asks-Exclusive (signal return) = ground arith
asks-Exclusive (signal empty_queue) = ground arith
asks-Exclusive (signal idle_answer) = ground arith
asks-Exclusive (signal ready_answer) = ground arith
asks-Exclusive await_empty = ground arith
asks-Exclusive await_stat = ground arith
asks-Exclusive lock_idle = ground arith
asks-Exclusive clear_idle = ground arith
asks-Exclusive ask_idle = ground arith
asks-Exclusive await_idle = ground arith
asks-Exclusive lock_ready = ground arith
asks-Exclusive clear_ready = ground arith
asks-Exclusive ask_ready = ground arith
asks-Exclusive await_ready = ground arith
asks-Exclusive ask_exit = ground arith

mover_step-Answers :
    (busy : Bool) (c : Client) (m : Mover) (s : Shared)
    → Ring c m s
    → Answers c m s
    → Answers c (mover_step busy m s).0 (mover_step busy m s).1
unfolding mover_step serves_idle found_idle serves_ready clears has_seen
mover_step-Answers busy c test_fill s r a = ground arith
mover_step-Answers busy c would_block s r a = ground arith
mover_step-Answers busy c issue s r a = ground (arith, asks-Exclusive c, r.work refl)
mover_step-Answers busy c bump_back s r a = ground arith
mover_step-Answers busy c drop_fill s r a = ground arith
mover_step-Answers busy c test_stat s r a = ground arith
mover_step-Answers busy c switch s r a = ground arith
mover_step-Answers busy c check_busy s r a = ground arith
mover_step-Answers busy c answer_idle s r a = ground (arith, asks-Exclusive c)
mover_step-Answers busy c answer_ready s r a = ground (arith, asks-Exclusive c)
mover_step-Answers busy c clear_stat s r a = ground (arith, asks-Exclusive c)
mover_step-Answers busy c sleep_fill s r a = ground arith
mover_step-Answers busy c sleep_stat s r a = ground arith
mover_step-Answers busy c enter_wfi s r a = ground arith
mover_step-Answers busy c wfi s r a = ground arith
mover_step-Answers busy c clear_interrupt s r a = ground arith
mover_step-Answers busy c leave_wfi s r a = ground arith
mover_step-Answers busy c exited s r a = ground arith

dma_step-Answers : (c : Client) (m : Mover) (s : Shared) → Answers c m s → Answers c m (dma_step s)
unfolding dma_step
dma_step-Answers c m s a = ground arith

begin-Answers :
    (b : Call) (c : Client) (m : Mover) (s : Shared) → Answers c m s → Answers (begin b c) m s
unfolding begin enter asks_idle asks_ready drained has_cleared
begin-Answers (memcpy_async q) idle m s a = ground arith
begin-Answers start idle m s a = ground arith
begin-Answers wait idle m s a = ground arith
begin-Answers wait_ready idle m s a = ground arith
begin-Answers exit idle m s a = ground arith
begin-Answers b (poll_size q) m s a = a
begin-Answers b (lock q) m s a = a
begin-Answers b (write_slot q) m s a = a
begin-Answers b (bump_fill q) m s a = a
begin-Answers b bump_front m s a = a
begin-Answers b unlock m s a = a
begin-Answers b (wake k) m s a = a
begin-Answers b (signal k) m s a = a
begin-Answers b await_empty m s a = a
begin-Answers b await_stat m s a = a
begin-Answers b lock_idle m s a = a
begin-Answers b clear_idle m s a = a
begin-Answers b ask_idle m s a = a
begin-Answers b await_idle m s a = a
begin-Answers b lock_ready m s a = a
begin-Answers b clear_ready m s a = a
begin-Answers b ask_ready m s a = a
begin-Answers b await_ready m s a = a
begin-Answers b ask_exit m s a = a

abbrev AnswersOf : System → Type 0
AnswersOf s = Answers s.client s.mover s.shared

run-AnswersOf :
    (schedule : List Actor) (s : System) → RingOf s → AnswersOf s → AnswersOf (run schedule s)
unfolding run step
run-AnswersOf [] s r a = a
run-AnswersOf (b ∷ schedule) s r a =
    run-AnswersOf schedule (step b s) (run-RingOf (b ∷ []) s r) (one b)
  where
    one : (b : Actor) → AnswersOf (step b s)
    one (calls k) = begin-Answers k s.client s.mover s.shared a
    one client = client_step-Answers s.client s.mover s.shared r a
    one (mover busy) = mover_step-Answers busy s.client s.mover s.shared r a
    one dma = dma_step-Answers s.client s.mover s.shared a

initial-AnswersOf : AnswersOf initial
unfolding asks_idle asks_ready drained has_cleared serves_idle found_idle serves_ready clears
initial-AnswersOf = ground arith

await_idle-Answers :
    (m : Mover) (s : Shared)
    → Answers await_idle m s
    → (client_step await_idle s).0 ≡ unlock
    → (s.takes ≡ s.puts) × (s.finished ≡ s.puts)
unfolding client_step asks_idle drained
await_idle-Answers m s a returns = elim (Bool-cases (s.stat_pvalid == 0)) [
  | inl e ↦ ground (arith, e, returns)
  | inr e ↦ ground (arith, a.empty refl, a.idle_answered refl, e)
]

-- After any schedule of one requesting core, the DM core and the DMA from the initial state, when
-- the core leaves the last loop of dm_wait, every transfer that it has requested has been started
-- and is finished.
pub wait_lem :
    (schedule : List Actor)
    → let s = run schedule initial in
      s.client ≡ await_idle
      → (client_step s.client s.shared).0 ≡ unlock
      → (s.shared.takes ≡ s.shared.puts) × (s.shared.finished ≡ s.shared.puts)
wait_lem schedule at returns =
    let s = run schedule initial in
    await_idle-Answers s.mover s.shared
      (subst (λ c. Answers c s.mover s.shared) at
        (run-AnswersOf schedule initial initial-RingOf initial-AnswersOf))
      (ap (λ c. (client_step c s.shared).0) (sym at) ∙ returns)
