-- ===== src/Dm/Serve.antt =====
-- The steps of the DM core and of the DMA keep the ring as it should be.
use snitch_cluster_chips_it.Prelude.{
  ℕ, suc, ◌+◌, ◌-◌, ◌%◌, ◌≤◌, ◌<◌, ◌≡◌, inl, inr, ◌^◌, Bool, true, false, ◌==◌, if◌then◌else◌,
  replace, replace-same, replace-other, add32, refl, sym, ap, ◌∙◌, arith, Bool-cases, true-false,
  List, [], ◌∷◌,
}
use native.Mathlib.Decide.{ℕ_discrete}
use snitch_cluster_chips_it.Dm.{
  Call, memcpy_async, start, wait, wait_ready, exit, poll_size, lock, write_slot, bump_fill,
  bump_front, unlock, wake, signal, await_empty, await_stat, lock_idle, clear_idle, ask_idle,
  await_idle, lock_ready, clear_ready, ask_ready, await_ready, ask_exit, Command, command, Shared,
  Client, Mover, test_fill, would_block, issue, bump_back, drop_fill, test_stat, switch, check_busy,
  answer_idle, answer_ready, clear_stat, sleep_fill, sleep_stat, enter_wfi, wfi, clear_interrupt,
  leave_wfi, exited, stat_wait_idle, stat_exit, stat_ready, mover_step, dma_step, idle, enter,
  begin, Actor, calls, client, mover, dma, System, step, run, initial,
}
use snitch_cluster_chips_it.Dm.Ring.{
  Ring, owed, back_lag, has_seen, front_lag, HasRoom, HasRoom-less, next_client, client_step-Ring,
}

-- A step of the DM core that leaves the ring alone.
next_mover :
    {c : Client} {m n : Mover} {s : Shared}
    → Ring c m s
    → owed n ≡ owed m
    → back_lag n ≡ back_lag m
    → (has_seen n ≡ true → s.takes < s.puts)
    → Ring c n s
next_mover {s = s} r e l h = record {
  ordered = r.ordered;
  filled = r.filled ∙ ap (λ o. s.puts + o) (sym e);
  bounded = r.bounded;
  back = (ap (λ o. (s.queue_back + o) % 4) l ∙ r.back.0, r.back.1);
  front = r.front;
  room = r.room;
  work = h;
  slots = r.slots;
  prefix = r.prefix;
  past = r.past;
}

-- One that owes nothing and has seen nothing.
plain_mover :
    {c : Client} {m n : Mover} {s : Shared}
    → Ring c m s
    → owed n ≡ owed m
    → back_lag n ≡ back_lag m
    → has_seen n ≡ false
    → Ring c n s
plain_mover r e l h = next_mover r e l (λ q. absurd (true-false (sym q ∙ h)))

grows : (a b : ℕ) → (a == b) ≡ false → a ≤ b → suc a ≤ b
grows a b e h = ground arith

not-zero : (n : ℕ) → (n == 0) ≡ false → 0 < n
not-zero n h = ground arith

either :
    {c : Client} {s : Shared} {m n : Mover} (b : Bool)
    → Ring c m s
    → Ring c n s
    → Ring c (if b then m else n) s
either true r q = r
either false r q = q

issue-Ring :
    (busy : Bool) (c : Client) (s : Shared)
    → Ring c issue s
    → Ring c bump_back (mover_step busy issue s).1
unfolding mover_step owed back_lag has_seen
issue-Ring busy c s r = record {
  ordered = omega (arith, r.work refl);
  filled = omega (arith, r.filled);
  bounded = r.bounded;
  back = omega (arith, r.back);
  front = r.front;
  room = r.room;
  work = λ e. absurd (true-false (sym e));
  slots = λ k a b. r.slots k (omega (arith, a)) b;
  prefix = λ k a. elim (ℕ_discrete k s.takes) [
    | yes e ↦
        ap (λ i. replace s.takes new s.issued i) e
        ∙ replace-same s.takes new s.issued
        ∙ ap (λ i. command (s.queue i)) at
        ∙ r.slots s.takes (omega arith) (r.work refl)
        ∙ sym (ap s.requested e)
    | no d ↦ replace-other s.takes k new s.issued d ∙ r.prefix k (omega (arith, a, d))
  ];
  past = omega (arith, r.past);
}
  where
    new : Command
    new = command (s.queue s.queue_back)

    at : s.queue_back ≡ s.takes % 4
    at = omega (arith, r.back)

mover_step-Ring :
    (busy : Bool) (c : Client) (m : Mover) (s : Shared)
    → Ring c m s
    → Ring c (mover_step busy m s).0 (mover_step busy m s).1
unfolding mover_step owed back_lag has_seen
mover_step-Ring busy c test_fill s r = elim (Bool-cases (s.queue_fill == 0)) [
  | inl e ↦ rw e (plain_mover r refl refl refl)
  | inr e ↦ rw e (next_mover r refl refl (λ q. omega (arith, r.filled, not-zero s.queue_fill e)))
]
mover_step-Ring true c would_block s r = r
mover_step-Ring false c would_block s r = next_mover r refl refl (λ q. r.work refl)
mover_step-Ring busy c issue s r = issue-Ring busy c s r
mover_step-Ring busy c bump_back s r = record {
  ordered = r.ordered;
  filled = r.filled;
  bounded = r.bounded;
  back = omega (arith, r.back);
  front = r.front;
  room = r.room;
  work = λ e. absurd (true-false (sym e));
  slots = r.slots;
  prefix = r.prefix;
  past = r.past;
}
mover_step-Ring busy c drop_fill s r = record {
  ordered = r.ordered;
  filled = omega (arith, r.filled, r.ordered, r.bounded);
  bounded = omega (arith, r.filled, r.ordered, r.bounded);
  back = r.back;
  front = r.front;
  room =
      HasRoom-less c s.queue_fill (add32 s.queue_fill (2 ^ 32 - 1)) s.puts s.queue
        (omega (arith, r.filled, r.ordered, r.bounded)) r.room;
  work = λ e. absurd (true-false (sym e));
  slots = r.slots;
  prefix = r.prefix;
  past = r.past;
}
mover_step-Ring busy c test_stat s r =
    either (s.stat_q == 0) (plain_mover r refl refl refl) (plain_mover r refl refl refl)
mover_step-Ring busy c switch s r =
    either (s.stat_q == stat_wait_idle) (plain_mover r refl refl refl) (
      either (s.stat_q == stat_exit) (plain_mover r refl refl refl) (
        either (s.stat_q == stat_ready) (plain_mover r refl refl refl)
          (plain_mover r refl refl refl)))
mover_step-Ring busy c check_busy s r =
    either (s.finished == s.takes) (plain_mover r refl refl refl) (plain_mover r refl refl refl)
mover_step-Ring busy c answer_idle s r = ground arith
mover_step-Ring busy c answer_ready s r = ground arith
mover_step-Ring busy c clear_stat s r = ground arith
mover_step-Ring busy c sleep_fill s r =
    either (s.queue_fill == 0) (plain_mover r refl refl refl) (plain_mover r refl refl refl)
mover_step-Ring busy c sleep_stat s r =
    either (s.stat_q == 0) (plain_mover r refl refl refl) (plain_mover r refl refl refl)
mover_step-Ring busy c enter_wfi s r = ground arith
mover_step-Ring busy c wfi s r =
    either s.interrupt (plain_mover r refl refl refl) (plain_mover r refl refl refl)
mover_step-Ring busy c clear_interrupt s r = ground arith
mover_step-Ring busy c leave_wfi s r = ground arith
mover_step-Ring busy c exited s r = r

dma_step-Ring : (c : Client) (m : Mover) (s : Shared) → Ring c m s → Ring c m (dma_step s)
unfolding dma_step
dma_step-Ring c m s r = elim (Bool-cases (s.finished == s.takes)) [
  | inl e ↦ rw e r
  | inr e ↦ rw e (record {
    ordered = r.ordered;
    filled = r.filled;
    bounded = r.bounded;
    back = r.back;
    front = r.front;
    room = r.room;
    work = r.work;
    slots = r.slots;
    prefix = r.prefix;
    past = grows s.finished s.takes e r.past;
  })
]

begin-Ring : (a : Call) (c : Client) (m : Mover) (s : Shared) → Ring c m s → Ring (begin a c) m s
unfolding begin enter front_lag HasRoom
begin-Ring (memcpy_async q) idle m s r = next_client r refl tt
begin-Ring start idle m s r = next_client r refl tt
begin-Ring wait idle m s r = next_client r refl tt
begin-Ring wait_ready idle m s r = next_client r refl tt
begin-Ring exit idle m s r = next_client r refl tt
begin-Ring b (poll_size q) m s r = r
begin-Ring b (lock q) m s r = r
begin-Ring b (write_slot q) m s r = r
begin-Ring b (bump_fill q) m s r = r
begin-Ring b bump_front m s r = r
begin-Ring b unlock m s r = r
begin-Ring b (wake a) m s r = r
begin-Ring b (signal a) m s r = r
begin-Ring b await_empty m s r = r
begin-Ring b await_stat m s r = r
begin-Ring b lock_idle m s r = r
begin-Ring b clear_idle m s r = r
begin-Ring b ask_idle m s r = r
begin-Ring b await_idle m s r = r
begin-Ring b lock_ready m s r = r
begin-Ring b clear_ready m s r = r
begin-Ring b ask_ready m s r = r
begin-Ring b await_ready m s r = r
begin-Ring b ask_exit m s r = r

abbrev pub RingOf : System → Type 0
RingOf s = Ring s.client s.mover s.shared

pub run-RingOf : (schedule : List Actor) (s : System) → RingOf s → RingOf (run schedule s)
unfolding run step
run-RingOf [] s r = r
run-RingOf (calls a ∷ schedule) s r =
    run-RingOf schedule _ (begin-Ring a s.client s.mover s.shared r)
run-RingOf (client ∷ schedule) s r =
    run-RingOf schedule _ (client_step-Ring s.client s.mover s.shared r)
run-RingOf (mover busy ∷ schedule) s r =
    run-RingOf schedule _ (mover_step-Ring busy s.client s.mover s.shared r)
run-RingOf (dma ∷ schedule) s r = run-RingOf schedule _ (dma_step-Ring s.client s.mover s.shared r)

pub initial-RingOf : RingOf initial
unfolding owed back_lag front_lag has_seen HasRoom
initial-RingOf = record {
  ordered = omega arith;
  filled = refl;
  bounded = omega arith;
  back = (refl, omega arith);
  front = (refl, omega arith);
  room = tt;
  work = λ e. absurd (true-false (sym e));
  slots = λ k a b. absurd (omega arith);
  prefix = λ k a. absurd (omega arith);
  past = omega arith;
}

-- After any schedule of one requesting core, the DM core and the DMA from the initial state, the
-- commands that the DM core has started are the requested ones in the order of the requests, no
-- more than were requested and at most four fewer, and the ring never counts more than four
-- requests.
pub ring_refines_queue :
    (schedule : List Actor)
    → let s = (run schedule initial).shared in
      ((k : ℕ) → k < s.takes → s.issued k ≡ s.requested k)
      × (s.takes ≤ s.puts)
      × (s.puts ≤ s.takes + 4)
      × (s.queue_fill ≤ 4)
ring_refines_queue schedule =
    let r = run-RingOf schedule initial initial-RingOf in
    (r.prefix, r.ordered, omega (arith, r.filled, r.bounded), r.bounded)
