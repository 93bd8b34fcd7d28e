-- ===== src/Dm/Ring.antt =====
-- What holds of the ring between two steps.
use snitch_cluster_chips_it.Prelude.{
  ℕ, ◌+◌, ◌%◌, ◌≤◌, ◌<◌, ◌≡◌, inl, inr, Bool, true, false, ◌==◌, replace, replace-same,
  replace-other, refl, sym, ap, ◌∙◌, arith, Bool-cases, leb, leb→lt,
}
use native.Mathlib.Decide.{ℕ_discrete}
use snitch_cluster_chips_it.Dm.{
  Task, Request, memcpy, memcpy_2d, insert, wanted, command, Shared, return, empty_queue,
  idle_answer, ready_answer, Client, idle, poll_size, lock, write_slot, bump_fill, bump_front,
  unlock, wake, signal, await_empty, await_stat, lock_idle, clear_idle, ask_idle, await_idle,
  lock_ready, clear_ready, ask_ready, await_ready, ask_exit, Mover, would_block, issue, bump_back,
  drop_fill, woken, queue_size, client_step,
}

-- The DM core has started a command that it still counts in the ring.
unfoldable pub owed : Mover → ℕ
owed bump_back = 1
owed drop_fill = 1
owed _ = 0

-- The pointers that lag behind the counts.
unfoldable pub back_lag : Mover → ℕ
back_lag bump_back = 1
back_lag _ = 0

unfoldable pub front_lag : Client → ℕ
front_lag bump_front = 1
front_lag _ = 0

-- The core has seen room in the ring.
unfoldable pub HasRoom : Client → (fill puts : ℕ) → (queue : ℕ → Task) → Type 0
HasRoom (lock r) fill puts queue = fill < 4
HasRoom (write_slot r) fill puts queue = fill < 4
HasRoom (bump_fill r) fill puts queue = (fill < 4) × (command (queue (puts % 4)) ≡ wanted r)
HasRoom _ fill puts queue = Unit

-- The DM core has seen a request.
unfoldable pub has_seen : Mover → Bool
has_seen would_block = true
has_seen issue = true
has_seen _ = false

pub record Ring (c : Client) (m : Mover) (s : Shared) : Type 0 where
  pub ordered : s.takes ≤ s.puts
  pub filled : s.queue_fill + s.takes ≡ s.puts + owed m
  pub bounded : s.queue_fill ≤ 4
  pub back : ((s.queue_back + back_lag m) % 4 ≡ s.takes % 4) × (s.queue_back < 4)
  pub front : ((s.queue_front + front_lag c) % 4 ≡ s.puts % 4) × (s.queue_front < 4)
  pub room : HasRoom c s.queue_fill s.puts s.queue
  pub work : has_seen m ≡ true → s.takes < s.puts
  pub slots : (k : ℕ) → s.takes ≤ k → k < s.puts → command (s.queue (k % 4)) ≡ s.requested k
  pub prefix : (k : ℕ) → k < s.takes → s.issued k ≡ s.requested k
  pub past : s.finished ≤ s.takes

-- Room does not shrink when the DM core takes a request out.
pub HasRoom-less :
    (c : Client) (fill less puts : ℕ) (queue : ℕ → Task)
    → less ≤ fill
    → HasRoom c fill puts queue
    → HasRoom c less puts queue
unfolding HasRoom
HasRoom-less (lock r) fill less puts queue le h = omega (arith, le, h)
HasRoom-less (write_slot r) fill less puts queue le h = omega (arith, le, h)
HasRoom-less (bump_fill r) fill less puts queue le h = (omega (arith, le, h.0), h.1)
HasRoom-less idle fill less puts queue le h = tt
HasRoom-less (poll_size r) fill less puts queue le h = tt
HasRoom-less bump_front fill less puts queue le h = tt
HasRoom-less unlock fill less puts queue le h = tt
HasRoom-less (wake a) fill less puts queue le h = tt
HasRoom-less (signal a) fill less puts queue le h = tt
HasRoom-less await_empty fill less puts queue le h = tt
HasRoom-less await_stat fill less puts queue le h = tt
HasRoom-less lock_idle fill less puts queue le h = tt
HasRoom-less clear_idle fill less puts queue le h = tt
HasRoom-less ask_idle fill less puts queue le h = tt
HasRoom-less await_idle fill less puts queue le h = tt
HasRoom-less lock_ready fill less puts queue le h = tt
HasRoom-less clear_ready fill less puts queue le h = tt
HasRoom-less ask_ready fill less puts queue le h = tt
HasRoom-less await_ready fill less puts queue le h = tt
HasRoom-less ask_exit fill less puts queue le h = tt

command-insert : (r : Request) (t : Task) → command (insert r t) ≡ wanted r
unfolding command insert wanted
command-insert (memcpy dest src n) t = refl
command-insert (memcpy_2d src dst size sstrd dstrd nreps cfg) t = refl

pub next_client :
    {c d : Client} {m : Mover} {s : Shared}
    → Ring c m s
    → front_lag d ≡ front_lag c
    → HasRoom d s.queue_fill s.puts s.queue
    → Ring d m s
next_client {s = s} r e h = record {
  ordered = r.ordered;
  filled = r.filled;
  bounded = r.bounded;
  back = r.back;
  front = (ap (λ l. (s.queue_front + l) % 4) e ∙ r.front.0, r.front.1);
  room = h;
  work = r.work;
  slots = r.slots;
  prefix = r.prefix;
  past = r.past;
}

write_slot-Ring :
    (q : Request) (m : Mover) (s : Shared)
    → Ring (write_slot q) m s
    → Ring (bump_fill q) m (client_step (write_slot q) s).1
unfolding client_step HasRoom front_lag
write_slot-Ring q m s r = record {
  ordered = r.ordered;
  filled = r.filled;
  bounded = r.bounded;
  back = r.back;
  front = r.front;
  room = (
    r.room,
    ap (λ i. command (replace s.queue_front new s.queue i)) (sym at)
        ∙ ap command (replace-same s.queue_front new s.queue)
        ∙ command-insert q (s.queue s.queue_front),
  );
  work = r.work;
  slots = λ k a b.
      ap command (replace-other s.queue_front (k % 4) new s.queue (other k a b)) ∙ r.slots k a b;
  prefix = r.prefix;
  past = r.past;
}
  where
    new : Task
    new = insert q (s.queue s.queue_front)

    at : s.queue_front ≡ s.puts % 4
    at = omega (arith, r.front)

    other : (k : ℕ) → s.takes ≤ k → k < s.puts → ¬ (k % 4 ≡ s.queue_front)
    other k a b e = omega (arith, r.filled, r.room, at)

bump_fill-Ring :
    (q : Request) (m : Mover) (s : Shared)
    → Ring (bump_fill q) m s
    → Ring bump_front m (client_step (bump_fill q) s).1
unfolding client_step HasRoom front_lag
bump_fill-Ring q m s r = record {
  ordered = omega (arith, r.ordered);
  filled = omega (arith, r.filled, r.room.0);
  bounded = omega (arith, r.room.0);
  back = r.back;
  front = omega (arith, r.front);
  room = tt;
  work = λ e. omega (arith, r.work e);
  slots = λ k a b. elim (ℕ_discrete k s.puts) [
    | yes e ↦
        ap (λ i. command (s.queue (i % 4))) e
        ∙ r.room.1
        ∙ sym (
            ap (λ i. replace s.puts (wanted q) s.requested i) e
            ∙ replace-same s.puts (wanted q) s.requested)
    | no d ↦
        r.slots k a (omega (arith, b, d)) ∙ sym (replace-other s.puts k (wanted q) s.requested d)
  ];
  prefix = λ k a.
      r.prefix k a
      ∙ sym (
          replace-other s.puts k (wanted q) s.requested
            (λ e. absurd (omega (arith, e, a, r.ordered))));
  past = r.past;
}

bump_front-Ring :
    (m : Mover) (s : Shared) → Ring bump_front m s → Ring unlock m (client_step bump_front s).1
unfolding client_step HasRoom front_lag
bump_front-Ring m s r = record {
  ordered = r.ordered;
  filled = r.filled;
  bounded = r.bounded;
  back = r.back;
  front = omega (arith, r.front);
  room = tt;
  work = r.work;
  slots = r.slots;
  prefix = r.prefix;
  past = r.past;
}

pub client_step-Ring :
    (c : Client) (m : Mover) (s : Shared)
    → Ring c m s
    → Ring (client_step c s).0 m (client_step c s).1
unfolding client_step woken HasRoom front_lag
client_step-Ring idle m s r = r
client_step-Ring (poll_size q) m s r = elim (Bool-cases (leb queue_size s.queue_fill)) [
  | inl e ↦ rw e r
  | inr e ↦ rw e (next_client r refl (leb→lt queue_size s.queue_fill e))
]
client_step-Ring (lock q) m s r = elim (Bool-cases (s.mutex == 0)) [
  | inl e ↦ rw e (ground arith)
  | inr e ↦ rw e (ground arith)
]
client_step-Ring (write_slot q) m s r = write_slot-Ring q m s r
client_step-Ring (bump_fill q) m s r = bump_fill-Ring q m s r
client_step-Ring bump_front m s r = bump_front-Ring m s r
client_step-Ring unlock m s r = ground arith
client_step-Ring (wake a) m s r = ground arith
client_step-Ring (signal return) m s r = ground arith
client_step-Ring (signal empty_queue) m s r = ground arith
client_step-Ring (signal idle_answer) m s r = ground arith
client_step-Ring (signal ready_answer) m s r = ground arith
client_step-Ring await_empty m s r = ground arith
client_step-Ring await_stat m s r = ground arith
client_step-Ring lock_idle m s r = ground arith
client_step-Ring clear_idle m s r = ground arith
client_step-Ring ask_idle m s r = ground arith
client_step-Ring await_idle m s r = ground arith
client_step-Ring lock_ready m s r = ground arith
client_step-Ring clear_ready m s r = ground arith
client_step-Ring ask_ready m s r = ground arith
client_step-Ring await_ready m s r = ground arith
client_step-Ring ask_exit m s r = ground arith
