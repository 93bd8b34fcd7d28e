-- ===== src/Tests/Movers.antt =====
-- The data mover core at a schedule that copies a block and waits for it.
use snitch_cluster_chips_it.Prelude.{ℕ, zero, suc, ◌+◌, ◌≤◌, ◌<◌, ◌≡◌, refl, false, List, [], ◌∷◌}
use snitch_cluster_chips_it.Dm.{
  memcpy, memcpy_async, wait, client_step, mover_step, Actor, calls, client, mover, dma, step, run,
  initial,
}
use snitch_cluster_chips_it.Dm.Serve.{ring_refines_queue}
use snitch_cluster_chips_it.Dm.Answers.{wait_lem}

unfoldable times : ℕ → Actor → List Actor → List Actor
times zero a rest = rest
times (suc n) a rest = a ∷ times n a rest

-- One core requests a copy and waits for it; the DM core serves it, sleeps and is woken twice.
abbrev copy_and_wait : List Actor
copy_and_wait =
    calls (memcpy_async (memcpy 0x2000 0x1000 64))
    ∷ times 6 client (
        times 9 (mover false) (
          calls wait
          ∷ times 2 client
              (times 8 (mover false) (times 7 client (dma ∷ times 8 (mover false) [])))))

ring_example :
    let s = (run copy_and_wait initial).shared in
    ((k : ℕ) → k < s.takes → s.issued k ≡ s.requested k)
    × (s.takes ≤ s.puts)
    × (s.puts ≤ s.takes + 4)
    × (s.queue_fill ≤ 4)
ring_example = ring_refines_queue copy_and_wait

copy_taken : (run copy_and_wait initial).shared.takes ≡ 1
unfolding times run step client_step mover_step
copy_taken = refl

wait_example :
    let s = (run copy_and_wait initial).shared in (s.takes ≡ s.puts) × (s.finished ≡ s.puts)
unfolding times run step client_step mover_step
wait_example = wait_lem copy_and_wait refl refl
