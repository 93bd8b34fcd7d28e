-- ===== src/Tests/Start.antt =====
-- The start-up of cluster 1, with sections of 40 and 24 bytes in the thread-local storage and of 64 and 256
-- bytes in the cluster-local storage.
use snitch_cluster_chips_it.Prelude.{
  ◌+◌, ◌/◌, ◌%◌, ◌^◌, ◌==◌, ◌≡◌, inl, inr, [], ltb, if◌then◌else◌, refl, arith,
}
use snitch_cluster_chips_it.Team.{hart}
use snitch_cluster_chips_it.AllocV2.Heap.{stack_pointer}
use snitch_cluster_chips_it.Start.{thread_pointer, init_tls, init_cls}
use snitch_cluster_chips_it.Start.Tls.{Fits}
use snitch_cluster_chips_it.Start.Threads.{init_tls-threads}
use snitch_cluster_chips_it.Start.Cls.{cls_start, init_cls_lem}
use snitch_cluster_chips_it.Tests.System.{cfg, cfg-IsValid}
use snitch_cluster_chips_it.Tests.Memory.{cfg-HasRoom}
use snitch_cluster_chips_it.Tests.Transfers.{byte_engine, idle, memory}

sections-Fit : Fits cfg (thread_pointer 0x1001f000 8 40 24) 0x80000000 40 0x80000100 24
unfolding thread_pointer stack_pointer
sections-Fit = record {
  cores = omega arith;
  slot = omega arith;
  room = omega arith;
  tdata = omega arith;
  tbss = omega arith;
  apart = inl (omega arith);
}

tls_example :
    let (f', m') =
      init_tls byte_engine cfg
        (hart cfg 1 8)
        (thread_pointer 0x1001f000 8 40 24)
        0x80000000
        (0x80000000 + 40)
        0x80000100
        (0x80000100 + 24)
        idle
        memory in
    (f'.pending ≡ [])
    × (m' (thread_pointer 0x1001f000 3 40 24 + 17)
        ≡ (if ltb 17 40 then memory (0x80000000 + 17) else 0))
tls_example =
    init_tls-threads byte_engine cfg cfg-IsValid 1 0x1001f000 0x80000000 40 0x80000100 24 idle
      memory (omega arith) cfg-HasRoom sections-Fit refl 3 17 (omega arith) (omega arith)

cls_example :
    let (f', m') =
      init_cls byte_engine cfg
        (hart cfg 1 8)
        0x1005ee00
        0x80000200
        (0x80000200 + 64)
        0x80000300
        (0x80000300 + 256)
        idle
        memory in
    (f'.pending ≡ [])
    × (m' (0x1005ee00 + 1) ≡ cls_start cfg 1 64 256 / 256 ^ 1 % 256)
    × (m' (cls_start cfg 1 64 256 + 100) ≡ (
        if 8 + 1 == 9
        then (if ltb 100 64 then memory (0x80000200 + 100) else 0)
        else memory (cls_start cfg 1 64 256 + 100)))
    × (m' 0x10000000 ≡ memory 0x10000000)
cls_example =
    init_cls_lem byte_engine cfg cfg-IsValid 1 0x80000200 64 0x80000300 256 idle memory
      (omega arith) (omega arith) (omega arith) (omega arith) (omega arith) (inr (omega arith)) refl
      8 0x1005ee00 (omega arith) (inl (omega arith)) 100 1 0x10000000 (omega arith) (omega arith)
      (inl (omega arith)) (inl (omega arith))
