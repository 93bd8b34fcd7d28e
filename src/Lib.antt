-- ===== src/Lib.antt =====
-- The runtime of the Snitch cluster (sw/runtime), the C library that every program on the cluster's
-- RISC-V cores is linked with. A system has clusters of compute cores and one data mover (DM) core
-- each, which share a scratchpad memory (TCDM, L1) per cluster and a global memory (L3).
--
-- How the parts interact: every part asks team.h which core calls. The allocators hand out L1 and L3
-- memory below the stacks that start.S lays out. A DM core moves tiles between L3 and L1 with the DMA
-- (dma.h), the compute cores stream operands from L1 with the stream registers (ssr.h), mutexes and
-- barriers order them (sync.h). The OpenMP layer has the compute cores run parallel regions through the
-- event unit (omp/eu.h), deals out the iterations of loops (omp/kmp.c), and has the DM core serve
-- requests for transfers (dm.h). The kernels (sw/kernels) run on all compute cores of a cluster.
--
-- Which file models which part (paths below sw/runtime/src unless they begin elsewhere):
--   Prelude     tests, machine words, updated functions, counting and arithmetic that the parts share
--   Team        team.h; the constants generated from sw/runtime/impl/snitch_cluster_cfg.h.tpl are the
--               record Config, the register mhartid is an argument
--   Alloc       alloc.h: snrt_align_up, the first allocator (alloc, update_next, alloc_init),
--               in Alloc/Init from its initialisation on
--   AllocV2     alloc_v2.h and snrt_cls_base_addr of start.h: checked allocation, one variable per
--               compute core, pointer translation; AllocV2/Heap has the stack pointers of start.S,
--               AllocV2/Stacks what keeps the heap from the stacks, AllocV2/Remote what relates the
--               heaps of two clusters
--   Ssr         ssr.h: the functions write a map from registers to words; Ssr/AddrGen has the loop
--               counters of hw/snitch_ssr/src/snitch_ssr_addr_gen.sv that the registers drive
--   Dma         dma.h: a front-end with the operands set by the dm* instructions and the transfers
--               issued; Dma/Tiles and Dma/Banks have the tile functions, Dma/Memset snrt_dma_memset,
--               Dma/Pending the same while transfers are pending
--   Sync        sync.h: the mutex, one instruction at a time; Sync/Barrier has snrt_partial_barrier,
--               one access to a shared variable at a time; Sync/Reduction has the tree of
--               snrt_global_reduction_dma, level by level, for one element of the buffers;
--               Sync/Clusters has snrt_inter_cluster_barrier with snrt_wake_clusters, one access at
--               a time; Sync/AllToAll has snrt_global_all_to_all_reduction
--   Dm          dm.h: the loop of the DM core and one core that requests transfers, one access to
--               the shared struct at a time; Dm/Ring and Dm/Serve have what holds of the ring,
--               Dm/Answers what holds of the requests for an answer
--   Start       start.c and start.S: what the DM core initialises before main, in Start/Copies and
--               Start/Clears the loops over the cores of snrt_init_tls; the symbols of the linker are
--               arguments, and so is the address of _cls_ptr, a thread-local word of the calling core
--   Console     sw/runtime/impl/putchar.c: the buffer of a hart
--   Omp         omp/kmp.c: __kmpc_for_static_init_4 and _4u; Omp/Microtask has __microtask_wrapper and
--               the arguments that __kmpc_fork_call stores, in the 12 words of kmpc_args and the word
--               behind, where omp_init puts the size of the team;
--               Omp/Events has the event unit of omp/eu.h with parallelRegion of omp/omp.h and the
--               bootstrap of omp/omp.c, one access to the shared struct or an interrupt at a time;
--               Omp/Events/Modes says what the workers do while core 0 is at a given place
--   Kernels     sw/kernels/blas, on elements of an abstract number type. Kernels/Axpy has the kernels of
--               axpy/src/axpy.h for a core; Axpy/Job has axpy_job, whose buffers Job/Layout lays out, and
--               whose iterations load (Job/Load), compute (Job/Compute) and store (Job/Store) a tile
--               each. Kernels/Gemv has gemv/src/gemv.h, whose two streams Gemv/Streams follows and whose
--               rows Gemv/Shares deals to the cores. Kernels/Gemm has the reference kernel of
--               gemm/src/gemm_fp64.h, the contract of a kernel (Gemm/Naive), sc_st_gemm of
--               gemm/src/gemm.h, which deals the rows of a tile to the cores (Gemm/RowMajor has the two
--               together, in plain addresses), and in Gemm/Buffers the addresses that
--               allocate_buffers gives the tiles
--   Tests       the theorems at concrete inputs
--
-- Functions keep their names without the prefix snrt_ (dma_, ssr_ and the suffix _v2 are dropped too
-- where the module says it). A word is a native number; each operation wraps as in the source: 32 bits
-- for pointers, sizes and uint32_t, 64 bits for the fields of an allocator. Signed words are in two's
-- complement. A failed bounds check, which executes ecall, is a value.
--
-- What is taken as given: the DMA engine executes issued transfers in order, and one transfer copies
-- bytes between equal or separate ranges (the record Dma.Engine.Engine, a parameter). The mutex, the
-- barrier, the DM core and the event unit run under sequential consistency. The streams of axpy_opt may
-- fetch each operand any number of stores before the instruction that takes it; those of gemv,
-- whose result is apart from the operands, read in the order of the instructions. In axpy_job the compute cores take their turn of an
-- iteration before, between or after the transfers of the DM core, which stand for all interleavings
-- as far as the two touch different buffers. Loops are structural, on a counter or a schedule:
-- spinning loops are single steps of a schedule of any length. Only the loop of the axpy kernels runs
-- on fuel, the number of elements, which is enough because the index grows in each iteration.
--
-- Not modelled: the creation of communicators, multicast interrupts and the hardware barriers of
-- sync.h, the variants of dm.h and eu.h that wake cores by the global interrupt controller, omp_init,
-- the wake-up and the barriers of start.c, the DMA's tracking instructions and waiting for one
-- transfer, the iterations of gemm over tiles and clusters, its optimised kernels, and the wrappers of
-- single instructions. Third-party code (printf), the kernels other than axpy, gemv and gemm, tests,
-- the hardware beyond the stream registers' loop counters, and the scripts are outside the
-- development.
pub mod Prelude
pub mod Team
pub mod Alloc
pub mod AllocV2
pub mod Ssr
pub mod Dma
pub mod Sync
pub mod Dm
pub mod Kernels
pub mod Console
pub mod Omp
mod Tests
pub mod Start
