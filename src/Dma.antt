-- ===== src/Dma.antt =====
-- sw/runtime/src/dma.h: programming the DMA. A core's DMA front-end holds the operands that the
-- `dm*` instructions set, and the transfers that `dmcpyi` has issued and that are not known to be
-- finished, oldest first. Addresses are 64 bits wide, sizes and strides 32. The transfer identifier
-- that `dmcpyi` returns comes from the hardware and is not modelled.
pub mod Tiles
pub mod Engine
pub mod Memset
pub mod Copy2d
pub mod TileLaws
pub mod Banks
pub mod Pending
use snitch_cluster_chips_it.Prelude.{
  ℕ, ◌+◌, ◌*◌, ◌/◌, ◌%◌, ◌^◌, Bool, true, false, if◌then◌else◌, ◌==◌, add32, mul32, add64, List, [],
  ◌∷◌, ◌++◌,
}

pub record Transfer : Type 0 where
  pub dst : ℕ
  pub src : ℕ
  pub size : ℕ
  pub dst_stride : ℕ
  pub src_stride : ℕ
  pub repeat : ℕ
  pub channel : ℕ
  pub mask : ℕ

pub record Frontend : Type 0 where
  pub dst : ℕ
  pub src : ℕ
  pub dst_stride : ℕ
  pub src_stride : ℕ
  pub repeat : ℕ
  pub user : ℕ
  pub pending : List Transfer

-- The instructions. An address arrives as its two 32-bit halves.
unfoldable pub dmsrc : (lo hi : ℕ) → Frontend → Frontend
dmsrc lo hi f = record f { src = hi * 2 ^ 32 + lo }

unfoldable pub dmdst : (lo hi : ℕ) → Frontend → Frontend
dmdst lo hi f = record f { dst = hi * 2 ^ 32 + lo }

unfoldable pub dmstr : (src_stride dst_stride : ℕ) → Frontend → Frontend
dmstr src_stride dst_stride f = record f { src_stride = src_stride; dst_stride = dst_stride }

unfoldable pub dmrep : ℕ → Frontend → Frontend
dmrep repeat f = record f { repeat = repeat }

unfoldable pub dmuser : ℕ → Frontend → Frontend
dmuser mask f = record f { user = mask }

-- Bit 1 of the immediate selects a 2D transfer, the bits above it the channel.
unfoldable pub dmcpyi : (size cfg : ℕ) → Frontend → Frontend
dmcpyi size cfg f =
    let twod = cfg / 2 % 2 == 1 in
    record f {
      pending =
          f.pending
          ++ (record {
            dst = f.dst;
            src = f.src;
            size = size;
            dst_stride = if twod then f.dst_stride else 0;
            src_stride = if twod then f.src_stride else 0;
            repeat = if twod then f.repeat else 1;
            channel = cfg / 4;
            mask = f.user;
          }
              ∷ []);
    }

-- `snrt_dma_start_1d`: the address is split as the code splits it.
unfoldable pub start_1d : (dst src size channel : ℕ) → Frontend → Frontend
unfolding dmsrc dmdst dmcpyi
start_1d dst src size channel f =
    let f = dmsrc (src % 2 ^ 32) (src / 2 ^ 32) f in
    let f = dmdst (dst % 2 ^ 32) (dst / 2 ^ 32) f in dmcpyi size (channel * 4) f

unfoldable pub enable_mcast : (mask : ℕ) → Frontend → Frontend
unfolding dmuser
enable_mcast mask = dmuser mask

unfoldable pub disable_mcast : Frontend → Frontend
unfolding dmuser
disable_mcast = dmuser 0

unfoldable pub start_1d_mcast : (dst src size mask channel : ℕ) → Frontend → Frontend
unfolding enable_mcast disable_mcast start_1d
start_1d_mcast dst src size mask channel f =
    disable_mcast (start_1d dst src size channel (enable_mcast mask f))

unfoldable pub start_2d :
    (dst src size dst_stride src_stride repeat channel : ℕ) → Frontend → Frontend
unfolding dmsrc dmdst dmstr dmrep dmcpyi
start_2d dst src size dst_stride src_stride repeat channel f =
    let f = dmsrc (src % 2 ^ 32) (src / 2 ^ 32) f in
    let f = dmdst (dst % 2 ^ 32) (dst / 2 ^ 32) f in
    let f = dmstr src_stride dst_stride f in
    let f = dmrep repeat f in dmcpyi size (channel * 4 + 2) f

unfoldable pub start_2d_mcast :
    (dst src size dst_stride src_stride repeat mask channel : ℕ) → Frontend → Frontend
unfolding enable_mcast disable_mcast start_2d
start_2d_mcast dst src size dst_stride src_stride repeat mask channel f =
    disable_mcast (start_2d dst src size dst_stride src_stride repeat channel (enable_mcast mask f))
