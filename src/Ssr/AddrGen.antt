-- ===== src/Ssr/AddrGen.antt =====
-- hw/snitch_ssr/src/snitch_ssr_addr_gen.sv: the loop counters that produce the addresses of an affine
-- stream (no indirection). `IndexWidth` and `PointerWidth` of the hardware's configuration are the
-- moduli `index_mod` and `pointer_mod`; strides lose the bits below a 64-bit word.
use snitch_cluster_chips_it.Prelude.{
  ℕ, zero, suc, ◌+◌, ◌-◌, ◌%◌, ◌==◌, ◌||◌, ltb, Bool, true, false, if◌then◌else◌, List, [], ◌∷◌,
}
use snitch_cluster_chips_it.Ssr.{Regs, reg_bounds, reg_strides}

-- One loop: `bound_q[i]`, `stride_q[i]` and the counter `index_q[i]`.
pub record Loop : Type 0 where
  pub bound : ℕ
  pub stride : ℕ
  pub index : ℕ

-- What one handshake computes: the counters, the selected stride, and whether all loops were last.
pub record Tick : Type 0 where
  pub loops : List Loop
  pub stride : ℕ
  pub done : Bool

pub record Gen : Type 0 where
  pub loops : List Loop
  pub pointer : ℕ
  pub done : Bool

-- `loop_last[i]`: the counter is at its bound, or the stream does not use the loop.
unfoldable pub loop_last : (dims i : ℕ) → Loop → Bool
loop_last dims i l = l.index == l.bound || ltb dims i

-- The stride of the outermost enabled loop: that of this loop, if no further loop is enabled.
unfoldable pub outermost : Loop → List Loop → Tick → ℕ
outermost l [] t = l.stride
outermost l (m ∷ ms) t = t.stride

-- Loop `i` and those around it; it is enabled because all loops inside it are last.
unfoldable pub tick : (index_mod dims i : ℕ) → List Loop → Tick
unfolding loop_last outermost
tick index_mod dims i [] = record { loops = []; stride = 0; done = true }
tick index_mod dims i (l ∷ ls) =
    let t = tick index_mod dims (i + 1) ls in
    if loop_last dims i l
    then record {
      loops = record l { index = 0 } ∷ t.loops;
      stride = outermost l ls t;
      done = t.done;
    }
    else record {
      loops = record l { index = (l.index + 1) % index_mod } ∷ ls;
      stride = l.stride;
      done = false;
    }

module _ (index_mod pointer_mod : ℕ) where
  unfoldable pub step : (dims : ℕ) → Gen → Gen
  unfolding tick
  step dims g =
      let t = tick index_mod dims 0 g.loops in
      if g.done
      then g
      else record { loops = t.loops; pointer = (g.pointer + t.stride) % pointer_mod; done = t.done }

  -- The stride register keeps whole words only (`WordAddrMask`).
  unfoldable pub load : Regs → (dm i : ℕ) → Loop
  load regs dm i = record {
    bound = regs dm (reg_bounds + i) % index_mod;
    stride = (regs dm (reg_strides + i) - regs dm (reg_strides + i) % 8) % pointer_mod;
    index = 0;
  }

  -- A write to a pointer register starts a stream on the configured loops.
  unfoldable pub launch : Regs → (dm ptr : ℕ) → Gen
  unfolding load
  launch regs dm ptr = record {
    loops = load regs dm 0 ∷ load regs dm 1 ∷ load regs dm 2 ∷ load regs dm 3 ∷ [];
    pointer = ptr % pointer_mod;
    done = false;
  }

  -- After `n` handshakes.
  unfoldable pub after : (dims n : ℕ) → Gen → Gen
  after dims zero g = g
  after dims (suc n) g = step dims (after dims n g)
