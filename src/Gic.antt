-- ===== src/Gic.antt =====
-- drivers/gic.c: the version of the interrupt controller and the accesses to its registers. The registers of an
-- interrupt's number are in Irq.
pub mod Version
mod Tests
use arcline.Base.{
  ℕ, zero, suc, ◌+◌, ◌-◌, ◌*◌, ◌%◌, ◌^◌, Bool, true, false, not, ◌&&◌, ◌==◌, if◌then◌else◌, Array,
  List, [], ◌∷◌, ◌++◌, Option, none, some, add64, add32, codes,
}
use arcline.Dtb.{◌>>=◌, Fdt, header, token, name_len, begins, is_text, begin_node, end_node, prop}

-- `x & ~3`
abbrev pub down4 : ℕ → ℕ
down4 x = x - x % 4

-- The property that gives the version: its name and its value.
unfoldable pub is_gicv3 : Array ℕ → ℕ → ℕ → Bool
unfolding begins
is_gicv3 m pname compat =
    is_text m pname (codes "compatible") && begins m compat (codes "arm,gic-v3")

-- The loop of `gic_detect_version`: its rounds, the bound on the length of a name, and `p`.
unfoldable pub detect_loop : ℕ → ℕ → Array ℕ → Fdt → ℕ → Option ℕ
unfolding token name_len is_gicv3
detect_loop zero k m h p = none
detect_loop (suc n) k m h p =
    let t = token m h p in
    let entered =
      name_len k 0 (add64 h.fdt (add32 p 4)) m
      >>= (λ len. detect_loop n k m h (down4 (add32 (add32 p 4) (len + 4)))) in
    let passed = detect_loop n k m h (down4 (add32 (add32 p 12) (token m h (add32 p 4) + 3))) in
    let left = detect_loop n k m h (add32 p 4) in
    if t == begin_node
    then entered
    else if t == prop
    then (if is_gicv3 m (add64 h.strings (token m h (add32 p 8))) (add64 h.fdt (add32 p 12))
        then some 3
        else passed)
    else if t == end_node
    then left
    else some 2

unfoldable pub detect_version : ℕ → ℕ → Array ℕ → ℕ → Option ℕ
unfolding header detect_loop
detect_version n k m dtb =
    let h = header m dtb in
    let walked = detect_loop n k m h h.off_struct in if dtb == 0 then some 2 else walked

-- The static variables.
pub record Gic : Type 0 where
  pub gicd_base : ℕ
  pub gicc_base : ℕ
  pub version : ℕ

-- What the device and the processor are told: a register of the device by its address, the system registers
-- ICC_PMR_EL1, ICC_IGRPEN1_EL1 and ICC_EOIR1_EL1, and the unmasking of interrupts.
pub data Access : Type 0 where
  write : (address value : ℕ) → Access
  icc_pmr : ℕ → Access
  icc_igrpen1 : ℕ → Access
  icc_eoir1 : ℕ → Access
  unmask : Access

-- `gicd_write` and `gicc_write`
abbrev pub gicd_write : Gic → ℕ → ℕ → Access
gicd_write g offset val = write (g.gicd_base + offset) val

abbrev pub gicc_write : Gic → ℕ → ℕ → Access
gicc_write g offset val = write (g.gicc_base + offset) val

-- `for (i = 0; i < 32; i++) gicd_write(GICD_ICENABLER + i * 4, 0xFFFFFFFF)`: the rounds left and `i`.
unfoldable pub disable_loop : ℕ → ℕ → Gic → List Access
disable_loop zero i g = []
disable_loop (suc k) i g = gicd_write g (0x180 + i * 4) 0xFFFFFFFF ∷ disable_loop k (i + 1) g

unfoldable pub init_v3 : Gic → Gic × List Access
init_v3 g =
    let g1 = record g { gicd_base = 0x08000000 } in
    (g1, gicd_write g1 0 0 ∷ gicd_write g1 0 0x37 ∷ icc_pmr 0xFF ∷ icc_igrpen1 1 ∷ unmask ∷ [])

unfoldable pub init_v2 : Gic → Gic × List Access
unfolding disable_loop
init_v2 g =
    let g1 = record g { gicd_base = 0x08000000; gicc_base = 0x08010000 } in
    (
      g1,
      (gicd_write g1 0 0 ∷ disable_loop 32 0 g1)
          ++ (gicd_write g1 0 1 ∷ gicc_write g1 4 0xFF ∷ gicc_write g1 0 1 ∷ unmask ∷ []),
    )

-- `gic_init`: the static variables and the accesses in their order.
unfoldable pub init : ℕ → ℕ → Array ℕ → ℕ → Gic → Option (Gic × List Access)
unfolding detect_version init_v3 init_v2
init n k m dtb g =
    detect_version n k m dtb
    >>= (λ v. let g1 = record g { version = v } in some (if v == 3 then init_v3 g1 else init_v2 g1))

-- `gic_ack_irq`; `iar1` is ICC_IAR1_EL1, and `read` gives the registers of the device.
unfoldable pub ack_irq : ℕ → (ℕ → ℕ) → Gic → ℕ
ack_irq iar1 read g = if g.version == 3 then iar1 else read (g.gicc_base + 0xC)

unfoldable pub eoi_irq : ℕ → Gic → Access
eoi_irq irq g = if g.version == 3 then icc_eoir1 irq else gicc_write g 0x10 irq
