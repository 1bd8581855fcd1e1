-- ===== src/Descriptors/Fields.antt =====
-- What the descriptors of inc/mmu.h and kern/trap.c tell the processor.
use os2017_lab.Base.{
  ℕ, zero, suc, ◌+◌, ◌-◌, ◌*◌, ◌/◌, ◌^◌, ◌<◌, ◌≡◌, ◌⊎◌, ◌↔◌, refl, ◌∙◌, inl, inr, ◌||◌, ◌&&◌, leb,
  ltb, ◌==◌, if◌then◌else◌, arith, Bool-cases,
}
use os2017_lab.Base.Arrays.{update}
use os2017_lab.Memlayout.{u32_mod, pgsize, kstacktop}
use os2017_lab.Env.{gd_kt}
use os2017_lab.Trap.{t_brkpt, t_syscall}
use os2017_lab.Descriptors.{
  Segdesc, seg, seg16, Gatedesc, setgate, gate_for, set_gates, Tables, trap_init_percpu, trap_init,
  sts_ig32, sts_t32a, gd_kd, sizeof_taskstate,
}

-- The base that the processor reads in a segment descriptor.
abbrev pub base_of : Segdesc → ℕ
base_of d = d.sd_base_15_0 + d.sd_base_23_16 * 2 ^ 16 + d.sd_base_31_24 * 2 ^ 24

-- The last offset in the segment: with the granularity bit, the limit counts pages.
abbrev pub limit_of : Segdesc → ℕ
limit_of d =
    let lim = d.sd_lim_15_0 + d.sd_lim_19_16 * 2 ^ 16 in
    if d.sd_g == 1 then lim * pgsize + (pgsize - 1) else lim

abbrev pub offset_of : Gatedesc → ℕ
offset_of g = g.gd_off_15_0 + g.gd_off_31_16 * 2 ^ 16

-- For a 32-bit base and limit, a type of four bits and a level of two, SEG has the processor read
-- that base, type and level, and the limit rounded up to the end of its page.
pub seg_describes :
    (type base lim dpl : ℕ)
    → type < 2 ^ 4
    → base < u32_mod
    → lim < u32_mod
    → dpl < 2 ^ 2
    → (base_of (seg type base lim dpl) ≡ base)
      × (limit_of (seg type base lim dpl) ≡ lim / pgsize * pgsize + (pgsize - 1))
      × ((seg type base lim dpl).sd_type ≡ type)
      × ((seg type base lim dpl).sd_dpl ≡ dpl)
unfolding seg
seg_describes type base lim dpl ht hb hl hd = (omega arith, omega arith, omega arith, omega arith)

set_gates_at :
    (idt_entries : ℕ → ℕ) (n i : ℕ) (idt : ℕ → Gatedesc) (j : ℕ)
    → set_gates idt_entries n i idt j
      ≡ (if leb i j && ltb j (i + n) then gate_for j (idt_entries j) else idt j)
unfolding set_gates
set_gates_at idt_entries zero i idt j = ground arith
set_gates_at idt_entries (suc n) i idt j =
    set_gates_at idt_entries n (i + 1) (update idt i (gate_for i (idt_entries i))) j ∙ ground arith

gate_for_describes :
    (i off : ℕ)
    → off < u32_mod
    → (offset_of (gate_for i off) ≡ off)
      × ((gate_for i off).gd_sel ≡ gd_kt)
      × ((gate_for i off).gd_type ≡ sts_ig32)
      × ((gate_for i off).gd_s ≡ 0)
      × ((gate_for i off).gd_p ≡ 1)
      × (((gate_for i off).gd_dpl ≡ 3) ↔ ((i ≡ t_brkpt) ⊎ (i ≡ t_syscall)))
unfolding gate_for setgate
gate_for_describes i off small = elim (Bool-cases ((i == t_brkpt) || (i == t_syscall))) [
  | inl open' ↦
      rw open' (omega arith, refl, refl, refl, refl, (λ h. ground (arith, open'), λ h. refl))
  | inr closed ↦ rw closed (
    omega arith,
    refl,
    refl,
    refl,
    refl,
    (λ h. absurd (omega arith), λ h. absurd (ground (arith, closed))),
  )
]

-- For entry points that are 32-bit addresses and a 32-bit address of the task state: after trap_init
-- each of the 256 gates is present, a system descriptor of the type of interrupt gates, and leads to
-- the entry point of its trap in the kernel's code segment; user programs may invoke only those for
-- breakpoints and system calls. The task register selects a present system descriptor of level 0
-- and of the type of an available 32-bit task state, with the given address and 104 bytes, and the
-- stack for traps from user mode begins at KSTACKTOP in the kernel's data segment.
pub trap_init_describes :
    (idt_entries : ℕ → ℕ) (ts_base : ℕ) (t : Tables)
    → ((i : ℕ) → idt_entries i < u32_mod)
    → ts_base < u32_mod
    → let t' = trap_init idt_entries ts_base t in
      ((i : ℕ)
        → i < 256
        → (offset_of (t'.idt i) ≡ idt_entries i)
          × ((t'.idt i).gd_sel ≡ gd_kt)
          × ((t'.idt i).gd_type ≡ sts_ig32)
          × ((t'.idt i).gd_s ≡ 0)
          × ((t'.idt i).gd_p ≡ 1)
          × (((t'.idt i).gd_dpl ≡ 3) ↔ ((i ≡ t_brkpt) ⊎ (i ≡ t_syscall))))
      × (base_of (t'.gdt (t'.task_register / 8)) ≡ ts_base)
      × (limit_of (t'.gdt (t'.task_register / 8)) ≡ sizeof_taskstate - 1)
      × ((t'.gdt (t'.task_register / 8)).sd_type ≡ sts_t32a)
      × ((t'.gdt (t'.task_register / 8)).sd_s ≡ 0)
      × ((t'.gdt (t'.task_register / 8)).sd_dpl ≡ 0)
      × ((t'.gdt (t'.task_register / 8)).sd_p ≡ 1)
      × (t'.ts.ts_esp0 ≡ kstacktop)
      × (t'.ts.ts_ss0 ≡ gd_kd)
unfolding trap_init trap_init_percpu seg16
trap_init_describes idt_entries ts_base t small base = (
  λ i low.
      let here : set_gates idt_entries 256 0 t.idt i ≡ gate_for i (idt_entries i) =
        set_gates_at idt_entries 256 0 t.idt i ∙ ground arith in
      rw here (gate_for_describes i (idt_entries i) (small i)),
  omega arith,
  refl,
  refl,
  refl,
  refl,
  refl,
  refl,
  refl,
)
