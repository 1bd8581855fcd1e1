-- ===== src/Descriptors.antt =====
-- The segment and gate descriptors of inc/mmu.h, the segment table of kern/env.c, and trap_init and
-- trap_init_percpu of kern/trap.c.
pub mod Fields
use os2017_lab.Base.{
  ℕ, zero, suc, ◌+◌, ◌-◌, ◌/◌, ◌%◌, ◌^◌, Bool, true, false, ◌||◌, bit_or, ◌==◌, if◌then◌else◌,
}
use os2017_lab.Base.Arrays.{update}
use os2017_lab.Memlayout.{u32_mod, kstacktop}
use os2017_lab.Env.{gd_kt, gd_ut, gd_ud}
use os2017_lab.Trap.{t_brkpt, t_syscall}

-- struct Segdesc, each bit field a number below its power of 2.
pub record Segdesc : Type 0 where
  pub sd_lim_15_0 : ℕ
  pub sd_base_15_0 : ℕ
  pub sd_base_23_16 : ℕ
  pub sd_type : ℕ
  pub sd_s : ℕ
  pub sd_dpl : ℕ
  pub sd_p : ℕ
  pub sd_lim_19_16 : ℕ
  pub sd_avl : ℕ
  pub sd_rsv1 : ℕ
  pub sd_db : ℕ
  pub sd_g : ℕ
  pub sd_base_31_24 : ℕ

abbrev pub seg_null : Segdesc
seg_null = record {
  sd_lim_15_0 = 0;
  sd_base_15_0 = 0;
  sd_base_23_16 = 0;
  sd_type = 0;
  sd_s = 0;
  sd_dpl = 0;
  sd_p = 0;
  sd_lim_19_16 = 0;
  sd_avl = 0;
  sd_rsv1 = 0;
  sd_db = 0;
  sd_g = 0;
  sd_base_31_24 = 0;
}

-- SEG, for 32-bit `base` and `lim`.
unfoldable pub seg : (type base lim dpl : ℕ) → Segdesc
seg type base lim dpl = record {
  sd_lim_15_0 = lim / 2 ^ 12 % 2 ^ 16;
  sd_base_15_0 = base % 2 ^ 16;
  sd_base_23_16 = base / 2 ^ 16 % 2 ^ 8;
  sd_type = type % 2 ^ 4;
  sd_s = 1;
  sd_dpl = dpl % 2 ^ 2;
  sd_p = 1;
  sd_lim_19_16 = lim / 2 ^ 28 % 2 ^ 4;
  sd_avl = 0;
  sd_rsv1 = 0;
  sd_db = 1;
  sd_g = 1;
  sd_base_31_24 = base / 2 ^ 24 % 2 ^ 8;
}

unfoldable pub seg16 : (type base lim dpl : ℕ) → Segdesc
seg16 type base lim dpl = record {
  sd_lim_15_0 = lim % 2 ^ 16;
  sd_base_15_0 = base % 2 ^ 16;
  sd_base_23_16 = base / 2 ^ 16 % 2 ^ 8;
  sd_type = type % 2 ^ 4;
  sd_s = 1;
  sd_dpl = dpl % 2 ^ 2;
  sd_p = 1;
  sd_lim_19_16 = lim / 2 ^ 16 % 2 ^ 4;
  sd_avl = 0;
  sd_rsv1 = 0;
  sd_db = 1;
  sd_g = 0;
  sd_base_31_24 = base / 2 ^ 24 % 2 ^ 8;
}

-- STA_X | STA_R
abbrev pub code_type : ℕ
code_type = 0xA

-- STA_W
abbrev pub data_type : ℕ
data_type = 0x2

abbrev pub sts_t32a : ℕ
sts_t32a = 0x9

abbrev pub sts_ig32 : ℕ
sts_ig32 = 0xE

abbrev pub sts_tg32 : ℕ
sts_tg32 = 0xF

abbrev pub gd_kd : ℕ
gd_kd = 0x10

abbrev pub gd_tss0 : ℕ
gd_tss0 = 0x28

-- gdt as kern/env.c initializes it.
unfoldable pub initial_gdt : ℕ → Segdesc
unfolding seg
initial_gdt i =
    if i == gd_kt / 8
    then seg code_type 0 0xffffffff 0
    else if i == gd_kd / 8
    then seg data_type 0 0xffffffff 0
    else if i == gd_ut / 8
    then seg code_type 0 0xffffffff 3
    else if i == gd_ud / 8
    then seg data_type 0 0xffffffff 3
    else seg_null

pub record Gatedesc : Type 0 where
  pub gd_off_15_0 : ℕ
  pub gd_sel : ℕ
  pub gd_args : ℕ
  pub gd_rsv1 : ℕ
  pub gd_type : ℕ
  pub gd_s : ℕ
  pub gd_dpl : ℕ
  pub gd_p : ℕ
  pub gd_off_31_16 : ℕ

-- SETGATE
unfoldable pub setgate : (istrap : Bool) (sel off dpl : ℕ) → Gatedesc
setgate istrap sel off dpl = record {
  gd_off_15_0 = off % 2 ^ 16;
  gd_sel = sel % 2 ^ 16;
  gd_args = 0;
  gd_rsv1 = 0;
  gd_type = if istrap then sts_tg32 else sts_ig32;
  gd_s = 0;
  gd_dpl = dpl % 2 ^ 2;
  gd_p = 1;
  gd_off_31_16 = off / 2 ^ 16 % 2 ^ 16;
}

-- The fields of struct Taskstate that the kernel sets.
pub record Taskstate : Type 0 where
  pub ts_esp0 : ℕ
  pub ts_ss0 : ℕ
  pub ts_iomb : ℕ

abbrev pub sizeof_taskstate : ℕ
sizeof_taskstate = 104

-- The tables, the one task state, and what the processor has loaded: the task register and whether
-- the descriptor table is in use.
pub record Tables : Type 0 where
  pub gdt : ℕ → Segdesc
  pub idt : ℕ → Gatedesc
  pub ts : Taskstate
  pub task_register : ℕ
  pub idt_loaded : Bool

-- `ts_base` is the address of `ts`.
unfoldable pub trap_init_percpu : (ts_base : ℕ) → Tables → Tables
unfolding seg16
trap_init_percpu ts_base t = record t {
  ts = record { ts_esp0 = kstacktop; ts_ss0 = gd_kd; ts_iomb = sizeof_taskstate };
  gdt =
      update t.gdt (gd_tss0 / 8)
        (record (seg16 sts_t32a ts_base (sizeof_taskstate - 1) 0) { sd_s = 0 });
  task_register = gd_tss0;
  idt_loaded = true;
}

-- The gate for trap `i`, whose entry point is at `off`.
unfoldable pub gate_for : (i off : ℕ) → Gatedesc
unfolding setgate
gate_for i off =
    if (i == t_brkpt) || (i == t_syscall)
    then setgate false gd_kt off 3
    else setgate false gd_kt off 0

-- The loop of trap_init, with `n` gates left from `i` on.
unfoldable pub set_gates : (idt_entries : ℕ → ℕ) (n i : ℕ) → (ℕ → Gatedesc) → ℕ → Gatedesc
unfolding gate_for
set_gates idt_entries zero i idt = idt
set_gates idt_entries (suc n) i idt =
    set_gates idt_entries n (i + 1) (update idt i (gate_for i (idt_entries i)))

-- `idt_entries` is the table of kern/trapentry.S.
unfoldable pub trap_init : (idt_entries : ℕ → ℕ) (ts_base : ℕ) → Tables → Tables
unfolding trap_init_percpu
trap_init idt_entries ts_base t =
    trap_init_percpu ts_base (record t { idt = set_gates idt_entries 256 0 t.idt })
