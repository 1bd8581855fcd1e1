-- ===== src/Examples/Loading.antt =====
-- The theorems on what loads and starts the system: boot/main.c at a disk with a small image,
-- region_alloc at the small machine, trap_init, and debuginfo_eip at a small symbol table.
use os2017_lab.Base.{
  ℕ, ◌+◌, ◌-◌, ◌*◌, ◌/◌, ◌%◌, ◌<◌, ◌≡◌, refl, ◌⊎◌, ◌↔◌, false, ◌==◌, if◌then◌else◌, arith,
}
use os2017_lab.Memlayout.{pgsize, rounddown, kstacktop}
use os2017_lab.Kernel.{Kernel, ok}
use os2017_lab.Pmap.View.{mmu_entry}
use os2017_lab.Pmap.Walk.{popped}
use os2017_lab.Pmap.Insert.{HasRoom, table_there}
use os2017_lab.Pmap.Mapping.{MapsTo}
use os2017_lab.Env.{gd_kt, region_alloc}
use os2017_lab.Trap.{t_brkpt, t_syscall}
use os2017_lab.Icode.Region.{region_perm, region_alloc_stops_short}
use os2017_lab.Descriptors.{
  Tables, initial_gdt, setgate, trap_init, sts_ig32, sts_t32a, gd_kd, sizeof_taskstate,
}
use os2017_lab.Descriptors.Fields.{base_of, limit_of, offset_of, trap_init_describes}
use os2017_lab.Kdebug.{
  Stab, stab_binsearch, search_rounds, round, last_of_type, compare_at, region_of, rightmost,
}
use os2017_lab.Kdebug.Debuginfo.{
  Symbols, named, returns, Answers, search, search_symbols, find_line, finish_info, file_entry,
  count_args, name_of, name_length, text_at, debuginfo_eip, debuginfo_eip-Answers,
}
use os2017_lab.Strings.Cstring.{strlen, strfind}
use os2017_lab.Examples.{small_mem, small, small-IsSpace, has_table_zero, entry_empty}
use os2017_lab.Elf.{Bytes}
use os2017_lab.Boot.{Disk, sectsize, enters_kernel, bootmain}
use os2017_lab.Boot.Bootmain.{Fits, AreOrdered, IsLoaded, bootmain_loads}

-- An ELF header whose only program header follows at byte 52: it loads 600 bytes from byte 4096 of
-- the image to address 0x100000, where the kernel begins.
abbrev small_image : ℕ → ℕ
small_image i =
    if i == 0
    then 0x7F
    else if i == 1
    then 0x45
    else if i == 2
    then 0x4C
    else if i == 3
    then 0x46
    else if i == 26
    then 0x10
    else if i == 28
    then 52
    else if i == 44
    then 1
    else if i == 57
    then 0x10
    else if i == 66
    then 0x10
    else if i == 72
    then 0x58
    else if i == 73
    then 2
    else 0

abbrev small_disk : Disk
small_disk sector byte = small_image ((sector - 1) * sectsize + byte)

abbrev no_memory : Bytes
no_memory a = 0

only_one : (j : ℕ) → j < 1 → j ≡ 0
only_one j low = omega arith

first-Fits : Fits small_disk 0
first-Fits = record {
  aligned = refl;
  behind = omega arith;
  in_memory = omega arith;
  on_disk = omega arith;
}

small_disk-Fits : (j : ℕ) → j < 1 → Fits small_disk j
small_disk-Fits j low = rw (only_one j low) first-Fits

small_disk-AreOrdered : AreOrdered small_disk 1
small_disk-AreOrdered j j' less low = absurd (omega arith)

bootmain_loads_example :
    (m' : Bytes) × (bootmain small_disk no_memory ≡ enters_kernel 0x100000 m')
    × ((j : ℕ) → j < 1 → IsLoaded small_disk m' j)
bootmain_loads_example =
    bootmain_loads small_disk no_memory refl (omega arith) small_disk-Fits small_disk-AreOrdered

room_there : HasRoom (popped 7 small) 2 (rounddown 0x2ff0 pgsize)
unfolding popped rounddown
room_there = table_there has_table_zero (omega (arith, entry_empty))

-- Thirty-two bytes over the end of a page.
region_alloc_stops_short_example :
    (k' : Kernel) × (region_alloc 0 0x2ff0 32 small ≡ ok tt k')
    × MapsTo small_mem k'.mem 2 7 (rounddown 0x2ff0 pgsize) region_perm
    × (mmu_entry k'.mem 2 0x300f ≡ mmu_entry small_mem 2 0x300f)
region_alloc_stops_short_example =
    region_alloc_stops_short small 0 0x2ff0 32 2 7 refl refl (omega arith) (omega arith)
      (omega arith) (omega arith) small-IsSpace room_there

abbrev entries : ℕ → ℕ
entries i = 0xf0100000 + i % 256 * 16

abbrev at_start : Tables
at_start = record {
  gdt = initial_gdt;
  idt = λ i. setgate false 0 0 0;
  ts = record { ts_esp0 = 0; ts_ss0 = 0; ts_iomb = 0 };
  task_register = 0;
  idt_loaded = false;
}

trap_init_describes_example :
    let t' = trap_init entries 0xf0200000 at_start in
    ((i : ℕ)
      → i < 256
      → (offset_of (t'.idt i) ≡ entries i)
        × ((t'.idt i).gd_sel ≡ gd_kt)
        × ((t'.idt i).gd_type ≡ sts_ig32)
        × ((t'.idt i).gd_s ≡ 0)
        × ((t'.idt i).gd_p ≡ 1)
        × (((t'.idt i).gd_dpl ≡ 3) ↔ ((i ≡ t_brkpt) ⊎ (i ≡ t_syscall))))
    × (base_of (t'.gdt (t'.task_register / 8)) ≡ 0xf0200000)
    × (limit_of (t'.gdt (t'.task_register / 8)) ≡ sizeof_taskstate - 1)
    × ((t'.gdt (t'.task_register / 8)).sd_type ≡ sts_t32a)
    × ((t'.gdt (t'.task_register / 8)).sd_s ≡ 0)
    × ((t'.gdt (t'.task_register / 8)).sd_dpl ≡ 0)
    × ((t'.gdt (t'.task_register / 8)).sd_p ≡ 1)
    × (t'.ts.ts_esp0 ≡ kstacktop)
    × (t'.ts.ts_ss0 ≡ gd_kd)
trap_init_describes_example =
    trap_init_describes entries 0xf0200000 at_start (λ i. omega arith) (omega arith)

-- A file from address 16 on with the function `f` there and one line at offset 4 of it.
abbrev program_stabs : ℕ → Stab
program_stabs i =
    if i == 1
    then record { n_strx = 1; n_type = 0x64; n_desc = 0; n_value = 16 }
    else if i == 2
    then record { n_strx = 5; n_type = 0x24; n_desc = 0; n_value = 16 }
    else if i == 3
    then record { n_strx = 0; n_type = 0x44; n_desc = 7; n_value = 4 }
    else record { n_strx = 0; n_type = 0; n_desc = 0; n_value = 0 }

-- The string table: an empty string, `f.c` and `f:F`.
abbrev program_str : ℕ → ℕ
program_str i =
    if i == 1
    then b'f'
    else if i == 2
    then b'.'
    else if i == 3
    then b'c'
    else if i == 5
    then b'f'
    else if i == 6
    then b':'
    else if i == 7
    then b'F'
    else 0

abbrev program : Symbols
program = record { stabs = program_stabs; count = 4; stabstr = program_str; size = 9 }

-- The instruction at address 22 is in line 7 of `f`.
debuginfo_test :
    debuginfo_eip program program 22
    ≡ returns 0 (record {
      eip_file = named 1;
      eip_line = 7;
      eip_fn_name = named 5;
      eip_fn_namelen = 1;
      eip_fn_addr = 16;
      eip_fn_narg = 0;
    })
unfolding debuginfo_eip search_symbols search find_line finish_info file_entry count_args name_of
    name_length text_at strlen strfind stab_binsearch search_rounds round last_of_type compare_at
    region_of rightmost
debuginfo_test = refl

debuginfo_eip-Answers_example : Answers (debuginfo_eip program program 22)
debuginfo_eip-Answers_example =
    debuginfo_eip-Answers program program 22 (λ i. ground arith) (λ i. ground arith)
