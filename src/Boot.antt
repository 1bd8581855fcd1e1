-- ===== src/Boot.antt =====
-- boot/main.c: the boot loader, which reads the kernel's image from the disk into memory.
pub mod Readseg
pub mod Bootmain
use os2017_lab.Base.{
  ℕ, zero, suc, ◌+◌, ◌-◌, ◌*◌, ◌/◌, ◌%◌, ◌^◌, not, ◌&&◌, Option, none, some, bit_or, ltb, leb, ◌==◌,
  if◌then◌else◌,
}
use os2017_lab.Memlayout.{u32_mod}
use os2017_lab.Elf.{
  Bytes, elf_magic, e_magic, e_entry, e_phoff, e_phnum, sizeof_proghdr, p_offset, p_pa, p_memsz,
}

-- The disk: the bytes of each sector. Its controller is not part of the repository.
abbrev pub Disk : Type 0
Disk = ℕ → ℕ → ℕ

abbrev pub sectsize : ℕ
sectsize = 512

-- ELFHDR
abbrev pub elfhdr : ℕ
elfhdr = 0x10000

-- The sector that the writes to ports 0x1F3 to 0x1F6 select: 28 bits, of which the last port has
-- four.
unfoldable pub selected : ℕ → ℕ
selected offset =
    offset % 2 ^ 8
    + (offset / 2 ^ 8) % 2 ^ 8 * 2 ^ 8
    + (offset / 2 ^ 16) % 2 ^ 8 * 2 ^ 16
    + bit_or (offset / 2 ^ 24) 0xE0 % 2 ^ 4 * 2 ^ 24

-- The waits for the disk always end.
unfoldable pub readsect : Disk → (dst offset : ℕ) → Bytes → Bytes
unfolding selected
readsect disk dst offset m a =
    if leb dst a && ltb a (dst + sectsize) then disk (selected offset) (a - dst) else m a

-- The loop of readseg, for `rounds` sectors at most.
unfoldable pub read_sectors : Disk → (rounds pa end_pa offset : ℕ) → Bytes → Option Bytes
unfolding readsect
read_sectors disk zero pa end_pa offset m = none
read_sectors disk (suc rounds) pa end_pa offset m =
    let rest =
      read_sectors disk rounds ((pa + sectsize) % u32_mod) end_pa ((offset + 1) % u32_mod)
        (readsect disk pa offset m) in
    if ltb pa end_pa then rest else some m

-- `none` where the loop does not end within the sectors that `count` bytes touch.
unfoldable pub readseg : Disk → (pa count offset : ℕ) → Bytes → Option Bytes
unfolding read_sectors
readseg disk pa count offset m =
    read_sectors disk (suc (count / sectsize + 2)) (pa - pa % sectsize) ((pa + count) % u32_mod)
      (offset / sectsize + 1) m

-- How the boot loader ends: at the entry of the kernel, in its last loop, or out of fuel.
pub data BootRun : Type 0 where
  enters_kernel : ℕ → Bytes → BootRun
  spins : BootRun
  out_of_fuel : BootRun

-- The loop over the program headers, of which `n` are left. A segment may overwrite the headers.
unfoldable pub load_segments : Disk → (n ph : ℕ) → Bytes → BootRun
load_segments disk zero ph m = enters_kernel (e_entry m elfhdr) m
load_segments disk (suc n) ph m = elim (readseg disk (p_pa m ph) (p_memsz m ph) (p_offset m ph) m) [
  | none ↦ out_of_fuel
  | some m' ↦ load_segments disk n (ph + sizeof_proghdr) m'
]

unfoldable pub bootmain : Disk → Bytes → BootRun
bootmain disk m = elim (readseg disk elfhdr (sectsize * 8) 0 m) [
  | none ↦ out_of_fuel
  | some m' ↦
      if not (e_magic m' elfhdr == elf_magic)
      then spins
      else load_segments disk (e_phnum m' elfhdr) ((elfhdr + e_phoff m' elfhdr) % u32_mod) m'
]
