-- ===== src/Icode.antt =====
-- load_icode and env_create of kern/env.c: a program's first environment, from the ELF image that is
-- linked into the kernel. The image is a function from offsets to bytes.
pub mod Region
use os2017_lab.Base.{ℕ, zero, suc, ◌+◌, ◌-◌, ◌%◌, not, Option, none, some, ltb, ◌==◌, if◌then◌else◌}
use os2017_lab.Memlayout.{u32_mod, pgsize, ustacktop}
use os2017_lab.Kernel.{
  EnvType, Env, Kernel, Cmd, kernel_panic, null_pointer, ok, and_then, pure, stop, ◌>>=◌, ◌>>◌, get,
  modify, deref,
}
use os2017_lab.Env.{is_negative, set_env, env_alloc, region_alloc}
use os2017_lab.Trap.{write_byte}
use os2017_lab.Elf.{
  Bytes, elf_magic, elf_prog_load, e_magic, e_entry, e_phoff, e_phnum, sizeof_proghdr, p_type,
  p_offset, p_va, p_filesz, p_memsz,
}

-- The stores of memmove and memset to user addresses from `va` on: `n` bytes, of which byte `i` is
-- `from i`. A store that faults stops the kernel.
unfoldable pub store_bytes : (n va : ℕ) → (ℕ → ℕ) → Cmd (Unit {0})
store_bytes zero va from = pure tt
store_bytes (suc n) va from = do
  write_byte va (from 0)
  store_bytes n ((va + 1) % u32_mod) (λ i. from (i + 1))

-- One loadable segment, with the program header at offset `ph`.
unfoldable pub load_segment : (e : ℕ) → Bytes → (ph : ℕ) → Cmd (Unit {0})
unfolding store_bytes
load_segment e binary ph =
    if ltb (p_memsz binary ph) (p_filesz binary ph) then stop kernel_panic else do
      region_alloc e (p_va binary ph) (p_memsz binary ph)
      store_bytes (p_filesz binary ph) (p_va binary ph) (λ i. binary (p_offset binary ph + i))
      store_bytes (p_memsz binary ph - p_filesz binary ph)
          ((p_va binary ph + p_filesz binary ph) % u32_mod) (λ i. 0)

-- The loop over the program headers, with `n` left.
unfoldable pub load_headers : (e : ℕ) → Bytes → (n ph : ℕ) → Cmd (Unit {0})
unfolding load_segment
load_headers e binary zero ph = pure tt
load_headers e binary (suc n) ph = do
  if p_type binary ph == elf_prog_load then load_segment e binary ph else pure tt
  load_headers e binary n (ph + sizeof_proghdr)

-- PADDR stops the kernel at a page directory that is not there.
unfoldable pub load_icode : (e : ℕ) → Bytes → Cmd (Unit {0})
unfolding load_headers
load_icode e binary = if not (e_magic binary 0 == elf_magic) then stop kernel_panic else do
  k ← get
  elim (k.envs e).env_pgdir [
    | none ↦ stop kernel_panic
    | some pgdir ↦ do
      modify (λ s. record s { cr3 = pgdir })
      load_headers e binary (e_phnum binary 0) (e_phoff binary 0)
      modify (λ s. record s { cr3 = s.kern_pgdir })
      modify (λ s.
          set_env e
            (record (s.envs e) {
              env_tf = record ((s.envs e).env_tf) { tf_eip = e_entry binary 0 };
            })
            s)
      region_alloc e (ustacktop - pgsize) pgsize
  ]

unfoldable pub env_create : Bytes → EnvType → Cmd (Unit {0})
unfolding load_icode
env_create binary type = do
  (ret, newenv) ← env_alloc 0
  if is_negative ret then stop kernel_panic else do
    e ← deref newenv
    load_icode e binary
    modify (λ s. set_env e (record (s.envs e) { env_type = type }) s)
