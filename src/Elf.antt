-- ===== src/Elf.antt =====
-- inc/elf.h: the fields of an ELF image in memory. A field is read from the bytes, the low byte
-- first.
use os2017_lab.Base.{ℕ, ◌+◌, ◌*◌, ◌^◌}

abbrev pub Bytes : Type 0
Bytes = ℕ → ℕ

abbrev pub u16_at : Bytes → ℕ → ℕ
u16_at m a = m a + m (a + 1) * 2 ^ 8

abbrev pub u32_at : Bytes → ℕ → ℕ
u32_at m a = m a + m (a + 1) * 2 ^ 8 + m (a + 2) * 2 ^ 16 + m (a + 3) * 2 ^ 24

abbrev pub elf_magic : ℕ
elf_magic = 0x464C457F

abbrev pub elf_prog_load : ℕ
elf_prog_load = 1

-- The fields of `struct Elf` that the loaders use, of a header at address `h`.
abbrev pub e_magic : Bytes → ℕ → ℕ
e_magic m h = u32_at m h

abbrev pub e_entry : Bytes → ℕ → ℕ
e_entry m h = u32_at m (h + 24)

abbrev pub e_phoff : Bytes → ℕ → ℕ
e_phoff m h = u32_at m (h + 28)

abbrev pub e_phnum : Bytes → ℕ → ℕ
e_phnum m h = u16_at m (h + 44)

-- The fields of `struct Proghdr`, of a program header at address `ph`.
abbrev pub sizeof_proghdr : ℕ
sizeof_proghdr = 32

abbrev pub p_type : Bytes → ℕ → ℕ
p_type m ph = u32_at m ph

abbrev pub p_offset : Bytes → ℕ → ℕ
p_offset m ph = u32_at m (ph + 4)

abbrev pub p_va : Bytes → ℕ → ℕ
p_va m ph = u32_at m (ph + 8)

abbrev pub p_pa : Bytes → ℕ → ℕ
p_pa m ph = u32_at m (ph + 12)

abbrev pub p_filesz : Bytes → ℕ → ℕ
p_filesz m ph = u32_at m (ph + 16)

abbrev pub p_memsz : Bytes → ℕ → ℕ
p_memsz m ph = u32_at m (ph + 20)
