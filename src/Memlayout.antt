-- ===== src/Memlayout.antt =====
-- inc/mmu.h, inc/memlayout.h and inc/types.h: the constants of the virtual and physical memory
-- layout, the macros that take addresses apart, and rounding to a multiple of a size.
-- An address, a page table entry and a size are 32-bit words, held as numbers below 2 ^ 32.
pub mod Laws
use os2017_lab.Base.{ℕ, ◌+◌, ◌-◌, ◌*◌, ◌/◌, ◌%◌, ◌^◌, bit_or}

abbrev pub u32_mod : ℕ
u32_mod = 2 ^ 32

abbrev pub pgsize : ℕ
pgsize = 4096

abbrev pub nptentries : ℕ
nptentries = 1024

abbrev pub ptsize : ℕ
ptsize = pgsize * nptentries

-- Page table entry flags.
abbrev pub pte_p : ℕ
pte_p = 0x001

abbrev pub pte_w : ℕ
pte_w = 0x002

abbrev pub pte_u : ℕ
pte_u = 0x004

abbrev pub pte_avail : ℕ
pte_avail = 0xe00

abbrev pub pte_syscall : ℕ
pte_syscall = bit_or (bit_or (bit_or pte_avail pte_p) pte_w) pte_u

-- The virtual memory map.
abbrev pub kernbase : ℕ
kernbase = 0xf000_0000

abbrev pub iophysmem : ℕ
iophysmem = 0x0a_0000

abbrev pub extphysmem : ℕ
extphysmem = 0x10_0000

abbrev pub kstacktop : ℕ
kstacktop = kernbase

abbrev pub mmiolim : ℕ
mmiolim = kstacktop - ptsize

abbrev pub mmiobase : ℕ
mmiobase = mmiolim - ptsize

abbrev pub ulim : ℕ
ulim = mmiobase

abbrev pub uvpt : ℕ
uvpt = ulim - ptsize

abbrev pub upages : ℕ
upages = uvpt - ptsize

abbrev pub uenvs : ℕ
uenvs = upages - ptsize

abbrev pub utop : ℕ
utop = uenvs

abbrev pub uxstacktop : ℕ
uxstacktop = utop

abbrev pub ustacktop : ℕ
ustacktop = utop - 2 * pgsize

abbrev pub mpentry_paddr : ℕ
mpentry_paddr = 0x7000

-- PGNUM, PDX, PTX and PGOFF: the masks 0x3FF and 0xFFF are remainders.
abbrev pub pgnum : ℕ → ℕ
pgnum la = la / 2 ^ 12

abbrev pub pdx : ℕ → ℕ
pdx la = la / 2 ^ 22 % 2 ^ 10

abbrev pub ptx : ℕ → ℕ
ptx la = la / 2 ^ 12 % 2 ^ 10

abbrev pub pgoff : ℕ → ℕ
pgoff la = la % 2 ^ 12

-- PGADDR(d, t, o): shifts of a 32-bit word joined by `|`.
unfoldable pub pgaddr : ℕ → ℕ → ℕ → ℕ
pgaddr d t o = bit_or (bit_or (d * 2 ^ 22 % u32_mod) (t * 2 ^ 12 % u32_mod)) o

-- PTE_ADDR clears the low twelve bits.
abbrev pub pte_addr : ℕ → ℕ
pte_addr pte = pte / 2 ^ 12 * 2 ^ 12

unfoldable pub rounddown : ℕ → ℕ → ℕ
rounddown a n = a - a % n

-- The sum `a + n - 1` wraps around like the 32-bit sum of the macro.
unfoldable pub roundup : ℕ → ℕ → ℕ
unfolding rounddown
roundup a n = rounddown ((a + n + u32_mod - 1) % u32_mod) n
