-- ===== src/Mpconfig.antt =====
-- kern/mpconfig.c: the search for the tables of a multiprocessor, over the bytes of physical
-- memory, and the processors that they list. What the messages say and the ports at the end of
-- mp_init are not modelled.
pub mod Tables
use os2017_lab.Base.{
  ℕ, zero, suc, ◌+◌, ◌-◌, ◌*◌, ◌/◌, ◌%◌, ◌^◌, Bool, true, false, not, ◌&&◌, ◌||◌, Option, none,
  some, List, [], ◌∷◌, ltb, leb, ◌==◌, if◌then◌else◌, has_bits,
}
use os2017_lab.Base.Arrays.{update}
use os2017_lab.Memlayout.{u32_mod, kernbase, pgnum}
use os2017_lab.Kernel.{CpuStatus, cpu_started}
use os2017_lab.Strings.{Bytes}

abbrev pub ncpu_max : ℕ
ncpu_max = 8

abbrev pub read16 : Bytes → ℕ → ℕ
read16 m a = m a + m (a + 1) * 2 ^ 8

abbrev pub read32 : Bytes → ℕ → ℕ
read32 m a = read16 m a + read16 m (a + 2) * 2 ^ 16

-- struct mp and struct mpconf, by the addresses of their fields.
abbrev pub mp_physaddr : ℕ → ℕ
mp_physaddr mp = mp + 4

abbrev pub mp_type : ℕ → ℕ
mp_type mp = mp + 11

abbrev pub conf_length : ℕ → ℕ
conf_length conf = conf + 4

abbrev pub conf_version : ℕ → ℕ
conf_version conf = conf + 6

abbrev pub conf_entry : ℕ → ℕ
conf_entry conf = conf + 34

abbrev pub conf_lapicaddr : ℕ → ℕ
conf_lapicaddr conf = conf + 36

abbrev pub conf_xlength : ℕ → ℕ
conf_xlength conf = conf + 40

abbrev pub conf_xchecksum : ℕ → ℕ
conf_xchecksum conf = conf + 42

abbrev pub conf_entries : ℕ → ℕ
conf_entries conf = conf + 44

-- The int that sum adds up; at most 65535 bytes do not overflow it.
unfoldable pub total : Bytes → (a len : ℕ) → ℕ
total m a zero = 0
total m a (suc len) = m a + total m (a + 1) len

abbrev pub sum : Bytes → (a len : ℕ) → ℕ
sum m a len = total m a len % 2 ^ 8

-- `memcmp(p, text, ...) == 0`
unfoldable pub has_text : Bytes → ℕ → List ℕ → Bool
has_text m a [] = true
has_text m a (c ∷ text) = let rest = has_text m (a + 1) text in (m a == c) && rest

abbrev pub mp_signature : List ℕ
mp_signature = b'_' ∷ b'M' ∷ b'P' ∷ b'_' ∷ []

abbrev pub conf_signature : List ℕ
conf_signature = b'P' ∷ b'C' ∷ b'M' ∷ b'P' ∷ []

-- A pointer, NULL, or a panic of KADDR.
pub data Found : Type 0 where
  at : ℕ → Found
  null : Found
  panics : Found

-- The condition of mpsearch1.
abbrev pub is_mp : Bytes → ℕ → Bool
is_mp m mp = has_text m mp mp_signature && (sum m mp 16 == 0)

-- The loop of mpsearch1, for a number of structures, by the physical addresses of the pointers.
unfoldable pub search_from : Bytes → (rounds mp : ℕ) → Found
unfolding has_text total
search_from m zero mp = null
search_from m (suc rounds) mp =
    let rest = search_from m rounds (mp + 16) in if is_mp m mp then at mp else rest

-- Whether KADDR accepts an address.
abbrev pub in_memory : (npages pa : ℕ) → Bool
in_memory npages pa = ltb (pgnum pa) npages

-- The pointer that KADDR gives.
abbrev pub virtual : ℕ → ℕ
virtual pa = (pa + kernbase) % u32_mod

-- `mp < end` holds for each structure that begins below `end`.
unfoldable pub mpsearch1 : Bytes → (npages a len : ℕ) → Found
unfolding search_from
mpsearch1 m npages a len =
    let end' = (a + len) % u32_mod in
    if in_memory npages a && in_memory npages end'
    then search_from m ((virtual end' - virtual a + 15) / 16) a
    else panics

abbrev pub or_else : Found → Found → Found
or_else null f = f
or_else (at a) f = at a
or_else panics f = panics

unfoldable pub mpsearch : Bytes → (npages : ℕ) → Found
unfolding mpsearch1
mpsearch m npages =
    let ebda = read16 m (0x400 + 0x0e) in
    let base = read16 m (0x400 + 0x13) * 1024 in
    let rom = mpsearch1 m npages 0xf0000 0x10000 in
    if not (in_memory npages 0x400)
    then panics
    else if not (ebda == 0)
    then or_else (mpsearch1 m npages (ebda * 16) 1024) rom
    else or_else (mpsearch1 m npages ((base + u32_mod - 1024) % u32_mod) 1024) rom

-- The checks of mpconfig on a table.
unfoldable pub good_conf : Bytes → ℕ → Bool
good_conf m conf =
    let length = read16 m (conf_length conf) in
    has_text m conf conf_signature
    && (sum m conf length == 0)
    && ((m (conf_version conf) == 1) || (m (conf_version conf) == 4))
    && ((sum m (conf + length) (read16 m (conf_xlength conf)) + m (conf_xchecksum conf)) % 2 ^ 8
        == 0)

-- The address of the table.
unfoldable pub mpconfig : Bytes → (npages : ℕ) → Found
unfolding mpsearch good_conf
mpconfig m npages = elim (mpsearch m npages) [
  | null ↦ null
  | panics ↦ panics
  | at mp ↦
      let conf = read32 m (mp_physaddr mp) in
      if (conf == 0) || not (m (mp_type mp) == 0)
      then null
      else if not (in_memory npages conf)
      then panics
      else if good_conf m conf
      then at conf
      else null
]

-- The variables that mp_init sets; `bootcpu` is the index in `cpus`.
pub record Cpus : Type 0 where
  pub ncpu : ℕ
  pub cpu_id : ℕ → ℕ
  pub cpu_status : ℕ → CpuStatus
  pub bootcpu : ℕ
  pub ismp : Bool
  pub lapicaddr : ℕ

-- An entry of type MPPROC.
unfoldable pub add_processor : (flags : ℕ) → Cpus → Cpus
add_processor flags c =
    let boot = if has_bits flags 2 then c.ncpu else c.bootcpu in
    if ltb c.ncpu ncpu_max
    then record c { bootcpu = boot; cpu_id = update c.cpu_id c.ncpu c.ncpu; ncpu = c.ncpu + 1 }
    else record c { bootcpu = boot }

-- The loop over `n` entries from `p` on.
unfoldable pub scan_entries : Bytes → (n p : ℕ) → Cpus → Cpus
unfolding add_processor
scan_entries m zero p c = c
scan_entries m (suc n) p c =
    let processor = scan_entries m n (p + 20) (add_processor (m (p + 3)) c) in
    let other = scan_entries m n (p + 8) c in
    if m p == 0 then processor else if leb (m p) 4 then other else record c { ismp = false }

-- The processors that the table lists.
unfoldable pub listed : Bytes → (conf : ℕ) → Cpus → Cpus
unfolding scan_entries
listed m conf c =
    scan_entries m (read16 m (conf_entry conf)) (conf_entries conf)
      (record c { bootcpu = 0; ismp = true; lapicaddr = read32 m (conf_lapicaddr conf) })

-- The boot processor has started; there is no result where `bootcpu` points behind the array `cpus`,
-- since the write then changes other memory.
unfoldable pub start_bootcpu : Cpus → Option Cpus
start_bootcpu c =
    if ltb c.bootcpu ncpu_max
    then some (record c { cpu_status = update c.cpu_status c.bootcpu cpu_started })
    else none

-- Without several processors the first is the only one.
abbrev pub settle : Cpus → Cpus
settle c = if not c.ismp then record c { ncpu = 1; lapicaddr = 0 } else c

-- mp_init once mpconfig has found a table.
unfoldable pub read_conf : Bytes → (conf : ℕ) → Cpus → Option Cpus
unfolding listed start_bootcpu
read_conf m conf c = elim (start_bootcpu (listed m conf c)) [
  | none ↦ none
  | some s ↦ some (settle s)
]
