-- ===== src/Boot/Bootmain.antt =====
-- bootmain of boot/main.c: from the image on the disk to the entry of the kernel.
use os2017_lab.Base.{
  ℕ, zero, suc, ◌+◌, ◌-◌, ◌*◌, ◌%◌, ◌^◌, ◌≤◌, ◌<◌, ◌≡◌, refl, ap, ◌∙◌, inl, inr, true, some, ◌==◌,
  arith, Bool-cases,
}
use mathlib.Core.Path.{ap₂}
use os2017_lab.Memlayout.{u32_mod}
use os2017_lab.Elf.{
  Bytes, u32_at, elf_magic, e_magic, e_entry, e_phoff, e_phnum, sizeof_proghdr, p_offset, p_pa,
  p_memsz,
}
use os2017_lab.Boot.{Disk, sectsize, elfhdr, readseg, enters_kernel, load_segments, bootmain}
use os2017_lab.Boot.Readseg.{image, readseg_reads}

-- The bytes of the image that bootmain reads first.
abbrev pub header_size : ℕ
header_size = sectsize * 8

-- The first page of the image is at ELFHDR.
abbrev HasHeader : Disk → Bytes → Type 0
HasHeader disk m = (i : ℕ) → i < header_size → m (elfhdr + i) ≡ image disk i

u32_at-header :
    (disk : Disk) (m : Bytes) (a b : ℕ)
    → HasHeader disk m
    → b ≡ elfhdr + a
    → a + 3 < header_size
    → u32_at m b ≡ u32_at (image disk) a
u32_at-header disk m a b header same inside =
    let byte : (i : ℕ) → i < 4 → m (b + i) ≡ image disk (a + i) = λ i low.
      let place : b + i ≡ elfhdr + (a + i) = omega (arith, same) in
      ap m place ∙ header (a + i) (omega arith) in
    let byte0 : m b ≡ image disk a = ap m same ∙ header a (omega arith) in
    rw (byte0, byte 1 (omega arith), byte 2 (omega arith), byte 3 (omega arith)) refl

-- Program header `j` of the image.
abbrev pub proghdr : Disk → ℕ → ℕ
proghdr disk j = e_phoff (image disk) 0 + j * sizeof_proghdr

abbrev pub seg_pa : Disk → ℕ → ℕ
seg_pa disk j = p_pa (image disk) (proghdr disk j)

abbrev pub seg_size : Disk → ℕ → ℕ
seg_size disk j = p_memsz (image disk) (proghdr disk j)

abbrev pub seg_offset : Disk → ℕ → ℕ
seg_offset disk j = p_offset (image disk) (proghdr disk j)

-- Segment `j` lies at the same place in its sector in memory and on the disk, behind the headers in
-- memory, and within the machine and the disk.
pub record Fits (disk : Disk) (j : ℕ) : Type 0 where
  pub aligned : seg_pa disk j % sectsize ≡ seg_offset disk j % sectsize
  pub behind : elfhdr + header_size ≤ seg_pa disk j
  pub in_memory : seg_pa disk j + seg_size disk j + 511 < u32_mod
  pub on_disk : seg_offset disk j + seg_size disk j < (2 ^ 28 - 2) * sectsize

-- The segments are in increasing order, and no two share a sector of memory.
abbrev pub AreOrdered : Disk → ℕ → Type 0
AreOrdered disk n =
    (j j' : ℕ)
    → j < j'
    → j' < n
    → seg_pa disk j + seg_size disk j ≤ seg_pa disk j' - seg_pa disk j' % sectsize

-- Segment `j` is in memory.
abbrev pub IsLoaded : Disk → Bytes → ℕ → Type 0
IsLoaded disk m j =
    (i : ℕ) → i < seg_size disk j → m (seg_pa disk j + i) ≡ image disk (seg_offset disk j + i)

load_none :
    (disk : Disk) (ph : ℕ) (m : Bytes)
    → load_segments disk 0 ph m ≡ enters_kernel (e_entry m elfhdr) m
unfolding load_segments
load_none disk ph m = refl

load_step :
    (disk : Disk) (n ph : ℕ) (m m' : Bytes)
    → readseg disk (p_pa m ph) (p_memsz m ph) (p_offset m ph) m ≡ some m'
    → load_segments disk (suc n) ph m ≡ load_segments disk n (ph + sizeof_proghdr) m'
unfolding load_segments
load_step disk n ph m m' read = rw (read, load_segments) refl

module _ (disk : Disk) (total : ℕ) (page : proghdr disk total ≤ header_size)
    (fits : (j : ℕ) → j < total → Fits disk j) (order : AreOrdered disk total) where
  load_segments_loads :
      (n c : ℕ) (m : Bytes)
      → c + n ≡ total
      → HasHeader disk m
      → ((j : ℕ) → j < c → IsLoaded disk m j)
      → (m' : Bytes) × (load_segments disk n (elfhdr + proghdr disk c) m
          ≡ enters_kernel (e_entry (image disk) 0) m')
        × ((j : ℕ) → j < total → IsLoaded disk m' j)
  load_segments_loads zero c m all header loaded = (
    m,
    load_none disk (elfhdr + proghdr disk c) m
        ∙ ap (λ (e : ℕ). enters_kernel e m)
            (u32_at-header disk m 24 (elfhdr + 24) header refl (omega arith)),
    λ j low. loaded j (omega arith),
  )
  load_segments_loads (suc n) c m all header loaded =
      let here = fits c (omega arith) in
      let ph = elfhdr + proghdr disk c in
      let (m', runs, reads, rest) =
        readseg_reads disk (seg_pa disk c) (seg_size disk c) (seg_offset disk c) m here.aligned
          here.in_memory here.on_disk in
      let pa =
        u32_at-header disk m (proghdr disk c + 12) (ph + 12) header (omega arith) (omega arith) in
      let size =
        u32_at-header disk m (proghdr disk c + 20) (ph + 20) header (omega arith) (omega arith) in
      let place =
        u32_at-header disk m (proghdr disk c + 4) (ph + 4) header (omega arith) (omega arith) in
      let (m2, ends, done) =
        load_segments_loads n (c + 1) m' (omega arith)
          (λ i low. rest (elfhdr + i) (inl (omega (arith, here.behind))) ∙ header i low)
          (λ j low. elim (Bool-cases (j == c)) [
            | inl now ↦ let same : j ≡ c = ground (arith, now) in rw same reads
            | inr old ↦
                let older : j < c = ground (arith, old, low) in
                λ i inside.
                  rest (seg_pa disk j + i) (inl (omega (arith, order j c older (omega arith))))
                  ∙ loaded j older i inside
          ]) in
      let found : readseg disk (p_pa m ph) (p_memsz m ph) (p_offset m ph) m ≡ some m' =
        rw (pa, size, place) runs in
      let next : ph + sizeof_proghdr ≡ elfhdr + proghdr disk (c + 1) = omega arith in
      (
        m2,
        load_step disk n ph m m' found ∙ ap (λ (a : ℕ). load_segments disk n a m') next ∙ ends,
        done,
      )

bootmain_step :
    (disk : Disk) (m m' : Bytes)
    → readseg disk elfhdr header_size 0 m ≡ some m'
    → e_magic m' elfhdr ≡ elf_magic
    → bootmain disk m
      ≡ load_segments disk (e_phnum m' elfhdr) ((elfhdr + e_phoff m' elfhdr) % u32_mod) m'
unfolding bootmain
bootmain_step disk m m' read magic =
    let good : (e_magic m' elfhdr == elf_magic) ≡ true = ground (arith, magic) in
    rw (read, bootmain) (rw good refl)

-- Where the first page of the image has the magic number of ELF and all program headers, whose
-- segments are in increasing order, behind that page in memory, at the same place in their sectors
-- in memory and on the disk and within both, and no two of which share a sector of memory: bootmain
-- goes to the entry that the header names, and each segment is in memory as in the image.
pub bootmain_loads :
    (disk : Disk) (m : Bytes)
    → e_magic (image disk) 0 ≡ elf_magic
    → proghdr disk (e_phnum (image disk) 0) ≤ header_size
    → ((j : ℕ) → j < e_phnum (image disk) 0 → Fits disk j)
    → AreOrdered disk (e_phnum (image disk) 0)
    → (m' : Bytes) × (bootmain disk m ≡ enters_kernel (e_entry (image disk) 0) m')
      × ((j : ℕ) → j < e_phnum (image disk) 0 → IsLoaded disk m' j)
bootmain_loads disk m magic page fits order =
    let (m1, runs, bytes, rest) =
      readseg_reads disk elfhdr header_size 0 m (omega arith) (omega arith) (omega arith) in
    let reads : HasHeader disk m1 =
      λ i low. let same : 0 + i ≡ i = omega arith in bytes i low ∙ ap (image disk) same in
    let total = e_phnum (image disk) 0 in
    let word =
      λ (a : ℕ) (low : a + 3 < header_size). u32_at-header disk m1 a (elfhdr + a) reads refl low in
    let count : e_phnum m1 elfhdr ≡ total =
      ap₂ (λ (x y : ℕ). x + y * 2 ^ 8) (reads 44 (omega arith)) (reads 45 (omega arith)) in
    let start : (elfhdr + e_phoff m1 elfhdr) % u32_mod ≡ elfhdr + proghdr disk 0 =
      omega (arith, word 28 (omega arith), page) in
    let (m', ends, loaded) =
      load_segments_loads disk total page fits order total 0 m1 (omega arith) reads
        (λ j none'. absurd (omega arith)) in
    (
      m',
      bootmain_step disk m m1 runs (u32_at-header disk m1 0 elfhdr reads refl (omega arith) ∙ magic)
          ∙ ap₂ (λ (n a : ℕ). load_segments disk n a m1) count start
          ∙ ends,
      loaded,
    )
