-- ===== src/Boot/Readseg.antt =====
-- readseg of boot/main.c: what it reads into memory.
use os2017_lab.Base.{
  ℕ, zero, suc, ◌+◌, ◌-◌, ◌*◌, ◌/◌, ◌%◌, ◌^◌, ◌≤◌, ◌<◌, ◌≡◌, refl, ap, ◌∙◌, ◌⊎◌, inl, inr, ◌&&◌,
  true, false, some, bit_or, ltb, leb, if◌then◌else◌, arith, Bool-cases,
}
use os2017_lab.Base.Bits.{bit_or_step}
use os2017_lab.Memlayout.{u32_mod}
use os2017_lab.Elf.{Bytes}
use os2017_lab.Boot.{Disk, sectsize, selected, readsect, read_sectors, readseg}

-- 0xE0 has no bit among the lowest four.
low_digits : (x : ℕ) → bit_or x 0xE0 % 2 ^ 4 ≡ x % 2 ^ 4
low_digits x = omega (
  arith,
  bit_or_step x 0xE0,
  bit_or_step (x / 2) 0x70,
  bit_or_step (x / 2 / 2) 0x38,
  bit_or_step (x / 2 / 2 / 2) 0x1C,
)

-- The ports select the sector with the number given, for numbers of 28 bits.
selected_same : (offset : ℕ) → offset < 2 ^ 28 → selected offset ≡ offset
unfolding selected
selected_same offset small = omega (arith, low_digits (offset / 2 ^ 24))

-- The end of the last sector with a byte below `end_pa`.
abbrev pub sector_end : ℕ → ℕ
sector_end a = (a + 511) / sectsize * sectsize

-- Memory after the sectors from `offset` on have come to the addresses from `pa` to `end_pa`.
abbrev pub with_sectors : Disk → (pa end_pa offset : ℕ) → Bytes → Bytes
with_sectors disk pa end_pa offset m a =
    if leb pa a && ltb a (sector_end end_pa)
    then disk (offset + (a - pa) / sectsize) ((a - pa) % sectsize)
    else m a

-- One sector, then the others.
sector_then :
    (disk : Disk) (pa end_pa offset : ℕ) (m : Bytes) (a : ℕ)
    → pa % sectsize ≡ 0
    → pa < end_pa
    → offset < 2 ^ 28
    → with_sectors disk (pa + sectsize) end_pa (offset + 1) (readsect disk pa offset m) a
      ≡ with_sectors disk pa end_pa offset m a
unfolding readsect
sector_then disk pa end_pa offset m a whole more small = elim (Bool-cases (leb (pa + sectsize) a)) [
  | inl later ↦
      let sector : offset + 1 + (a - (pa + sectsize)) / sectsize ≡ offset + (a - pa) / sectsize =
        ground (arith, later) in
      let byte : (a - (pa + sectsize)) % sectsize ≡ (a - pa) % sectsize = ground (arith, later) in
      rw (sector, byte) (ground (arith, later))
  | inr here ↦ elim (Bool-cases (leb pa a)) [
    | inl first ↦
        let sector : (a - pa) / sectsize ≡ 0 = ground (arith, here) in
        let byte : (a - pa) % sectsize ≡ a - pa = ground (arith, here) in
        rw (sector, byte, selected_same offset small) (ground (arith, here, first, more, whole))
    | inr before ↦ ground (arith, here, before)
  ]
]

-- The loop goes on below the end, and stops there.
read_sectors_step :
    (disk : Disk) (rounds pa end_pa offset : ℕ) (m : Bytes)
    → pa < end_pa
    → pa + sectsize < u32_mod
    → offset + 1 < u32_mod
    → read_sectors disk (suc rounds) pa end_pa offset m
      ≡ read_sectors disk rounds (pa + sectsize) end_pa (offset + 1) (readsect disk pa offset m)
unfolding read_sectors
read_sectors_step disk rounds pa end_pa offset m more top few =
    let go : ltb pa end_pa ≡ true = ground arith in
    let next : (pa + sectsize) % u32_mod ≡ pa + sectsize = omega arith in
    let sector : (offset + 1) % u32_mod ≡ offset + 1 = omega arith in simp (go, next, sector)

read_sectors_stop :
    (disk : Disk) (rounds pa end_pa offset : ℕ) (m : Bytes)
    → end_pa ≤ pa
    → read_sectors disk (suc rounds) pa end_pa offset m ≡ some m
unfolding read_sectors
read_sectors_stop disk rounds pa end_pa offset m done =
    let stop : ltb pa end_pa ≡ false = ground arith in rw stop refl

read_sectors_reads :
    (disk : Disk) (rounds pa end_pa offset : ℕ) (m : Bytes)
    → pa % sectsize ≡ 0
    → end_pa + 511 < u32_mod
    → offset + (end_pa - pa + 511) / sectsize ≤ 2 ^ 28
    → end_pa ≤ pa + rounds * sectsize
    → (m' : Bytes) × (read_sectors disk (suc rounds) pa end_pa offset m ≡ some m')
      × ((a : ℕ) → m' a ≡ with_sectors disk pa end_pa offset m a)
read_sectors_reads disk zero pa end_pa offset m whole top few enough = (
  m,
  read_sectors_stop disk 0 pa end_pa offset m (omega (arith, enough)),
  λ a. ground (arith, enough, whole),
)
read_sectors_reads disk (suc rounds) pa end_pa offset m whole top few enough =
    elim (Bool-cases (ltb pa end_pa)) [
      | inl more ↦
          let before : pa < end_pa = ground (arith, more) in
          let (m', runs, reads) =
            read_sectors_reads disk rounds (pa + sectsize) end_pa (offset + 1)
              (readsect disk pa offset m) (omega arith) top (omega arith) (omega arith) in
          (
            m',
            read_sectors_step disk (suc rounds) pa end_pa offset m before (omega arith)
                  (omega arith)
                ∙ runs,
            λ a. reads a ∙ sector_then disk pa end_pa offset m a whole before (omega arith),
          )
      | inr done ↦ (
        m,
        read_sectors_stop disk (suc rounds) pa end_pa offset m (ground (arith, done)),
        λ a. ground (arith, done, whole),
      )
    ]

-- Byte `i` of the image that the disk holds from its second sector on.
abbrev pub image : Disk → ℕ → ℕ
image disk i = disk (i / sectsize + 1) (i % sectsize)

-- For a segment at the same place in its sector in memory and on the disk, below 2^32 - 511 in
-- memory and within 2^28 - 2 sectors of the disk, readseg returns; the segment's bytes in memory
-- are then those of the image, and bytes outside the sectors that the segment touches are as
-- before.
pub readseg_reads :
    (disk : Disk) (pa count offset : ℕ) (m : Bytes)
    → pa % sectsize ≡ offset % sectsize
    → pa + count + 511 < u32_mod
    → offset + count < (2 ^ 28 - 2) * sectsize
    → (m' : Bytes) × (readseg disk pa count offset m ≡ some m')
      × ((i : ℕ) → i < count → m' (pa + i) ≡ image disk (offset + i))
      × ((a : ℕ) → (a < pa - pa % sectsize) ⊎ (sector_end (pa + count) ≤ a) → m' a ≡ m a)
unfolding readseg
readseg_reads disk pa count offset m same top few =
    let start = pa - pa % sectsize in
    let last : (pa + count) % u32_mod ≡ pa + count = omega arith in
    let (m', runs, reads) =
      read_sectors_reads disk (count / sectsize + 2) start (pa + count) (offset / sectsize + 1) m
        (omega arith) (omega arith) (omega arith) (omega arith) in
    (
      m',
      ap
            (λ (e : ℕ).
              read_sectors disk (suc (count / sectsize + 2)) start e (offset / sectsize + 1) m)
            last
          ∙ runs,
      λ i inside.
          let sector : offset / sectsize + 1 + (pa + i - start) / sectsize
              ≡ (offset + i) / sectsize + 1 =
            omega arith in
          let byte : (pa + i - start) % sectsize ≡ (offset + i) % sectsize = omega arith in
          reads (pa + i) ∙ rw (sector, byte) (ground arith),
      λ a out. reads a ∙ ground arith,
    )
