-- ===== src/Memlayout/Laws.antt =====
-- Laws of the address macros of inc/mmu.h and of the rounding macros of inc/types.h.
use os2017_lab.Base.{ℕ, ◌+◌, ◌*◌, ◌%◌, ◌^◌, ◌≤◌, ◌<◌, ◌≡◌, arith}
use os2017_lab.Base.Bits.{bit_or-disjoint}
use os2017_lab.Memlayout.{u32_mod, pgsize, pdx, ptx, pgoff, pgaddr, rounddown, roundup}

-- Rounding up gives the least multiple of the page size that is not below the address, where that
-- multiple fits a word.
pub roundup_least :
    (a : ℕ)
    → a + pgsize ≤ u32_mod
    → (a ≤ roundup a pgsize) × (roundup a pgsize < a + pgsize) × (roundup a pgsize % pgsize ≡ 0)
unfolding roundup
roundup_least a h = omega arith

pub rounddown_greatest :
    (a : ℕ)
    → (rounddown a pgsize ≤ a)
      × (a < rounddown a pgsize + pgsize)
      × (rounddown a pgsize % pgsize ≡ 0)
unfolding rounddown
rounddown_greatest a = omega arith

-- PGADDR is the sum of its shifted parts.
pub pgaddr-sum :
    (d t o : ℕ) → d < 2 ^ 10 → t < 2 ^ 10 → o < 2 ^ 12 → pgaddr d t o ≡ d * 2 ^ 22 + t * 2 ^ 12 + o
unfolding pgaddr
pgaddr-sum d t o hd ht ho =
    let high : d * 2 ^ 22 % u32_mod ≡ d * 2 ^ 22 = omega arith in
    let mid : t * 2 ^ 12 % u32_mod ≡ t * 2 ^ 12 = omega arith in
    let fits : t * 2 ^ 12 < 2 ^ 22 = omega arith in
    let join : d * 2 ^ 22 + t * 2 ^ 12 ≡ (d * 2 ^ 10 + t) * 2 ^ 12 = omega arith in
    rw (high, mid, bit_or-disjoint 22 d (t * 2 ^ 12) fits, join)
      (bit_or-disjoint 12 (d * 2 ^ 10 + t) o ho)

-- Taking a 32-bit address apart and joining the parts gives the address back, and joining parts
-- that fit their fields and taking them apart gives the parts back.
pub pgaddr-round_trip :
    (va d t o : ℕ)
    → va < u32_mod
    → d < 2 ^ 10
    → t < 2 ^ 10
    → o < 2 ^ 12
    → (pgaddr (pdx va) (ptx va) (pgoff va) ≡ va)
      × (pdx (pgaddr d t o) ≡ d)
      × (ptx (pgaddr d t o) ≡ t)
      × (pgoff (pgaddr d t o) ≡ o)
pgaddr-round_trip va d t o h hd ht ho = (
  omega (arith, pgaddr-sum (pdx va) (ptx va) (pgoff va) (omega arith) (omega arith) (omega arith)),
  (let e = pgaddr-sum d t o hd ht ho in rw e (omega arith)),
  (let e = pgaddr-sum d t o hd ht ho in rw e (omega arith)),
  (let e = pgaddr-sum d t o hd ht ho in rw e (omega arith)),
)
