-- ===== src/Examples/Sharing.antt =====
-- The theorems on address spaces that share pages, and on the release of one, at a machine where
-- environment 1 has an empty page directory of its own.
use os2017_lab.Base.{
  ℕ, ◌<◌, ◌≡◌, refl, inl, inr, true, false, some, none, arith, ◌==◌, if◌then◌else◌, has_bits,
}
use os2017_lab.Memlayout.{pte_w, pte_p, pgnum, utop}
use os2017_lab.Kernel.{EnvStatus, Env, Kernel, ok}
use os2017_lab.Pmap.View.{has_table, mmu_entry, IsSpace, same_page, user_tables}
use os2017_lab.Pmap.Mapping.{MapsTo}
use os2017_lab.Pmap.Words.{mapping}
use os2017_lab.Pmap.Insert.{IsFresh, table_free}
use os2017_lab.Pmap.Isolation.{IsApart, Kept}
use os2017_lab.Env.{env_free}
use os2017_lab.Env.Release.{HasPages}
use os2017_lab.Env.Freed.{env_free_releases}
use os2017_lab.Syscall.{sys_page_map}
use os2017_lab.Syscall.Share.{IsThere, Manages, IsUserPerm, sys_page_map_maps}
use os2017_lab.Syscall.CopyOnWrite.{CanShare, sys_page_map_shares_twice}
use os2017_lab.Examples.{
  small_mem, small_envs, small, small-IsSpace, only_table, has_table_zero, entry_there,
  present_there, small-IsFresh,
}

-- Environment 1 has the page directory in frame 4.
abbrev two_envs : ℕ → Env
two_envs i = if i == 1 then record (small_envs 1) { env_pgdir = some 4 } else small_envs i

abbrev two_spaces : Kernel
two_spaces = record small { envs = two_envs }

empty_dir : (i : ℕ) → has_table small_mem 4 i ≡ false
unfolding has_bits
empty_dir i = ground arith

empty-IsSpace : IsSpace 16 small_mem 4
empty-IsSpace = record {
  in_range = λ i there. ground (arith, empty_dir i);
  reachable = λ i there. ground (arith, empty_dir i);
  apart = λ i j low there there' same. ground (arith, empty_dir i);
  off_dir = λ i low there. ground (arith, empty_dir i);
}

empty-IsApart : IsApart small_mem 4 2
empty-IsApart = record {
  ne_dir = omega arith;
  off_dir = λ i low there. ground (arith, empty_dir i);
  dir_off = λ j there. omega (arith, only_table j there);
  off_table = λ i j low there there'. ground (arith, empty_dir i);
}

full-IsApart : IsApart small_mem 2 4
full-IsApart = record {
  ne_dir = omega arith;
  off_dir = λ i low there. omega (arith, only_table i there);
  dir_off = λ j there. ground (arith, empty_dir j);
  off_table = λ i j low there there'. ground (arith, empty_dir j);
}

two_spaces-IsFresh : IsFresh two_spaces 2 7
two_spaces-IsFresh = record {
  head = refl;
  in_range = omega arith;
  reachable = omega arith;
  ne_dir = omega arith;
  no_table = small-IsFresh.no_table;
}

empty-IsFresh : IsFresh two_spaces 4 7
empty-IsFresh = record {
  head = refl;
  in_range = omega arith;
  reachable = omega arith;
  ne_dir = omega arith;
  no_table = λ i there. ground (arith, empty_dir i);
}

first_page-IsFresh : (t : ℕ) → two_spaces.page_free_list ≡ some t → IsFresh two_spaces 2 t
first_page-IsFresh t head = let same : t ≡ 7 = ground arith in rw same two_spaces-IsFresh

page-IsThere : IsThere two_spaces 2 0x1000
page-IsThere = record {
  there = has_table_zero;
  present = present_there;
  valid = omega (arith, entry_there);
}

read_only_perm : IsUserPerm 5
unfolding has_bits
read_only_perm = (omega arith, refl, refl, refl)

no_write : has_bits 5 pte_w ≡ false
unfolding has_bits
no_write = refl

me : Manages two_spaces 0 4096 0
me = (omega arith, (refl, ground arith, refl), inl refl)

child : Manages two_spaces 0 4097 1
child = (omega arith, (refl, ground arith, refl), inr refl)

sys_page_map_maps_example :
    (k' : Kernel) × (sys_page_map 4096 0x1000 4097 0x2000 5 two_spaces ≡ ok 0 k')
    × MapsTo small_mem k'.mem 4 5 0x2000 5
    × ((va : ℕ) → mmu_entry k'.mem 2 va ≡ mmu_entry small_mem 2 va)
unfolding mmu_entry has_bits
sys_page_map_maps_example =
    sys_page_map_maps two_spaces 0 4096 4097 0 1 0x1000 0x2000 5 refl me child refl refl
      read_only_perm 2 4 2 refl refl (omega arith) small-IsSpace page-IsThere (rw no_write refl)
      empty-IsSpace (table_free 7 (empty_dir 0) empty-IsFresh) empty-IsApart
      (λ _. first_page-IsFresh)

two_spaces-CanShare : CanShare two_spaces 2 4 0x1000
two_spaces-CanShare = record {
  few = omega arith;
  space = small-IsSpace;
  space' = empty-IsSpace;
  mapped = page-IsThere;
  room = table_free 7 (empty_dir 0) empty-IsFresh;
  apart = empty-IsApart;
  apart' = full-IsApart;
  unused = λ _. first_page-IsFresh;
}

sys_page_map_shares_twice_example :
    (k1 k2 : Kernel) × (sys_page_map 4096 0x1000 4097 0x1000 5 two_spaces ≡ ok 0 k1)
    × (sys_page_map 4096 0x1000 4096 0x1000 5 k1 ≡ ok 0 k2)
    × ((va' : ℕ)
        → va' < utop
        → mmu_entry k2.mem 2 va'
          ≡ (if same_page 0x1000 va' then mapping 5 5 else mmu_entry small_mem 2 va'))
    × ((va' : ℕ)
        → va' < utop
        → mmu_entry k2.mem 4 va'
          ≡ (if same_page 0x1000 va' then mapping 5 5 else mmu_entry small_mem 4 va'))
unfolding mmu_entry has_bits
sys_page_map_shares_twice_example =
    sys_page_map_shares_twice two_spaces 0 4096 4097 1 0x1000 5 2 4 refl me child refl
      read_only_perm no_write refl refl two_spaces-CanShare

only_page : (t : ℕ) → has_bits (small_mem 3 t) pte_p ≡ true → pgnum (small_mem 3 t) < 16
unfolding has_bits
only_page t present = ground arith

two_spaces-HasPages :
    (d : ℕ) → d < user_tables → has_table small_mem 2 d ≡ true → HasPages two_spaces 2 d
two_spaces-HasPages d user there t low =
    let (first, frame) = only_table d there in rw frame (only_page t)

env_free_releases_example :
    (k' : Kernel) × (env_free 0 two_spaces ≡ ok tt k')
    × (k'.env_free_list ≡ some 0)
    × ((i : ℕ)
        → k'.envs i ≡ (
            if i == 0
            then record (two_envs 0) {
              env_pgdir = none;
              env_status = EnvStatus.env_free;
              env_link = some 2;
            }
            else two_envs i))
    × ((d : ℕ) → d < user_tables → has_table k'.mem 2 d ≡ false)
    × Kept small_mem k'.mem 4
env_free_releases_example =
    env_free_releases two_spaces 0 2 refl (omega arith) small-IsSpace two_spaces-HasPages 4
      full-IsApart
