-- ===== src/Fs/Data/Tests.antt =====
-- The theorems on paths and contents at one disk.
use adv_os_jos.Prelude.{
  ℕ, zero, suc, ◌+◌, ◌≡◌, refl, if◌then◌else◌, ◌==◌, List, [], ◌∷◌, none, arith,
}
use adv_os_jos.Fs.{Disk, File}
use adv_os_jos.Fs.Dir.{s_root}
use adv_os_jos.Fs.Path.{walk_path}
use adv_os_jos.Fs.Path.Parts.{parts, walk_parts, walk_path-walk_parts}
use adv_os_jos.Fs.Data.Mapped.{Whole}

-- File 0 has the blocks 4 and 6, and 5000 bytes.
abbrev pub file : File
file = record {
  f_name = [];
  f_size = 5000;
  f_type = 0;
  f_direct = λ n. if n == 0 then 4 else if n == 1 then 6 else 0;
  f_indirect = 0;
}

abbrev pub disk : Disk
disk = record {
  s_nblocks = 64;
  bitmap = λ w. 0;
  words = λ b i. 0;
  bytes = λ b i. b + i;
  files = λ f. file;
  flushed = [];
}

pub whole : Whole disk 0 2
whole zero less = record {
  within = omega arith;
  there = λ e. omega (arith, e);
  on_disk = omega arith;
  ind_there = λ big e. omega (arith, big);
  ind_on_disk = λ big. omega (arith, big);
}
whole (suc zero) less = record {
  within = omega arith;
  there = λ e. omega (arith, e);
  on_disk = omega arith;
  ind_there = λ big e. omega (arith, big);
  ind_on_disk = λ big. omega (arith, big);
}
whole (suc (suc i)) less = absurd (omega arith)

-- `/a//b`
abbrev path : List ℕ
path = 47 ∷ 97 ∷ 47 ∷ 47 ∷ 98 ∷ []

path-parts : parts path ≡ (97 ∷ []) ∷ (98 ∷ []) ∷ []
path-parts = refl

walk_path-walk_parts_example : walk_path path disk ≡ walk_parts none s_root (parts path) disk
walk_path-walk_parts_example = walk_path-walk_parts path disk
