-- ===== src/Fs/Tests.antt =====
-- The theorems on the file system at one disk.
use adv_os_jos.Prelude.{◌≡◌, refl, false, ◌==◌, if◌then◌else◌, [], arith}
use adv_os_jos.Fs.{Disk, block_is_free}
use adv_os_jos.Fs.Bitmap.{BlockOutcome, alloc_block_lem}
use adv_os_jos.Fs.Blocks.{GetOutcome, file_get_block_lem}

-- Of 64 blocks, 5 and 6 are free. File 0 has block 4 and the indirect block 7.
abbrev disk : Disk
disk = record {
  s_nblocks = 64;
  bitmap = λ w. if w == 0 then 0x60 else 0;
  words = λ b i. 0;
  bytes = λ b i. 0;
  files = λ f. record {
    f_name = [];
    f_size = 4096;
    f_type = 0;
    f_direct = λ n. if n == 0 then 4 else 0;
    f_indirect = 7;
  };
  flushed = [];
}

boot_used : block_is_free 0 disk ≡ false
unfolding block_is_free
boot_used = refl

alloc_block_example : BlockOutcome disk
alloc_block_example = alloc_block_lem disk boot_used

file_get_block_example : GetOutcome disk 0 1
file_get_block_example =
    file_get_block_lem disk 0 1 (omega arith) boot_used (omega arith) (omega arith)
