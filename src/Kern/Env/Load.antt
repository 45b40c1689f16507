-- ===== src/Kern/Env/Load.antt =====
-- The first programs: region_alloc, load_icode and env_create of lab/kern/env.c. A binary is the
-- function from an offset to its byte.
use adv_os_jos.Prelude.{
  ℕ, zero, suc, ◌+◌, ◌-◌, ◌*◌, ◌/◌, ◌%◌, ◌^◌, bit_or, not, ◌==◌, ltb, if◌then◌else◌, is_zero,
}
use adv_os_jos.Kern.Machine.{
  Env, EnvType, user, fs, Cmd, pure, fail, gets, modify, deref, ◌>>=◌, ◌>>◌, set_env, pgsize, pte_w,
  pte_u, rounddown, roundup, ustacktop,
}
use adv_os_jos.Kern.Mmu.{store_byte}
use adv_os_jos.Kern.Page.{page_alloc}
use adv_os_jos.Kern.Pgdir.{page_insert}
use adv_os_jos.Kern.Env.{env_alloc}

abbrev pub elf_magic : ℕ
elf_magic = 0x464c457f

abbrev pub elf_prog_load : ℕ
elf_prog_load = 1

abbrev pub fl_iopl_3 : ℕ
fl_iopl_3 = 0x3000

-- A new page at `va` of the environment.
add_page : (e va : ℕ) → Cmd (Unit {0})
add_page e va = do
  page ← page_alloc 0
  p ← deref page
  pgdir ← gets (λ k. (k.envs e).env_pgdir)
  dir ← deref pgdir
  r ← page_insert dir p va (bit_or pte_w pte_u)
  if is_zero r then pure tt else fail

-- The `while` of region_alloc, with the rounds left.
alloc_pages : ℕ → (e va : ℕ) → Cmd (Unit {0})
unfolding add_page
alloc_pages zero e va = pure tt
alloc_pages (suc n) e va = add_page e va >> alloc_pages n e (va + pgsize)

unfoldable pub region_alloc : (e va len : ℕ) → Cmd (Unit {0})
unfolding alloc_pages
region_alloc e va len =
    let first = rounddown va pgsize in
    let last = roundup ((va + len) % 2 ^ 32) pgsize in alloc_pages ((last - first) / pgsize) e first

-- The fields of struct Elf and struct Proghdr, little-endian.
abbrev pub half_at : (ℕ → ℕ) → ℕ → ℕ
half_at binary o = binary o + 2 ^ 8 * binary (o + 1)

abbrev pub word_at : (ℕ → ℕ) → ℕ → ℕ
word_at binary o = half_at binary o + 2 ^ 16 * half_at binary (o + 2)

pub record Proghdr : Type 0 where
  pub p_type : ℕ
  pub p_offset : ℕ
  pub p_va : ℕ
  pub p_filesz : ℕ
  pub p_memsz : ℕ

abbrev pub proghdr_at : (ℕ → ℕ) → ℕ → Proghdr
proghdr_at binary o = record {
  p_type = word_at binary o;
  p_offset = word_at binary (o + 4);
  p_va = word_at binary (o + 8);
  p_filesz = word_at binary (o + 16);
  p_memsz = word_at binary (o + 20);
}

-- memcpy(va, binary + o, n), and memset(va, 0, n) with a binary of zeros.
copy_to : (n va o : ℕ) → (ℕ → ℕ) → Cmd (Unit {0})
copy_to zero va o binary = pure tt
copy_to (suc n) va o binary =
    store_byte (va % 2 ^ 32) (binary o) >> copy_to n (va + 1) (o + 1) binary

-- One segment of load_icode.
load_segment : (e : ℕ) (binary : ℕ → ℕ) → Proghdr → Cmd (Unit {0})
unfolding copy_to
load_segment e binary ph = if ltb ph.p_memsz ph.p_filesz then fail else do
  region_alloc e ph.p_va ph.p_memsz
  copy_to ph.p_filesz ph.p_va ph.p_offset binary
  copy_to (ph.p_memsz - ph.p_filesz) (ph.p_va + ph.p_filesz) 0 (λ _. 0)

-- `for (; ph < phEnd; ++ph)`, with the headers left.
load_segments : ℕ → (e ph : ℕ) (binary : ℕ → ℕ) → Cmd (Unit {0})
unfolding load_segment
load_segments zero e ph binary = pure tt
load_segments (suc n) e ph binary = do
  if (proghdr_at binary ph).p_type == elf_prog_load
      then load_segment e binary (proghdr_at binary ph)
      else pure tt
  load_segments n e (ph + 32) binary

unfoldable pub load_icode : (e : ℕ) (binary : ℕ → ℕ) → Cmd (Unit {0})
unfolding load_segments
load_icode e binary = if not (word_at binary 0 == elf_magic) then fail else do
  pgdir ← gets (λ k. (k.envs e).env_pgdir)
  dir ← deref pgdir
  modify (λ k. record k { cr3 = dir })
  load_segments (half_at binary 44) e (word_at binary 28) binary
  modify (λ k. record k { cr3 = k.kern_pgdir })
  modify (λ k.
      set_env e
        (record (k.envs e) { env_tf = record (k.envs e).env_tf { tf_eip = word_at binary 24 } }) k)
  region_alloc e (ustacktop - pgsize) pgsize

-- The type and the I/O privilege of a new environment.
abbrev pub typed : EnvType → Env → Env
typed user env = record env { env_type = user }
typed fs env = record env {
  env_type = fs;
  env_tf = record env.env_tf { tf_eflags = bit_or env.env_tf.tf_eflags fl_iopl_3 };
}

unfoldable pub env_create : (binary : ℕ → ℕ) → EnvType → Cmd (Unit {0})
env_create binary type = do
  (r, env) ← env_alloc 0
  e ← deref env
  load_icode e binary
  modify (λ k. set_env e (typed type (k.envs e)) k)
