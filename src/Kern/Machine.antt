-- ===== src/Kern/Machine.antt =====
-- The kernel's state, and the commands that read and change it.
-- A `struct PageInfo *` and a `struct Env *` are indices into `pages` and `envs`, `none` for NULL;
-- a kernel virtual address of a page is the number of its frame; a word of physical memory is
-- addressed by its frame and its index there.
pub mod Const
pub use Const.*
use adv_os_jos.Prelude.{
  ℕ, ◌+◌, ◌*◌, ◌/◌, ◌%◌, ◌^◌, Bool, true, false, Option, none, some, List, [], ◌∷◌, leb, update,
  if◌then◌else◌, ℤ,
}

-- struct PageInfo
pub record PageInfo : Type 0 where
  pub pp_link : Option ℕ
  pub pp_ref : ℕ

-- struct PushRegs
pub record PushRegs : Type 0 where
  pub reg_edi : ℕ
  pub reg_esi : ℕ
  pub reg_ebp : ℕ
  pub reg_oesp : ℕ
  pub reg_ebx : ℕ
  pub reg_edx : ℕ
  pub reg_ecx : ℕ
  pub reg_eax : ℕ

-- struct Trapframe, less the padding
pub record Trapframe : Type 0 where
  pub tf_regs : PushRegs
  pub tf_es : ℕ
  pub tf_ds : ℕ
  pub tf_trapno : ℕ
  pub tf_err : ℕ
  pub tf_eip : ℕ
  pub tf_cs : ℕ
  pub tf_eflags : ℕ
  pub tf_esp : ℕ
  pub tf_ss : ℕ

-- the values of env_status
pub data Status : Type 0 where
  free dying runnable running not_runnable : Status

-- enum EnvType
pub data EnvType : Type 0 where
  user fs : EnvType

-- struct Env. An `envid_t` is the bit pattern of an `int32_t`; `env_pgdir` is a frame.
pub record Env : Type 0 where
  pub env_tf : Trapframe
  pub env_link : Option ℕ
  pub env_id : ℕ
  pub env_parent_id : ℕ
  pub env_type : EnvType
  pub env_status : Status
  pub env_runs : ℕ
  pub env_pgdir : Option ℕ
  pub env_pgfault_upcall : ℕ
  pub env_ipc_recving : Bool
  pub env_ipc_dstva : ℕ
  pub env_ipc_value : ℕ
  pub env_ipc_from : ℕ
  pub env_ipc_perm : ℕ

-- The variables of pmap.c and env.c, the physical memory that they point into, and two registers
-- of the CPU: `cr3`, the frame of the page directory in use, and the log of flushed addresses.
pub record Kernel : Type 0 where
  pub npages : ℕ
  pub npages_basemem : ℕ
  pub nextfree : ℕ
  pub pages : ℕ → PageInfo
  pub page_free_list : Option ℕ
  pub kern_pgdir : ℕ
  pub mmio_base : ℕ
  pub user_mem_check_addr : ℕ
  pub envs : ℕ → Env
  pub env_free_list : Option ℕ
  pub curenv : Option ℕ
  pub memory : ℕ → ℕ → ℕ
  pub cr3 : ℕ
  pub flushed : List ℕ

-- How a command ends: with a value; with a kernel panic, which a NULL dereference in the kernel is
-- too; by leaving the kernel for the user mode of `curenv`; by halting the CPU; in the monitor.
pub data Run (A : Type 0) : Type 0 where
  ok : A → Kernel → Run A
  panic : Run A
  user_mode : Kernel → Run A
  halted : Kernel → Run A
  in_monitor : Kernel → Run A

abbrev pub Cmd : Type 0 → Type 0
Cmd A = Kernel → Run A

abbrev pub pure : {A : Type 0} → A → Cmd A
pure a = ok a

module _ {A B : Type 0} where
  abbrev pub and_then : Run A → (A → Cmd B) → Run B
  and_then (ok a k) f = f a k
  and_then panic f = panic
  and_then (user_mode k) f = user_mode k
  and_then (halted k) f = halted k
  and_then (in_monitor k) f = in_monitor k

  infixl 5 ◌>>=◌ ◌>>◌
  abbrev pub ◌>>=◌ : Cmd A → (A → Cmd B) → Cmd B
  m >>= f = λ k. and_then (m k) f

  abbrev pub ◌>>◌ : Cmd A → Cmd B → Cmd B
  m >> n = m >>= λ _. n

abbrev pub fail : {A : Type 0} → Cmd A
fail k = panic

abbrev pub gets : {A : Type 0} → (Kernel → A) → Cmd A
gets f k = ok (f k) k

abbrev pub modify : (Kernel → Kernel) → Cmd (Unit {0})
modify f k = ok tt (f k)

-- the target of a pointer, a panic at NULL
abbrev pub deref : {A : Type 0} → Option A → Cmd A
deref none = fail
deref (some a) = pure a

abbrev pub set_page : ℕ → PageInfo → Kernel → Kernel
set_page pp info k = record k { pages = update k.pages pp info }

abbrev pub set_link : ℕ → Option ℕ → Kernel → Kernel
set_link pp l k = set_page pp (record (k.pages pp) { pp_link = l }) k

-- `pp_ref` is a uint16_t
abbrev pub set_ref : ℕ → ℕ → Kernel → Kernel
set_ref pp n k = set_page pp (record (k.pages pp) { pp_ref = n % 2 ^ 16 }) k

abbrev pub set_env : ℕ → Env → Kernel → Kernel
set_env e env k = record k { envs = update k.envs e env }

abbrev pub write_word : ℕ → ℕ → ℕ → Kernel → Kernel
write_word frame i w k = record k { memory = update k.memory frame (update (k.memory frame) i w) }

-- memset(kva, 0, PGSIZE)
abbrev pub zero_frame : ℕ → Kernel → Kernel
zero_frame frame k = record k { memory = update k.memory frame (λ _. 0) }

-- page2pa: `(pp - pages) << PGSHIFT`
abbrev pub page2pa : ℕ → ℕ
page2pa pp = pp * 4096 % 2 ^ 32

-- KADDR: the frame at a physical address
abbrev pub kaddr : ℕ → Cmd ℕ
kaddr pa = λ k. if leb k.npages (pgnum pa) then panic else ok (pgnum pa) k

-- page2kva
abbrev pub page2kva : ℕ → Cmd ℕ
page2kva pp = kaddr (page2pa pp)

-- pa2page
abbrev pub pa2page : ℕ → Cmd ℕ
pa2page pa = λ k. if leb k.npages (pgnum pa) then panic else ok (pgnum pa) k
