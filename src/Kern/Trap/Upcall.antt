-- ===== src/Kern/Trap/Upcall.antt =====
-- The page fault upcall of lab/kern/trap.c.
use adv_os_jos.Prelude.{
  ℕ, zero, suc, ◌+◌, ◌-◌, ◌*◌, ◌/◌, ◌%◌, ◌^◌, bit_and, ◌<◌, ◌≤◌, ◌≡◌, ◌≢◌, ◌⊎◌, refl, sym, ◌∙◌, ap,
  Bool, true, false, ◌&&◌, inl, inr, Bool-cases, Option, some, List, [], ◌∷◌, get_or, ◌==◌, ==_ne,
  ltb, leb, arith, update, update_ne, update_self, if◌then◌else◌, pos,
}
use adv_os_jos.Kern.Machine.{
  Kernel, Trapframe, ok, Cmd, and_then, pure, fail, gets, deref, ◌>>=◌, ◌>>◌, set_env, write_word,
  pgsize,
}
use adv_os_jos.Kern.UserMem.{user_mem_check}
use adv_os_jos.Kern.Sched.{env_run, env_destroy}
use adv_os_jos.Kern.Trap.{
  store_all, upcall_frame, frame_place, utf_size, uxstacktop, page_fault_handler, user_mem_assert,
  set_tf,
}
use adv_os_jos.Kern.Mmu.{store_at}
use adv_os_jos.Kern.Trap.Fault.{
  Writable, frame_at-Writable, Writable-page, Writable-write_word, stored, Offsets, stored-outside,
  stored-shift,
}

by_index : {A : Type 0} (g : ℕ → A) (v : A) (i j : ℕ) → update g i v j ≡ (if i == j then v else g j)
unfolding update
by_index g v i j = refl

-- `k` with another memory
abbrev pub with_memory : Kernel → (ℕ → ℕ → ℕ) → Kernel
with_memory k m = record k { memory = m }

module _ (va f : ℕ) (aligned : va % 4 ≡ 0) (room : va % 4096 + utf_size ≤ 4096)
    (low : va + utf_size ≤ 2 ^ 32) where
  store_at-word :
      (k : Kernel) (o w : ℕ)
      → o < 13
      → Writable k va f
      → store_at ((va + 4 * o) % 2 ^ 32) w k ≡ ok tt (write_word f (va % 4096 / 4 + o) w k)
  unfolding store_at
  store_at-word k o w small h =
      let no_wrap : (va + 4 * o) % 2 ^ 32 ≡ va + 4 * o = omega arith in
      let here : Writable k (va + 4 * o) f = Writable-page k va (va + 4 * o) f (omega arith) h in
      let whole : ((va + 4 * o) % 4 == 0) ≡ true = ground arith in
      rw no_wrap (
        rw whole (
          rw (frame_at-Writable k (va + 4 * o) f here)
            (ap (λ (i : ℕ). ok tt (write_word f i w k)) (omega arith))))

  abbrev Stored : (k : Kernel) → List (ℕ × ℕ) → Type 0
  Stored k ws =
      (m : ℕ → ℕ → ℕ) × (store_all va ws k ≡ ok tt (with_memory k m))
      × ((i : ℕ) → m f i ≡ stored (va % 4096 / 4) ws i (k.memory f i))
      × ((g : ℕ) → g ≢ f → m g ≡ k.memory g)

  store_all-Stored : (k : Kernel) (ws : List (ℕ × ℕ)) → Offsets ws → Writable k va f → Stored k ws
  unfolding store_all
  store_all-Stored k [] offsets h = (k.memory, refl, λ i. refl, λ g ne. refl)
  store_all-Stored k ((o, w) ∷ ws) (small, offsets) h =
      let b : ℕ = va % 4096 / 4 in
      let k' : Kernel = write_word f (b + o) w k in
      let (m, runs, at, others) =
        store_all-Stored k' ws offsets (Writable-write_word k va f (b + o) w h) in
      (
        m,
        rw (store_at-word k o w small h) runs,
        λ i.
            at i
            ∙ ap (stored b ws i) (
                ap (λ (page : ℕ → ℕ). page i)
                  (update_self k.memory f (update (k.memory f) (b + o) w))
                ∙ by_index (k.memory f) w (b + o) i),
        λ g ne.
            others g ne
            ∙ update_ne k.memory f (update (k.memory f) (b + o) w) g (==_ne f g (λ e. ne (sym e))),
      )

abbrev pub on_exception_stack : (esp : ℕ) → Bool
on_exception_stack esp = ltb esp uxstacktop && leb (uxstacktop - pgsize) esp

-- A stack pointer that leaves room for a frame and the scratch word, if it is on the exception stack.
abbrev pub HasRoom : (esp : ℕ) → Type 0
HasRoom esp = (esp < uxstacktop - pgsize) ⊎ (uxstacktop - pgsize + utf_size + 4 ≤ esp)

-- The frame lies below the scratch word, or at the top of the exception stack.
abbrev pub PlacedRight : (esp : ℕ) → Type 0
PlacedRight esp =
    ((on_exception_stack esp ≡ true) × (frame_place esp + utf_size + 4 ≡ esp))
    ⊎ ((on_exception_stack esp ≡ false) × (frame_place esp + utf_size ≡ uxstacktop))

frame_place_lem :
    (esp : ℕ)
    → esp % 4 ≡ 0
    → HasRoom esp
    → PlacedRight esp
      × (frame_place esp % 4 ≡ 0)
      × (frame_place esp % 4096 + utf_size ≤ 4096)
      × (frame_place esp + utf_size ≤ 2 ^ 32)
frame_place_lem esp aligned room = elim (Bool-cases (on_exception_stack esp)) [
  | inl t ↦
      let inside : (esp < uxstacktop) × (uxstacktop - pgsize + utf_size + 4 ≤ esp) =
        (ground arith, ground arith) in
      rw t (
        inl (refl, omega (arith, inside)),
        omega (arith, inside),
        omega (arith, inside),
        omega (arith, inside),
      )
  | inr t ↦ rw t (inr (refl, omega arith), omega arith, omega arith, omega arith)
]

-- struct UTrapframe, as inc/trap.h lays it out.
abbrev pub utrapframe : (fault_va : ℕ) → Trapframe → List ℕ
utrapframe fault_va tf =
    let r = tf.tf_regs in
    fault_va ∷ tf.tf_err ∷ r.reg_edi ∷ r.reg_esi ∷ r.reg_ebp ∷ r.reg_oesp ∷ r.reg_ebx ∷ r.reg_edx
    ∷ r.reg_ecx ∷ r.reg_eax ∷ tf.tf_eip ∷ tf.tf_eflags ∷ tf.tf_esp ∷ []

upcall_frame-utrapframe :
    (fault_va : ℕ) (tf : Trapframe) (j old : ℕ)
    → j < 13
    → stored 0 (upcall_frame fault_va tf) j old ≡ get_or (utrapframe fault_va tf) j 0
upcall_frame-utrapframe fault_va tf zero old less = refl
upcall_frame-utrapframe fault_va tf (suc zero) old less = refl
upcall_frame-utrapframe fault_va tf (suc (suc zero)) old less = refl
upcall_frame-utrapframe fault_va tf (suc (suc (suc zero))) old less = refl
upcall_frame-utrapframe fault_va tf (suc (suc (suc (suc zero)))) old less = refl
upcall_frame-utrapframe fault_va tf (suc (suc (suc (suc (suc j))))) old less = high j (omega arith)
  where
    high :
        (j : ℕ)
        → j < 8
        → stored 0 (upcall_frame fault_va tf) (suc (suc (suc (suc (suc j))))) old
          ≡ get_or (utrapframe fault_va tf) (suc (suc (suc (suc (suc j))))) 0
    high zero l = refl
    high (suc zero) l = refl
    high (suc (suc zero)) l = refl
    high (suc (suc (suc zero))) l = refl
    high (suc (suc (suc (suc zero)))) l = refl
    high (suc (suc (suc (suc (suc zero))))) l = refl
    high (suc (suc (suc (suc (suc (suc zero)))))) l = refl
    high (suc (suc (suc (suc (suc (suc (suc zero))))))) l = refl
    high (suc (suc (suc (suc (suc (suc (suc (suc j)))))))) l = absurd (omega arith)

-- The environment enters its upcall on the frame.
abbrev pub entered : (k : Kernel) (c : ℕ) (tf : Trapframe) (m : ℕ → ℕ → ℕ) → Kernel
entered k c tf m =
    set_env c
      (record (k.envs c) {
        env_tf = record (k.envs c).env_tf {
          tf_esp = frame_place tf.tf_esp;
          tf_eip = (k.envs c).env_pgfault_upcall;
        };
      })
      (with_memory k m)

-- What page_fault_handler comes to where the frame `f` holds the exception stack: memory has the
-- user frame, and is as it was elsewhere.
abbrev pub Upcalled : (k : Kernel) (c fault_va : ℕ) (tf : Trapframe) (f : ℕ) → Type 0
Upcalled k c fault_va tf f =
    let b = frame_place tf.tf_esp % 4096 / 4 in
    PlacedRight tf.tf_esp
    × (m : ℕ → ℕ → ℕ) × (page_fault_handler fault_va (some c) tf k ≡ env_run c (entered k c tf m))
    × ((j : ℕ) → j < 13 → m f (b + j) ≡ get_or (utrapframe fault_va tf) j 0)
    × ((i : ℕ) → (i < b) ⊎ (b + 13 ≤ i) → m f i ≡ k.memory f i)
    × ((g : ℕ) → g ≢ f → m g ≡ k.memory g)

assert-granted :
    (k : Kernel) (c va : ℕ)
    → user_mem_check (k.envs c) va utf_size 7 k ≡ ok (pos 0) k
    → user_mem_assert c va utf_size 7 k ≡ ok tt k
unfolding user_mem_assert
assert-granted k c va granted = rw granted refl

-- page_fault_handler once `curenv` is read
abbrev handle : (fault_va : ℕ) (place : Option ℕ) (tf : Trapframe) → ℕ → Cmd (Unit {0})
handle fault_va place tf c = do
  upcall ← gets (λ k. (k.envs c).env_pgfault_upcall)
  if upcall == 0 then env_destroy c else pure tt
  user_mem_assert c (frame_place tf.tf_esp) utf_size 7
  store_all (frame_place tf.tf_esp) (upcall_frame fault_va tf)
  set_tf place (λ t. record t { tf_esp = frame_place tf.tf_esp; tf_eip = upcall })
  env_run c

handle-entered :
    (k : Kernel) (c fault_va : ℕ) (tf : Trapframe) (m : ℕ → ℕ → ℕ)
    → (k.envs c).env_pgfault_upcall ≢ 0
    → user_mem_assert c (frame_place tf.tf_esp) utf_size 7 k ≡ ok tt k
    → store_all (frame_place tf.tf_esp) (upcall_frame fault_va tf) k ≡ ok tt (with_memory k m)
    → handle fault_va (some c) tf c k ≡ env_run c (entered k c tf m)
handle-entered k c fault_va tf m upcall granted runs =
    rw (==_ne (k.envs c).env_pgfault_upcall 0 upcall) (rw granted (rw runs refl))

page_fault_handler-handle :
    (k : Kernel) (c fault_va : ℕ) (tf : Trapframe)
    → (bit_and tf.tf_cs 0x11 == 0) ≡ false
    → k.curenv ≡ some c
    → page_fault_handler fault_va (some c) tf k ≡ handle fault_va (some c) tf c k
unfolding page_fault_handler
page_fault_handler-handle k c fault_va tf user cur =
    ap
      (λ (b : Bool).
        (if b
            then fail
            else (gets (λ k'. k'.curenv) >>= λ o. deref o >>= handle fault_va (some c) tf))
          k)
      user
    ∙ ap (λ (o : Option ℕ). and_then (deref o k) (handle fault_va (some c) tf)) cur

-- A page fault in user mode of the current environment, with an upcall, an aligned stack pointer that
-- leaves room where it is on the exception stack, and a place for the frame that user_mem_check
-- grants and that the page tables map for writing to `f`, apart from themselves: the handler writes
-- the trap-time state there as a struct UTrapframe, right below the scratch word under the stack
-- pointer if that is on the exception stack, else at its top; it changes no other word of memory;
-- and it runs the environment at the upcall, with the stack pointer at the frame.
pub page_fault_handler_lem :
    (k : Kernel) (c fault_va : ℕ) (tf : Trapframe) (f : ℕ)
    → (bit_and tf.tf_cs 0x11 == 0) ≡ false
    → k.curenv ≡ some c
    → (k.envs c).env_pgfault_upcall ≢ 0
    → tf.tf_esp % 4 ≡ 0
    → HasRoom tf.tf_esp
    → user_mem_check (k.envs c) (frame_place tf.tf_esp) utf_size 7 k ≡ ok (pos 0) k
    → Writable k (frame_place tf.tf_esp) f
    → Upcalled k c fault_va tf f
page_fault_handler_lem k c fault_va tf f user cur upcall aligned room granted h =
    let (place, four, in_page, low) = frame_place_lem tf.tf_esp aligned room in
    let ws = upcall_frame fault_va tf in
    let (m, runs, at, others) =
      store_all-Stored (frame_place tf.tf_esp) f four in_page low k ws offsets h in
    (
      place,
      m,
      page_fault_handler-handle k c fault_va tf user cur
          ∙ handle-entered k c fault_va tf m upcall
              (assert-granted k c (frame_place tf.tf_esp) granted) runs,
      λ j less.
          at (frame_place tf.tf_esp % 4096 / 4 + j)
          ∙ stored-shift (frame_place tf.tf_esp % 4096 / 4) ws j _
          ∙ upcall_frame-utrapframe fault_va tf j _ less,
      λ i out. at i ∙ stored-outside (frame_place tf.tf_esp % 4096 / 4) ws i _ offsets out,
      others,
    )
  where
    offsets : Offsets (upcall_frame fault_va tf)
    offsets = ground arith
