-- ===== src/Kern/Lock/Exclusion.antt =====
-- Mutual exclusion by the spin lock of lab/kern/spinlock.c, and its test `holding`, which reads the
-- lock without holding it.
use adv_os_jos.Prelude.{
  ℕ, ◌==◌, ==_iff, ==_refl, true, false, Bool-cases, Option, none, some, ◌≡◌, ◌≢◌, ◌⊎◌, inl, inr,
  refl, sym, ap, ◌∙◌, update, update_self, update_ne, arith,
}
use adv_os_jos.Kern.Lock.{
  Spinlock, LockPc, test_locked, test_cpu, exchange, record_cpu, record_pcs, UnlockPc, check_locked,
  check_cpu, reset_pcs, reset_cpu, release, Pc, outside, inside, panicked, locking, unlocking,
  is_cpu, cpu_step, System, start, spin_initlock, Reach, here, next,
}

-- Where a CPU is as the owner of the lock, with or without its name in it, or not the owner.
pub data Part : Type 0 where
  apart owner named_owner lost : Part

abbrev pub part : Pc → Part
part outside = apart
part inside = named_owner
part panicked = lost
part (locking test_locked) = apart
part (locking test_cpu) = apart
part (locking exchange) = apart
part (locking record_cpu) = owner
part (locking record_pcs) = named_owner
part (unlocking release) = owner
part (unlocking check_locked) = named_owner
part (unlocking check_cpu) = named_owner
part (unlocking reset_pcs) = named_owner
part (unlocking reset_cpu) = named_owner

-- What the part of the CPU `i` says, where the owner is `o` and the lock names `c`.
abbrev pub Fits : (o c : Option ℕ) (i : ℕ) → Part → Type 0
Fits o c i apart = o ≢ some i
Fits o c i owner = (o ≡ some i) × (c ≡ none)
Fits o c i named_owner = (o ≡ some i) × (c ≡ some i)
Fits o c i lost = ⊥

-- the value of `locked`
abbrev pub taken : Option ℕ → ℕ
taken none = 0
taken (some o) = 1

-- One CPU at most owns the lock, which says so and names no other.
pub record Owned (o : Option ℕ) (s : System) : Type 0 where
  pub is_locked : s.lock.locked ≡ taken o
  pub names : (s.lock.cpu ≡ none) ⊎ (s.lock.cpu ≡ o)
  pub fits : (i : ℕ) → Fits o s.lock.cpu i (part (s.pc i))

pub test→ne : (a b : ℕ) → (a == b) ≡ false → a ≢ b
test→ne a b t e = ground arith

-- A step of one CPU to the owner `o` keeps to the part of it, and those of the others.
Owned-update :
    (o o' : Option ℕ) (s : System) (me : ℕ) (p : Pc) (lk : Spinlock)
    → Owned o s
    → lk.locked ≡ taken o'
    → ((lk.cpu ≡ none) ⊎ (lk.cpu ≡ o'))
    → Fits o' lk.cpu me (part p)
    → ((i : ℕ) → i ≢ me → Fits o' lk.cpu i (part (s.pc i)))
    → Owned o' (record { pc = update s.pc me p; lock = lk })
Owned-update o o' s me p lk inv l c mine others = record {
  is_locked = l;
  names = c;
  fits = λ i. elim (Bool-cases (me == i)) [
    | inl e ↦ let e' : me ≡ i = (==_iff me i).0 e in subst_at i e'
    | inr n ↦ rw (update_ne s.pc me p i n) (others i (λ e. test→ne me i n (sym e)))
  ];
}
  where
    subst_at : (i : ℕ) → me ≡ i → Fits o' lk.cpu i (part (update s.pc me p i))
    subst_at i e = rw (← e) (rw (update_self s.pc me p) mine)

module _ (o : Option ℕ) (s : System) (me : ℕ) (trace : ℕ → ℕ) (inv : Owned o s) where
  -- A step that leaves the lock keeps the owner.
  Owned-pc :
      (p : Pc)
      → Fits o s.lock.cpu me (part p)
      → Owned o (record { pc = update s.pc me p; lock = s.lock })
  Owned-pc p mine =
      Owned-update o o s me p s.lock inv inv.is_locked inv.names mine (λ i n. inv.fits i)

  -- Where `me` is the owner, each other CPU is apart from the lock, and stays so for any owner among
  -- `me` and nobody.
  others_apart :
      o ≡ some me
      → (o' c : Option ℕ) → ((o' ≡ none) ⊎ (o' ≡ some me))
      → (i : ℕ) → i ≢ me
      → Fits o' c i (part (s.pc i))
  others_apart e o' c w i n = by_part (part (s.pc i)) (inv.fits i)
    where
      apart_now : ((o' ≡ none) ⊎ (o' ≡ some me)) → o' ≢ some i
      apart_now (inl a) h = cc
      apart_now (inr a) h = n (cc)

      by_part : (q : Part) → Fits o s.lock.cpu i q → Fits o' c i q
      by_part apart f = apart_now w
      by_part owner f = absurd (n cc)
      by_part named_owner f = absurd (n cc)
      by_part lost f = absurd f

  -- The test `lock->cpu == thiscpu` is right, whoever writes the lock meanwhile.
  pub is_cpu-apart : o ≢ some me → is_cpu me s.lock.cpu ≡ false
  unfolding is_cpu
  is_cpu-apart n = by_cpu s.lock.cpu inv.names
    where
      by_cpu : (c : Option ℕ) → ((c ≡ none) ⊎ (c ≡ o)) → is_cpu me c ≡ false
      by_cpu none h = refl
      by_cpu (some c) h = elim (Bool-cases (c == me)) [
        | inr t ↦ t
        | inl t ↦
            let e : c ≡ me = (==_iff c me).0 t in
            elim h [ inl x ↦ absurd cc | inr x ↦ absurd (n (cc)) ]
      ]

  pub is_cpu-named : s.lock.cpu ≡ some me → is_cpu me s.lock.cpu ≡ true
  unfolding is_cpu
  is_cpu-named e = rw (e, ==_refl me)

  pub not_locked : (s.lock.locked == 0) ≡ true → o ≡ none
  not_locked h = by_owner o (sym inv.is_locked ∙ (==_iff _ _).0 h)
    where
      by_owner : (x : Option ℕ) → taken x ≡ 0 → x ≡ none
      by_owner none e = refl
      by_owner (some x) e = absurd (omega arith)

  -- Without an owner, the CPU that takes the lock is its owner, and the lock names nobody.
  unnamed : o ≡ none → s.lock.cpu ≡ none
  unnamed e = elim inv.names [ inl x ↦ x | inr x ↦ cc ]

  all_apart : o ≡ none → (i : ℕ) → i ≢ me → Fits (some me) s.lock.cpu i (part (s.pc i))
  all_apart e i n = by_part (part (s.pc i)) (inv.fits i)
    where
      by_part : (q : Part) → Fits o s.lock.cpu i q → Fits (some me) s.lock.cpu i q
      by_part apart f = λ h. n cc
      by_part owner f = absurd cc
      by_part named_owner f = absurd cc
      by_part lost f = absurd f

  -- An owner before and after: the records of the lock change, or its ownership ends.
  Owned-owner :
      o ≡ some me
      → (p : Pc) (lk : Spinlock) (o' : Option ℕ) → ((o' ≡ none) ⊎ (o' ≡ some me))
      → lk.locked ≡ taken o'
      → ((lk.cpu ≡ none) ⊎ (lk.cpu ≡ o'))
      → Fits o' lk.cpu me (part p)
      → Owned o' (record { pc = update s.pc me p; lock = lk })
  Owned-owner e p lk o' w l c mine =
      Owned-update o o' s me p lk inv l c mine (others_apart e o' lk.cpu w)

  locked_by_me : o ≡ some me → s.lock.locked ≡ 1
  locked_by_me e = rw inv.is_locked (rw e)

  pub locked-test : o ≡ some me → (s.lock.locked == 0) ≡ false
  locked-test e = let l = locked_by_me e in ground arith

  abbrev Next : Pc × Spinlock → Type 0
  Next r = (o' : Option ℕ) × Owned o' (record { pc = update s.pc me r.0; lock = r.1 })

  Owned-spin_lock :
      (p : LockPc)
      → Fits o s.lock.cpu me (part (locking p))
      → Next (cpu_step me trace (locking p) s.lock)
  Owned-spin_lock test_locked mine = elim (Bool-cases (s.lock.locked == 0)) [
    | inl t ↦ rw t (o, Owned-pc (locking exchange) mine)
    | inr t ↦ rw t (o, Owned-pc (locking test_cpu) mine)
  ]
  Owned-spin_lock test_cpu mine = rw (is_cpu-apart mine) (o, Owned-pc (locking exchange) mine)
  Owned-spin_lock exchange mine = elim (Bool-cases (s.lock.locked == 0)) [
    | inl t ↦
        let e : o ≡ none = not_locked t in
        rw t (
          some me,
          Owned-update o (some me) s me (locking record_cpu) (record s.lock { locked = 1 }) inv refl
              (inl (unnamed e)) (refl, unnamed e) (all_apart e),
        )
    | inr t ↦ rw t (
      o,
      Owned-update o o s me (locking exchange) (record s.lock { locked = 1 }) inv (stays t)
          inv.names mine (λ i n. inv.fits i),
    )
  ]
    where
      by_owner :
          (x : Option ℕ) → s.lock.locked ≡ taken x → (s.lock.locked == 0) ≡ false → 1 ≡ taken x
      by_owner none e t = absurd (cc (rw e at t))
      by_owner (some x) e t = refl

      stays : (s.lock.locked == 0) ≡ false → 1 ≡ taken o
      stays = by_owner o inv.is_locked
  Owned-spin_lock record_cpu mine = (
    some me,
    Owned-owner mine.0 (locking record_pcs) (record s.lock { cpu = some me }) (some me) (inr refl)
        (locked_by_me mine.0) (inr refl) (refl, refl),
  )
  Owned-spin_lock record_pcs mine = (
    some me,
    Owned-owner mine.0 inside (record s.lock { pcs = trace }) (some me) (inr refl)
        (locked_by_me mine.0) (inr mine.1) (refl, mine.1),
  )

  Owned-spin_unlock :
      (p : UnlockPc)
      → Fits o s.lock.cpu me (part (unlocking p))
      → Next (cpu_step me trace (unlocking p) s.lock)
  Owned-spin_unlock check_locked mine =
      rw (locked-test mine.0) (o, Owned-pc (unlocking check_cpu) mine)
  Owned-spin_unlock check_cpu mine =
      rw (is_cpu-named mine.1) (o, Owned-pc (unlocking reset_pcs) mine)
  Owned-spin_unlock reset_pcs mine = (
    some me,
    Owned-owner mine.0 (unlocking reset_cpu) (record s.lock { pcs = update s.lock.pcs 0 0 })
        (some me) (inr refl) (locked_by_me mine.0) (inr mine.1) (refl, mine.1),
  )
  Owned-spin_unlock reset_cpu mine = (
    some me,
    Owned-owner mine.0 (unlocking release) (record s.lock { cpu = none }) (some me) (inr refl)
        (locked_by_me mine.0) (inl refl) (refl, refl),
  )
  Owned-spin_unlock release mine = (
    none,
    Owned-owner mine.0 outside (record s.lock { locked = 0 }) none (inl refl) refl (inl mine.1)
        (λ h. cc),
  )

  pub Owned-cpu_step : (p : Pc) → Fits o s.lock.cpu me (part p) → Next (cpu_step me trace p s.lock)
  Owned-cpu_step outside mine = (o, Owned-pc (locking test_locked) mine)
  Owned-cpu_step inside mine = (o, Owned-pc (unlocking check_locked) mine)
  Owned-cpu_step panicked mine = absurd mine
  Owned-cpu_step (locking p) mine = Owned-spin_lock p mine
  Owned-cpu_step (unlocking p) mine = Owned-spin_unlock p mine

-- Each state that the CPUs reach has an owner of the lock, or none.
pub Reach-Owned : (lk : Spinlock) {s : System} → Reach (start lk) s → (o : Option ℕ) × Owned o s
unfolding spin_initlock
Reach-Owned lk here = (none, record { is_locked = refl; names = inl refl; fits = λ i h. cc })
Reach-Owned lk (next {t} me trace r) =
    let (o, inv) = Reach-Owned lk r in Owned-cpu_step o t me trace inv (t.pc me) (inv.fits me)

-- However the CPUs interleave from an initialised lock on: no CPU panics in the tests of spin_lock and
-- spin_unlock, and two CPUs are never inside the critical section together.
pub mutual_exclusion :
    (lk : Spinlock) {s : System}
    → Reach (start lk) s
    → ((i : ℕ) → s.pc i ≢ panicked) × ((i j : ℕ) → s.pc i ≡ inside → s.pc j ≡ inside → i ≡ j)
mutual_exclusion lk {s} r =
    let (o, inv) = Reach-Owned lk r in
    (
      λ i e. lost_not (part (s.pc i)) o s.lock.cpu i (inv.fits i) (ap part e),
      λ i j a b.
          let x = named o s.lock.cpu i (part (s.pc i)) (ap part a) (inv.fits i) in
          let y = named o s.lock.cpu j (part (s.pc j)) (ap part b) (inv.fits j) in cc,
    )
  where
    lost_not : (q : Part) (o c : Option ℕ) (i : ℕ) → Fits o c i q → q ≢ lost
    lost_not apart o c i f e = cc
    lost_not owner o c i f e = cc
    lost_not named_owner o c i f e = cc
    lost_not lost o c i f e = f

    named : (o c : Option ℕ) (i : ℕ) (q : Part) → q ≡ named_owner → Fits o c i q → o ≡ some i
    named o c i named_owner e f = f.0
    named o c i owner e f = absurd cc
    named o c i apart e f = absurd cc
    named o c i lost e f = absurd cc
