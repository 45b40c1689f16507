-- ===== src/Kern/Lock/Progress.antt =====
-- That the spin lock of lab/kern/spinlock.c can always be had.
use adv_os_jos.Prelude.{
  ℕ, ◌==◌, ==_ne, ==_iff, Bool-cases, true, Option, none, some, ◌≡◌, ◌≢◌, inl, inr, refl, sym, ap,
  ◌∙◌, update_self, update_ne,
}
use adv_os_jos.Kern.Lock.{
  Spinlock, LockPc, test_locked, test_cpu, exchange, record_cpu, record_pcs, check_locked,
  check_cpu, reset_pcs, reset_cpu, release, Pc, outside, inside, panicked, locking, unlocking,
  cpu_step, System, step, start, Reach, here, next,
}
use adv_os_jos.Kern.Lock.Exclusion.{
  Owned, Part, apart, owner, named_owner, lost, part, Fits, locked-test, is_cpu-named, is_cpu-apart,
  Reach-Owned, test→ne, Owned-cpu_step, taken,
}

pub Reach-trans : {s t u : System} → Reach s t → Reach t u → Reach s u
Reach-trans r here = r
Reach-trans r (next me trace q) = next me trace (Reach-trans r q)

-- Some CPU owns the lock, or none does.
abbrev pub IsOwned : System → Type 0
IsOwned s = (o : Option ℕ) × Owned o s

-- A run of the CPU `me` into the critical section.
abbrev pub Enters : (me : ℕ) → System → Type 0
Enters me s = (t : System) × Reach s t × (t.pc me ≡ inside)

module _ (trace : ℕ → ℕ) where
  IsOwned-step : (i : ℕ) (s : System) → IsOwned s → IsOwned (step i trace s)
  IsOwned-step i s (o, inv) = Owned-cpu_step o s i trace inv (s.pc i) (inv.fits i)

  pc_self :
      (i : ℕ) (s : System) (p p' : Pc)
      → s.pc i ≡ p
      → (cpu_step i trace p s.lock).0 ≡ p'
      → (step i trace s).pc i ≡ p'
  pc_self i s p p' e f = update_self s.pc i _ ∙ ap (λ (q : Pc). (cpu_step i trace q s.lock).0) e ∙ f

  pc_other : (i : ℕ) (s : System) (j : ℕ) → j ≢ i → (step i trace s).pc j ≡ s.pc j
  pc_other i s j n = update_ne s.pc i _ j (==_ne i j (λ e. n (sym e)))

  -- A run of the CPU `w` alone, to where it is outside.
  record Leaves (w : ℕ) (s : System) : Type 0 where
    end : System
    run : Reach s end
    out : end.pc w ≡ outside
    others : (j : ℕ) → j ≢ w → end.pc j ≡ s.pc j
    owned : IsOwned end

  module _ (w : ℕ) where
    Leaves-step : (s : System) → Leaves w (step w trace s) → Leaves w s
    Leaves-step s l = record {
      end = l.end;
      run = Reach-trans (next w trace here) l.run;
      out = l.out;
      others = λ j n. l.others j n ∙ pc_other w s j n;
      owned = l.owned;
    }

    -- An owner leaves the critical section from wherever it is.
    Leaves-release : (s : System) → IsOwned s → s.pc w ≡ unlocking release → Leaves w s
    Leaves-release s v e = record {
      end = step w trace s;
      run = next w trace here;
      out = pc_self w s _ _ e refl;
      others = λ j n. pc_other w s j n;
      owned = IsOwned-step w s v;
    }

    abbrev Frees : Pc → Type 0
    Frees p = (s : System) → IsOwned s → s.pc w ≡ p → Leaves w s

    Frees-before :
        (p p' : Pc)
        → ((s : System) → IsOwned s → s.pc w ≡ p → (cpu_step w trace p s.lock).0 ≡ p')
        → Frees p'
        → Frees p
    Frees-before p p' moves later s v e =
        Leaves-step s
          (later (step w trace s) (IsOwned-step w s v) (pc_self w s p p' e (moves s v e)))

    Frees-reset_pcs : Frees (unlocking reset_pcs)
    Frees-reset_pcs =
        Frees-before _ (unlocking reset_cpu) (λ s v e. refl)
          (Frees-before _ (unlocking release) (λ s v e. refl) Leaves-release)

    named_at :
        (s : System) (o : Option ℕ) (p : Pc) → Owned o s → s.pc w ≡ p → Fits o s.lock.cpu w (part p)
    named_at s o p inv e = rw⁻¹ e (inv.fits w)

    Frees-check_cpu : Frees (unlocking check_cpu)
    Frees-check_cpu =
        Frees-before _ (unlocking reset_pcs)
          (λ s (o, inv) e. rw (is_cpu-named o s w trace inv (named_at s o _ inv e).1))
          Frees-reset_pcs

    Frees-check_locked : Frees (unlocking check_locked)
    Frees-check_locked =
        Frees-before _ (unlocking check_cpu)
          (λ s (o, inv) e. rw (locked-test o s w trace inv (named_at s o _ inv e).0))
          Frees-check_cpu

    Frees-inside : Frees inside
    Frees-inside = Frees-before _ (unlocking check_locked) (λ s v e. refl) Frees-check_locked

    Frees-record_cpu : Frees (locking record_cpu)
    Frees-record_cpu =
        Frees-before _ (locking record_pcs) (λ s v e. refl)
          (Frees-before _ inside (λ s v e. refl) Frees-inside)

    -- The owner of the lock, wherever it is.
    Frees-owner :
        (s : System) (inv : Owned (some w) s) (p : Pc)
        → s.pc w ≡ p
        → Fits (some w) s.lock.cpu w (part p)
        → Leaves w s
    Frees-owner s inv outside e f = absurd (f refl)
    Frees-owner s inv inside e f = Frees-inside s (some w, inv) e
    Frees-owner s inv panicked e f = absurd f
    Frees-owner s inv (locking test_locked) e f = absurd (f refl)
    Frees-owner s inv (locking test_cpu) e f = absurd (f refl)
    Frees-owner s inv (locking exchange) e f = absurd (f refl)
    Frees-owner s inv (locking record_cpu) e f = Frees-record_cpu s (some w, inv) e
    Frees-owner s inv (locking record_pcs) e f =
        Frees-before _ inside (λ s v e. refl) Frees-inside s (some w, inv) e
    Frees-owner s inv (unlocking check_locked) e f = Frees-check_locked s (some w, inv) e
    Frees-owner s inv (unlocking check_cpu) e f = Frees-check_cpu s (some w, inv) e
    Frees-owner s inv (unlocking reset_pcs) e f = Frees-reset_pcs s (some w, inv) e
    Frees-owner s inv (unlocking reset_cpu) e f =
        Frees-before _ (unlocking release) (λ s v e. refl) Leaves-release s (some w, inv) e
    Frees-owner s inv (unlocking release) e f = Leaves-release s (some w, inv) e

  module _ (me : ℕ) where
    -- The state is reached, and no other CPU owns the lock.
    abbrev Alone : System → Type 0
    Alone s = IsOwned s × ((j : ℕ) → j ≢ me → part (s.pc j) ≡ apart)

    Alone-step : (s : System) → Alone s → Alone (step me trace s)
    Alone-step s (v, others) =
        (IsOwned-step me s v, λ j n. ap part (pc_other me s j n) ∙ others j n)

    abbrev Gets : Pc → Type 0
    Gets p = (s : System) → Alone s → s.pc me ≡ p → Enters me s

    gets_before :
        (p p' : Pc)
        → ((s : System) → Alone s → s.pc me ≡ p → (cpu_step me trace p s.lock).0 ≡ p')
        → Gets p'
        → Gets p
    gets_before p p' moves later s v e =
        let (t, r, at) =
          later (step me trace s) (Alone-step s v) (pc_self me s p p' e (moves s v e)) in
        (t, Reach-trans (next me trace here) r, at)

    gets_record_pcs : Gets (locking record_pcs)
    gets_record_pcs s v e = (step me trace s, next me trace here, pc_self me s _ _ e refl)

    gets_record_cpu : Gets (locking record_cpu)
    gets_record_cpu = gets_before _ (locking record_pcs) (λ s v e. refl) gets_record_pcs

    -- Where no CPU is past the xchg, the lock is free.
    free_lock :
        (s : System) (o : Option ℕ) → Owned o s → ((j : ℕ) → part (s.pc j) ≡ apart) → o ≡ none
    free_lock s none inv h = refl
    free_lock s (some w) inv h = absurd (at_apart (part (s.pc w)) (h w) (inv.fits w))
      where
        at_apart : (q : Part) → q ≡ apart → Fits (some w) s.lock.cpu w q → ⊥
        at_apart apart e f = f refl
        at_apart owner e f = cc
        at_apart named_owner e f = cc
        at_apart lost e f = f

    test-locked : (s : System) → Alone s → part (s.pc me) ≡ apart → (s.lock.locked == 0) ≡ true
    test-locked s ((o, inv), others) mine = zero_taken o (free_lock s o inv all) inv.is_locked
      where
        all : (j : ℕ) → part (s.pc j) ≡ apart
        all j = elim (Bool-cases (me == j)) [
          | inl t ↦ let e : me ≡ j = (==_iff me j).0 t in rw (← e) mine
          | inr t ↦ others j (λ e. test→ne me j t (sym e))
        ]

        zero_taken :
            (x : Option ℕ) → x ≡ none → s.lock.locked ≡ taken x → (s.lock.locked == 0) ≡ true
        zero_taken none h e = rw e
        zero_taken (some y) h e = absurd cc

    gets_exchange : Gets (locking exchange)
    gets_exchange =
        gets_before _ (locking record_cpu) (λ s v e. rw (test-locked s v (ap part e)))
          gets_record_cpu

    gets_test_cpu : Gets (locking test_cpu)
    gets_test_cpu =
        gets_before _ (locking exchange)
          (λ s ((o, inv), others) e. rw (is_cpu-apart o s me trace inv (named_at me s o _ inv e)))
          gets_exchange

    gets_test_locked : Gets (locking test_locked)
    gets_test_locked =
        gets_before _ (locking exchange) (λ s v e. rw (test-locked s v (ap part e))) gets_exchange

    gets : (p : LockPc) → Gets (locking p)
    gets test_locked = gets_test_locked
    gets test_cpu = gets_test_cpu
    gets exchange = gets_exchange
    gets record_cpu = gets_record_cpu
    gets record_pcs = gets_record_pcs

    apart_from :
        (s : System) (o : Option ℕ) (j : ℕ)
        → o ≢ some j
        → (q : Part) → Fits o s.lock.cpu j q
        → q ≡ apart
    apart_from s o j n apart f = refl
    apart_from s o j n owner f = absurd (n f.0)
    apart_from s o j n named_owner f = absurd (n f.0)
    apart_from s o j n lost f = absurd f

    gets_from :
        (p : LockPc) (s : System) (o : Option ℕ) → Owned o s → s.pc me ≡ locking p → Enters me s
    gets_from p s none inv e =
        gets p s ((none, inv), λ j n. apart_from s none j (λ h. cc) (part (s.pc j)) (inv.fits j)) e
    gets_from p s (some w) inv e = elim (Bool-cases (w == me)) [
      | inl t ↦
          let x : w ≡ me = (==_iff w me).0 t in
          gets p s
            ((some w, inv), λ j n. apart_from s (some w) j (λ h. n cc) (part (s.pc j)) (inv.fits j))
            e
      | inr t ↦
          let l = Frees-owner w s inv (s.pc w) refl (inv.fits w) in
          let other : me ≢ w = λ h. test→ne w me t (sym h) in
          let (u, r, at) =
            gets p l.end
              (
                l.owned,
                λ j n. elim (Bool-cases (w == j)) [
                  | inl q ↦ let x : w ≡ j = (==_iff w j).0 q in rw (← x) (rw l.out)
                  | inr q ↦
                      ap part (l.others j (λ h. test→ne w j q (sym h)))
                      ∙ apart_from s (some w) j (λ h. test→ne w j q cc) (part (s.pc j)) (inv.fits j)
                ],
              )
              (l.others me other ∙ e) in
          (u, Reach-trans l.run r, at)
    ]

  -- No CPU waits for a lock that cannot be had: from each state that the CPUs reach, where a CPU is in
  -- spin_lock, there is a run to a state where it is inside the critical section.
  pub spin_lock-Enters :
      (lk : Spinlock) {s : System} (me : ℕ) (p : LockPc)
      → Reach (start lk) s
      → s.pc me ≡ locking p
      → Enters me s
  spin_lock-Enters lk {s} me p r e = let (o, inv) = Reach-Owned lk r in gets_from me p s o inv e
