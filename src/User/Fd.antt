-- ===== src/User/Fd.antt =====
-- File descriptors of lab/lib/fd.c: a descriptor is in use if its page of the descriptor area is
-- mapped.
use adv_os_jos.Prelude.{
  ℕ, zero, suc, ◌+◌, ◌-◌, ◌*◌, ◌/◌, ◌%◌, ◌^◌, ◌<◌, ◌≤◌, ◌≡◌, refl, Bool, true, false, not, ◌&&◌,
  ◌⊎◌, inl, inr, Option, none, some, ◌==◌, ==_iff, leb, lt→leb, Bool-cases, arith, if◌then◌else◌, ℤ,
  pos, neg, negsuc,
}

abbrev pub maxfd : ℕ
maxfd = 32

abbrev pub fdtable : ℕ
fdtable = 0xd0000000

abbrev pub filedata : ℕ
filedata = fdtable + maxfd * 4096

abbrev pub e_inval_fd : ℕ
e_inval_fd = 3

abbrev pub e_max_open : ℕ
e_max_open = 10

-- INDEX2FD
abbrev pub index2fd : ℕ → ℕ
index2fd i = fdtable + i * 4096

-- INDEX2DATA
abbrev pub index2data : ℕ → ℕ
index2data i = filedata + i * 4096

-- `(uintptr_t) fd - FDTABLE) / PGSIZE`, in 32 bits
abbrev pub fd2num : (fd : ℕ) → ℕ
fd2num fd = (fd + 2 ^ 32 - fdtable) % 2 ^ 32 / 4096

abbrev pub fd2data : (fd : ℕ) → ℕ
fd2data fd = index2data (fd2num fd)

-- The two levels of the page tables, as UVPT shows them: is a table there, and is a page there?
abbrev pub is_mapped : (uvpd uvpt : ℕ → Bool) → (va : ℕ) → Bool
is_mapped uvpd uvpt va = uvpd (va / 2 ^ 22) && uvpt (va / 2 ^ 12)

module _ (uvpd uvpt : ℕ → Bool) where
  -- The loop of fd_alloc, from `i` with `n` rounds left: the result and `*fd_store`, 0 for NULL.
  fd_from : (n i : ℕ) → ℤ × ℕ
  fd_from zero i = (neg e_max_open, 0)
  fd_from (suc n) i =
      let rest = fd_from n (i + 1) in
      if not (is_mapped uvpd uvpt (index2fd i)) then (pos 0, index2fd i) else rest

  unfoldable pub fd_alloc : ℤ × ℕ
  unfolding fd_from
  fd_alloc = fd_from maxfd 0

  -- The result and `*fd_store`, `none` where that is not written.
  unfoldable pub fd_lookup : (fdnum : ℤ) → ℤ × Option ℕ
  fd_lookup (negsuc n) = (neg e_inval_fd, none)
  fd_lookup (pos n) =
      if leb maxfd n
      then (neg e_inval_fd, none)
      else if not (is_mapped uvpd uvpt (index2fd n))
      then (neg e_inval_fd, none)
      else (pos 0, some (index2fd n))

  abbrev fd_used : ℕ → Bool
  fd_used i = is_mapped uvpd uvpt (index2fd i)

  fd_from_lem :
      (n i : ℕ)
      → ((d : ℕ) × (i ≤ d)
          × (d < i + n)
          × (fd_from n i ≡ (pos 0, index2fd d))
          × (fd_used d ≡ false)
          × ((e : ℕ) → i ≤ e → e < d → fd_used e ≡ true))
        ⊎ ((fd_from n i ≡ (neg e_max_open, 0)) × ((e : ℕ) → i ≤ e → e < i + n → fd_used e ≡ true))
  unfolding fd_from
  fd_from_lem zero i = inr (refl, λ e lo hi. absurd (omega arith))
  fd_from_lem (suc n) i = elim (Bool-cases (fd_used i)) [
    | inr t ↦ rw t (inl (i, omega arith, omega arith, refl, t, λ e lo hi. absurd (omega arith)))
    | inl t ↦ rw t (elim (fd_from_lem n (i + 1)) [
      | inl (d, lo, hi, r, unused, before) ↦
          inl (d, omega arith, omega arith, r, unused, later d t before)
      | inr (r, all_used) ↦ inr (r, later (i + suc n) t (λ e lo hi. all_used e lo (omega arith)))
    ])
  ]
    where
      later :
          (d : ℕ)
          → fd_used i ≡ true
          → ((e : ℕ) → i + 1 ≤ e → e < d → fd_used e ≡ true)
          → (e : ℕ) → i ≤ e
          → e < d
          → fd_used e ≡ true
      later d t before e lo hi = elim (Bool-cases (i == e)) [
        | inl same ↦ rw (← (==_iff i e).0 same) t
        | inr ne ↦ before e (ground arith) hi
      ]

  fd_lookup_used :
      (e : ℕ) → e < maxfd → fd_used e ≡ true → fd_lookup (pos e) ≡ (pos 0, some (index2fd e))
  unfolding fd_lookup
  fd_lookup_used e lt used = rw (lt→leb e maxfd lt, used) refl

  fd_lookup_unused :
      (d : ℕ) → d < maxfd → fd_used d ≡ false → fd_lookup (pos d) ≡ (neg e_inval_fd, none)
  unfolding fd_lookup
  fd_lookup_unused d lt unused = rw (lt→leb d maxfd lt, unused) refl

  -- What fd_alloc comes to.
  abbrev pub FdOutcome : Type 0
  FdOutcome =
      ((d : ℕ) × (d < maxfd)
        × (fd_alloc ≡ (pos 0, index2fd d))
        × (fd2num (index2fd d) ≡ d)
        × (fd_lookup (pos d) ≡ (neg e_inval_fd, none))
        × ((e : ℕ) → e < d → fd_lookup (pos e) ≡ (pos 0, some (index2fd e))))
      ⊎ ((fd_alloc ≡ (neg e_max_open, 0))
          × ((e : ℕ) → e < maxfd → fd_lookup (pos e) ≡ (pos 0, some (index2fd e))))

  -- fd_alloc returns the page of the lowest descriptor that fd_lookup refuses, from which fd2num
  -- gets its number back; or fd_lookup finds every descriptor, and fd_alloc returns -E_MAX_OPEN with
  -- a null page.
  pub fd_alloc_lem : FdOutcome
  unfolding fd_alloc
  fd_alloc_lem = elim (fd_from_lem maxfd 0) [
    | inl (d, lo, hi, r, unused, before) ↦ inl (
      d,
      hi,
      r,
      omega arith,
      fd_lookup_unused d hi unused,
      λ e lt. fd_lookup_used e (omega arith) (before e (omega arith) lt),
    )
    | inr (r, all_used) ↦ inr (r, λ e lt. fd_lookup_used e lt (all_used e (omega arith) lt))
  ]
