-- ===== src/Kern/Env/Alloc.antt =====
-- The ids that env_alloc of lab/kern/env.c hands out.
use adv_os_jos.Prelude.{
  ℕ, ◌+◌, ◌-◌, ◌/◌, ◌%◌, ◌^◌, ◌<◌, ◌≡◌, ◌≢◌, ap, ◌∙◌, ◌*◌, bit_and, bit_or, true, false, ◌||◌, ◌==◌,
  leb, Bool-cases, inl, inr, arith,
}
use adv_os_jos.Prelude.Words.{bit_and_low, bit_and_high, bit_or_packed}
use adv_os_jos.Kern.Machine.{nenv, envgenshift}
use adv_os_jos.Kern.Env.{next_id, envx}

-- the generation that next_id computes
abbrev generation : ℕ → ℕ
generation id = bit_and ((id + 2 ^ envgenshift) % 2 ^ 32) (2 ^ 32 - nenv)

generation_lem : (id : ℕ) → generation id ≡ (id + 4096) % 2 ^ 32 / 1024 % 2 ^ 22 * 1024
generation_lem id =
    bit_and_high 10 ((id + 4096) % 2 ^ 32) (2 ^ 22 - 1)
    ∙ ap (λ (t : ℕ). t * 1024) (bit_and_low 22 ((id + 4096) % 2 ^ 32 / 1024))

-- an id of a generation `q * 1024` and the slot `e`
id_of :
    (q e id : ℕ)
    → e < nenv
    → 0 < q
    → q < 2 ^ 21
    → q * 1024 + e ≢ id
    → (0 < bit_or (q * 1024) e)
      × (bit_or (q * 1024) e < 2 ^ 31)
      × (envx (bit_or (q * 1024) e) ≡ e)
      × (bit_or (q * 1024) e ≢ id)
id_of q e id he hq small ne =
    let packed : bit_or (q * 1024) e ≡ q * 1024 + e = bit_or_packed 10 q e he in
    rw packed (omega arith, omega arith, omega (arith, bit_and_low 10 (q * 1024 + e)), ne)

-- The id that env_alloc gives to slot `e` is positive as an `int32_t`, has the slot as its index, and
-- is not the id that the slot had before, if that was such an id of the slot or 0.
pub next_id_lem :
    (id e : ℕ)
    → e < nenv
    → id < 2 ^ 31
    → (0 < next_id id e) × (next_id id e < 2 ^ 31) × (envx (next_id id e) ≡ e) × (next_id id e ≢ id)
next_id_lem id e he hid = elim (Bool-cases (generation id == 0 || leb (2 ^ 31) (generation id))) [
  | inl over ↦ rw over (id_of 4 e id he (omega arith) (omega arith) (far over))
  | inr next ↦
      rw (next, generation_lem id)
        (id_of ((id + 4096) % 2 ^ 32 / 1024 % 2 ^ 22) e id he
          (omega (arith, below next, generation_lem id))
          (omega (arith, below next, generation_lem id))
          (omega (arith, below next, generation_lem id)))
]
  where
    far : generation id == 0 || leb (2 ^ 31) (generation id) ≡ true → 4 * 1024 + e ≢ id
    far h = ground (arith, generation_lem id)

    below :
        generation id == 0 || leb (2 ^ 31) (generation id) ≡ false
        → (0 < generation id) × (generation id < 2 ^ 31)
    below h = ground arith
