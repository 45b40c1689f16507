-- ===== src/Kern/Boot.antt =====
-- The page directory and page table of lab/kern/entrypgdir.c, which entry.S runs on before
-- lab/kern/pmap.c sets up its own.
pub mod Identity
mod Tests
use adv_os_jos.Prelude.{ℕ, ◌+◌, ◌-◌, ◌*◌, ◌/◌, ◌%◌, ◌^◌, bit_or, ◌==◌, if◌then◌else◌}
use adv_os_jos.Kern.Machine.{kernbase, pte_p, pte_w}

-- entry_pgdir, with the address of entry_pgtable.
unfoldable pub entry_pgdir : (entry_pgtable_va : ℕ) → ℕ → ℕ
entry_pgdir entry_pgtable_va d =
    if d == 0
    then (entry_pgtable_va - kernbase) + pte_p
    else if d == kernbase / 2 ^ 22
    then (entry_pgtable_va - kernbase) + pte_p + pte_w
    else 0

-- entry_pgtable: its 1024 entries by their index.
unfoldable pub entry_pgtable : ℕ → ℕ
entry_pgtable i = bit_or (i * 0x1000) (bit_or pte_p pte_w)
