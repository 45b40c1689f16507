-- ===== src/Kern/Boot/Tests.antt =====
-- The theorem on the entry page directory at one memory.
use adv_os_jos.Prelude.{◌+◌, ◌*◌, ◌≡◌, some, true, refl, ◌==◌, if◌then◌else◌, arith}
use adv_os_jos.Kern.Machine.{kernbase}
use adv_os_jos.Kern.Boot.{entry_pgdir, entry_pgtable}
use adv_os_jos.Kern.Pgdir.Translate.{Memory}
use adv_os_jos.Kern.Boot.Identity.{reach, low_memory, reach-low_memory}

-- The directory in the frame 0x118, and the table in the frame 0x119.
abbrev boot_memory : Memory
boot_memory f i = if f == 0x118 then entry_pgdir (kernbase + 0x119 * 4096) i else entry_pgtable i

reach-low_memory_example : reach boot_memory 0x118 0xf0100020 ≡ low_memory 0xf0100020
reach-low_memory_example =
    reach-low_memory boot_memory 0x118 0x119
      (record { small = omega arith; dir = λ i less. refl; tab = λ i less. refl }) 0xf0100020
      (omega arith)

-- A byte of the kernel, which may be written there.
kernel_byte : reach boot_memory 0x118 0xf0100020 ≡ some (0x100020, true)
kernel_byte = reach-low_memory_example
