-- ===== src/User/Fork/Tests.antt =====
-- The theorem on fork at one machine.
use adv_os_jos.Kern.Machine
