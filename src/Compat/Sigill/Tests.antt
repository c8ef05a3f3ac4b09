-- ===== src/Compat/Sigill/Tests.antt =====
-- The theorem on the SIGILL handler at a trap in Thumb state.
use atlantic_engine.Base.{◌+◌, ◌%◌, ◌^◌, ◌≡◌, refl, true, false, arith}
use atlantic_engine.Compat.Sigill.{arm, other, Process, install_handler, trap}
use atlantic_engine.Compat.Sigill.Once.{skipped, trap-install_handler}

abbrev in_thumb : Process
in_thumb = record { pc = 4096; cpsr = 32; action = other 1; old_sa = other 0 }

trap_example :
    let first = trap arm (install_handler in_thumb) in
    (first.1 ≡ true)
    × (first.0.action ≡ other 1)
    × (first.0.pc ≡ (4096 + skipped arm true) % 2 ^ 32)
    × (first.0.cpsr ≡ 32)
    × ((trap arm first.0).1 ≡ false)
trap_example = trap-install_handler arm in_thumb 1 0 0 true refl (omega arith) refl
