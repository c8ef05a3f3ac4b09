-- ===== src/Compat/Sigill.antt =====
-- shims/compat/libsigill_skip.c: the SIGILL handler that steps over one trap.
pub mod Once
mod Tests
use atlantic_engine.Base.{ℕ, ◌+◌, ◌/◌, ◌%◌, ◌^◌, Bool, true, false, ◌==◌, if◌then◌else◌}

-- The two architectures that the file compiles for.
pub data Arch : Type 0 where
  aarch64 arm : Arch

-- The disposition of SIGILL: this library's handler, or any other.
pub data Action : Type 0 where
  skip : Action
  other : ℕ → Action

-- The registers that the handler reads or writes, the disposition, and the static `old_sa`.
pub record Process : Type 0 where
  pub pc : ℕ
  pub cpsr : ℕ
  pub action : Action
  pub old_sa : Action

-- `sigaction (SIGILL, &sa, &old_sa)`
pub install_handler : Process → Process
install_handler p = record p { action = skip; old_sa = p.action }

-- The bytes to step over: on 32-bit ARM 2 in Thumb state (bit 5 of the CPSR), else 4.
pub instruction_size : Arch → ℕ → ℕ
instruction_size aarch64 cpsr = 4
instruction_size arm cpsr = if cpsr / 2 ^ 5 % 2 == 1 then 2 else 4

-- The program counter is a machine word.
abbrev pub word_bits : Arch → ℕ
word_bits aarch64 = 64
word_bits arm = 32

pub sigill_skip : Arch → Process → Process
sigill_skip a p = record p {
  pc = (p.pc + instruction_size a p.cpsr) % 2 ^ word_bits a;
  action = p.old_sa;
}

dispatch : Arch → Process → Action → Process × Bool
dispatch a p skip = (sigill_skip a p, true)
dispatch a p (other h) = (p, false)

-- A trap: the process after the handler, and whether this library handled it. What another
-- disposition does is outside.
pub trap : Arch → Process → Process × Bool
trap a p = dispatch a p p.action
