-- ===== src/Compat/Sigill/Once.antt =====
-- The handler handles one trap.
use atlantic_engine.Base.{
  ℕ, ◌+◌, ◌*◌, ◌%◌, ◌^◌, ◌<◌, ◌≡◌, refl, ap, ◌∙◌, Bool, true, false, if◌then◌else◌, arith,
}
use atlantic_engine.Compat.Sigill.{
  Arch, aarch64, arm, other, Process, install_handler, instruction_size, word_bits, sigill_skip,
  dispatch, trap,
}

-- The handler's rule, on the bits of a CPSR: `high` from bit 6 on, bit 5, and `low` below.
unfoldable pub skipped : Arch → Bool → ℕ
skipped arm true = 2
skipped _ _ = 4

size-skipped :
    (a : Arch) (high low : ℕ) (thumb : Bool)
    → low < 32
    → instruction_size a (high * 64 + (if thumb then 32 else 0) + low) ≡ skipped a thumb
unfolding instruction_size skipped
size-skipped aarch64 high low true small = refl
size-skipped aarch64 high low false small = refl
size-skipped arm high low true small = ground arith
size-skipped arm high low false small = ground arith

-- After the handler is installed, the first trap is stepped over: on 32-bit ARM with bit 5 of the CPSR
-- set the program counter goes on by 2, and else by 4, round the size of a machine word. It puts back
-- the disposition that was there before and keeps the CPSR, so a second trap is not handled.
pub trap-install_handler :
    (a : Arch) (p : Process) (h high low : ℕ) (thumb : Bool)
    → p.action ≡ other h
    → low < 32
    → p.cpsr ≡ high * 64 + (if thumb then 32 else 0) + low
    → let first = trap a (install_handler p) in
      (first.1 ≡ true)
      × (first.0.action ≡ p.action)
      × (first.0.pc ≡ (p.pc + skipped a thumb) % 2 ^ word_bits a)
      × (first.0.cpsr ≡ p.cpsr)
      × ((trap a first.0).1 ≡ false)
unfolding trap dispatch install_handler sigill_skip
trap-install_handler a p h high low thumb e small bits = (
  refl,
  refl,
  ap (λ n. (p.pc + n) % 2 ^ word_bits a)
      (ap (instruction_size a) bits ∙ size-skipped a high low thumb small),
  refl,
  rw e,
)
