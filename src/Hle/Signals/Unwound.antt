-- ===== src/Hle/Signals/Unwound.antt =====
-- Where `sigsegv_handler` (crates/core/src/hle/dispatcher.rs) lets a thread go on, and how often.
use anotherps4_emulator.Common.{
  ℕ, zero, suc, ◌<◌, ◌≡◌, ◌≢◌, refl, ◌⊎◌, inl, inr, true, not, ◌&&◌, ◌==◌, ltb, arith, Bool-cases,
}
use anotherps4_emulator.Types.{add64}
use anotherps4_emulator.Hle.Bytes.{Bytes, fetch}
use anotherps4_emulator.Hle.Signals.{Registers, Context, resumed, restored_fs}
use anotherps4_emulator.Hle.Signals.Fault.{
  Frame, in_guest, unwind, or_stack, sigsegv_handler, max_sigsegv_recoveries,
}

-- What the walk finds lies in the guest's code.
unwind-in_guest :
    (depth rbp : ℕ) (bytes : Bytes)
    → ((unwind depth rbp bytes).found_ret ≡ 0)
      ⊎ (in_guest (unwind depth rbp bytes).found_ret ≡ true)
unfolding unwind
unwind-in_guest zero rbp bytes = inl refl
unwind-in_guest (suc depth) rbp bytes =
    let ih = unwind-in_guest depth (fetch 8 rbp bytes) bytes in ground (arith, ih)

or_stack-in_guest :
    (regs : Registers) (bytes : Bytes) (frame : Frame)
    → (frame.found_ret ≡ 0) ⊎ (in_guest frame.found_ret ≡ true)
    → ((or_stack regs bytes frame).found_ret ≡ 0)
      ⊎ (in_guest (or_stack regs bytes frame).found_ret ≡ true)
unfolding or_stack
or_stack-in_guest regs bytes frame h = ground (arith, h)

-- Whenever the handler of SIGSEGV lets a thread go on, fewer than 512 faults came before, it goes on
-- inside of the range of guest code with 0 in RAX, and its memory and its FS base, if it had one, are
-- as they were.
pub sigsegv_handler_lem :
    (count host_fs : ℕ) (a b : Context)
    → (sigsegv_handler count host_fs a).1 ≡ resumed b
    → (count < max_sigsegv_recoveries)
      × (in_guest b.regs.rip ≡ true)
      × (b.regs.rax ≡ 0)
      × (b.bytes ≡ a.bytes)
      × (a.fs ≢ 0 → b.fs ≡ a.fs)
unfolding sigsegv_handler
sigsegv_handler_lem count host_fs a b e =
    let frame : Frame = or_stack a.regs a.bytes (unwind 16 a.regs.rbp a.bytes) in
    let inside =
      or_stack-in_guest a.regs a.bytes (unwind 16 a.regs.rbp a.bytes)
        (unwind-in_guest 16 a.regs.rbp a.bytes) in
    elim (Bool-cases (ltb count max_sigsegv_recoveries && not (frame.found_ret == 0))) [
      | inr fatal ↦ absurd (ground arith)
      | inl found ↦
          let b' : Context = record a {
            regs = record a.regs {
              rip = frame.found_ret;
              rbp = frame.found_rbp;
              rsp = add64 frame.frame_rbp 16;
              rax = 0;
            };
            fs = restored_fs a.fs host_fs;
          } in
          let same : b' ≡ b = ground arith in
          let code : in_guest frame.found_ret ≡ true = ground (arith, inside, found) in
          rw (← same) (ground (arith, found), code, refl, refl, λ h. ground arith)
    ]
