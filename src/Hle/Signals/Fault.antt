-- ===== src/Hle/Signals/Fault.antt =====
-- crates/core/src/hle/dispatcher.rs: the handler of SIGSEGV, which looks for a return address in the frames of the
-- guest, as a function on the state that the signal stopped.
use anotherps4_emulator.Common.{ℕ, zero, suc, Bool, not, ◌&&◌, ◌||◌, ◌==◌, ltb, leb, if◌then◌else◌}
use anotherps4_emulator.Types.{add64}
use anotherps4_emulator.Hle.Bytes.{Bytes, fetch}
use anotherps4_emulator.Hle.Signals.{Registers, Context, Outcome, resumed, aborted, restored_fs}

abbrev pub max_sigsegv_recoveries : ℕ
max_sigsegv_recoveries = 512

abbrev pub guest_base : ℕ
guest_base = 0x10_0000_0000

abbrev pub guest_end : ℕ
guest_end = 0x10_0100_0000

abbrev pub in_guest : ℕ → Bool
in_guest addr = leb guest_base addr && ltb addr guest_end

-- What the walk over the frames has found: the return address and the saved RBP, or 0, and the last frame.
pub record Frame : Type 0 where
  pub found_ret : ℕ
  pub found_rbp : ℕ
  pub frame_rbp : ℕ

unfoldable pub unwind : ℕ → ℕ → Bytes → Frame
unwind zero frame_rbp bytes = record { found_ret = 0; found_rbp = 0; frame_rbp = frame_rbp }
unwind (suc depth) frame_rbp bytes =
    let saved_rbp = fetch 8 frame_rbp bytes in
    let ret_addr = fetch 8 (add64 frame_rbp 8) bytes in
    let next = unwind depth saved_rbp bytes in
    if frame_rbp == 0 || ltb frame_rbp 0x1000
    then record { found_ret = 0; found_rbp = 0; frame_rbp = frame_rbp }
    else if in_guest ret_addr
    then record { found_ret = ret_addr; found_rbp = saved_rbp; frame_rbp = frame_rbp }
    else next

-- The return address on top of the stack, when no frame has one.
unfoldable pub or_stack : Registers → Bytes → Frame → Frame
or_stack regs bytes frame =
    let stack_ret = fetch 8 regs.rsp bytes in
    if frame.found_ret == 0 && in_guest stack_ret
    then record { found_ret = stack_ret; found_rbp = regs.rbp; frame_rbp = frame.frame_rbp }
    else frame

-- `sigsegv_handler` on the number of recoveries so far, and that number behind it.
unfoldable pub sigsegv_handler : ℕ → ℕ → Context → ℕ × Outcome
sigsegv_handler count host_fs self =
    let frame = or_stack self.regs self.bytes (unwind 16 self.regs.rbp self.bytes) in
    let outcome =
      if ltb count max_sigsegv_recoveries && not (frame.found_ret == 0)
      then resumed (record self {
        regs = record self.regs {
          rip = frame.found_ret;
          rbp = frame.found_rbp;
          rsp = add64 frame.frame_rbp 16;
          rax = 0;
        };
        fs = restored_fs self.fs host_fs;
      })
      else aborted in
    (add64 count 1, outcome)
