-- ===== src/Hle/Signals/Tests.antt =====
-- Runs and witnesses for the signal handlers: a patched `syscall`, the call of a stub, and a fault.
use anotherps4_emulator.Common.{
  ℕ, ◌+◌, ◌<◌, ◌≡◌, ◌≢◌, refl, sym, ap, [], ◌∷◌, none, some, true, false, arith,
}
use anotherps4_emulator.Common.Text.{codes}
use anotherps4_emulator.Hle.Bytes.{Bytes, fetch, store, copy}
use anotherps4_emulator.Hle.Stubs.{StubAllocator, Name, allocate_stub, next_stub, is_stub}
use anotherps4_emulator.Hle.Stubs.Lookup.{IsWellFormed}
use anotherps4_emulator.Hle.Syscalls.{is_syscall, patch_syscalls}
use anotherps4_emulator.Hle.Signals.{
  is_ud2, Args, Registers, Context, Outcome, resumed, exited, sigill_handler, is_float_function,
}
use anotherps4_emulator.Hle.Signals.Fault.{in_guest, sigsegv_handler, unwind, or_stack}
use anotherps4_emulator.Hle.Signals.Resumed.{Resumes, sigill_handler-Resumes}
use anotherps4_emulator.Hle.Signals.Composed.{
  outcome_of_call, sigill_handler-patch_syscalls, sigill_handler-allocate_stub,
}
use anotherps4_emulator.Hle.Signals.Unwound.{sigsegv_handler_lem}

abbrev regs : Registers
regs = record {
  rax = 20;
  rcx = 4;
  rdx = 3;
  rdi = 1;
  rsi = 2;
  r8 = 5;
  r9 = 6;
  r10 = 7;
  rbp = 0x2000;
  rsp = 0x3000;
  rip = 0x101;
  fpregs = none;
}

-- `syscall` at 0x101, in a region of four bytes.
abbrev code : Bytes
code = copy (0x90 ∷ 0x0f ∷ 0x05 ∷ 0xc3 ∷ []) 0x100 (λ at. 0)

abbrev patched : Context
patched = record { regs = regs; bytes = (patch_syscalls 0x100 4 code).0; fs = 9 }

-- An exported function that answers its first argument and one.
abbrev dispatch : Name → Args → Bytes → ℕ × Bytes
dispatch name args bytes = (args.rdi + 1, bytes)

abbrev behind : Context
behind = record patched { regs = record regs { rax = 0; rip = 0x103 } }

is_call : is_syscall code 0x101 ≡ true
unfolding copy
is_call = refl

no_stub : is_stub none 0x101 ≡ false
unfolding is_stub
no_stub = refl

sigill_handler-patch_syscalls_example : sigill_handler dispatch none 8 patched ≡ resumed behind
sigill_handler-patch_syscalls_example =
    sigill_handler-patch_syscalls dispatch 8 (ground arith) patched none 0x100 4 code (omega arith)
      (omega arith) (omega arith) is_call refl no_stub (ground arith)

sigill_handler-Resumes_example : Resumes none patched behind
sigill_handler-Resumes_example =
    sigill_handler-Resumes dispatch none 8 patched behind sigill_handler-patch_syscalls_example

abbrev stubs : StubAllocator
stubs = record { base = 0x5000; used = 1; names = codes "malloc" ∷ [] }

stubs-IsWellFormed : IsWellFormed stubs
stubs-IsWellFormed = record { region = omega arith; room = omega arith; named = refl }

-- The return address is on top of the stack.
abbrev calling : Context
calling = record {
  regs = record regs { rip = 0x5010 };
  bytes = store 8 0x3000 0x777 (copy (0x0f ∷ 0x0b ∷ []) 0x5010 (λ at. 0));
  fs = 0;
}

calling_facts : (fetch 8 0x3000 calling.bytes ≡ 0x777) × (is_ud2 calling.bytes 0x5010 ≡ true)
unfolding copy store fetch
calling_facts = (refl, refl)

free_address : (allocate_stub (some stubs) (codes "free")).0 ≡ 0x5010
unfolding allocate_stub next_stub
free_address = refl

sigill_handler-allocate_stub_example :
    sigill_handler dispatch (allocate_stub (some stubs) (codes "free")).1 8 calling
    ≡ resumed (record {
      regs = record calling.regs { rax = 2; rip = fetch 8 0x3000 calling.bytes; rsp = 0x3008 };
      bytes = calling.bytes;
      fs = 8;
    })
unfolding is_float_function
sigill_handler-allocate_stub_example =
    sigill_handler-allocate_stub dispatch 8 (ground arith) calling stubs (codes "free")
      stubs-IsWellFormed (omega arith) (sym free_address) calling_facts.1

-- A call of `exit` ends the program, and `floorf` answers in XMM0.
abbrev floating : Context
floating = record calling {
  regs = record calling.regs { fpregs = some (record { xmm0 = 4; xmm0_high = 5; xmm1 = 6 }) };
}

exit_run : outcome_of_call dispatch 8 calling (codes "exit") ≡ exited
exit_run = refl

floorf_run :
    outcome_of_call dispatch 8 floating (codes "floorf")
    ≡ resumed (record {
      regs = record calling.regs {
        rax = 0;
        rip = fetch 8 0x3000 calling.bytes;
        rsp = 0x3008;
        fpregs = some (record { xmm0 = 2; xmm0_high = 0; xmm1 = 6 });
      };
      bytes = calling.bytes;
      fs = 8;
    })
unfolding is_float_function
floorf_run = refl

-- A frame of the guest's code at 0x2000.
abbrev faulting : Context
faulting = record {
  regs = record regs { rip = 0 };
  bytes = store 8 0x2000 0x2100 (store 8 0x2008 0x10_0000_0040 (λ at. 0));
  fs = 9;
}

abbrev recovered : Context
recovered = record faulting {
  regs = record faulting.regs { rip = 0x10_0000_0040; rbp = 0x2100; rsp = 0x2010; rax = 0 };
}

fault_run : sigsegv_handler 3 8 faulting ≡ (4, resumed recovered)
unfolding sigsegv_handler unwind or_stack fetch store
fault_run = refl

sigsegv_handler_lem_example :
    (3 < 512)
    × (in_guest recovered.regs.rip ≡ true)
    × (recovered.regs.rax ≡ 0)
    × (recovered.bytes ≡ faulting.bytes)
    × (faulting.fs ≢ 0 → recovered.fs ≡ faulting.fs)
sigsegv_handler_lem_example =
    sigsegv_handler_lem 3 8 faulting recovered (ap (λ (r : ℕ × Outcome). r.1) fault_run)

-- With the return address on top of the stack and no frame, the stack pointer is taken from the last frame all the
-- same.
abbrev frameless : Context
frameless = record {
  regs = record regs { rip = 0; rbp = 0 };
  bytes = store 8 0x3000 0x10_0000_0040 (λ at. 0);
  fs = 9;
}

frameless_run :
    (sigsegv_handler 0 8 frameless).1
    ≡ resumed (record frameless {
      regs = record frameless.regs { rip = 0x10_0000_0040; rbp = 0; rsp = 16; rax = 0 };
    })
unfolding sigsegv_handler unwind or_stack fetch store
frameless_run = refl
