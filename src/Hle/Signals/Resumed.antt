-- ===== src/Hle/Signals/Resumed.antt =====
-- What `sigill_handler` (crates/core/src/hle/dispatcher.rs) does to a thread: when it goes on, where, and with which
-- registers.
use anotherps4_emulator.Common.{
  ℕ, ◌≡◌, ◌≢◌, refl, Option, true, false, ◌==◌, arith, Bool-cases, Option-cases, inl, inr,
  if◌then◌else◌,
}
use anotherps4_emulator.Types.{add64}
use anotherps4_emulator.Hle.Bytes.{Bytes, fetch}
use anotherps4_emulator.Hle.Stubs.{StubAllocator, Name, is_stub, get_stub_index, get_stub_name}
use anotherps4_emulator.Hle.Signals.{
  Args, Registers, Context, resumed, exited, args_of, return_from_stub, hle_export_dispatcher,
  is_ud2, sigill_handler, sigill_minimal, call_stub, hle_syscall_dispatcher, is_float_function,
  index_or_zero, emulate_ret, skip_ud2, restored_fs,
}

-- The registers that no handler changes.
abbrev pub Kept : Registers → Registers → Type 0
Kept a b =
    (b.rcx ≡ a.rcx)
    × (b.rdx ≡ a.rdx)
    × (b.rdi ≡ a.rdi)
    × (b.rsi ≡ a.rsi)
    × (b.r8 ≡ a.r8)
    × (b.r9 ≡ a.r9)
    × (b.r10 ≡ a.r10)
    × (b.rbp ≡ a.rbp)

-- A thread goes on: at a stub behind the call, which was popped, and elsewhere behind `ud2`.
pub record Resumes (stubs : Option StubAllocator) (a b : Context) : Type 0 where
  pub trapped : is_ud2 a.bytes a.regs.rip ≡ true
  pub kept : Kept a.regs b.regs
  pub fs : a.fs ≢ 0 → b.fs ≡ a.fs
  pub rip :
      b.regs.rip
      ≡ (if is_stub stubs a.regs.rip then fetch 8 a.regs.rsp b.bytes else add64 a.regs.rip 2)
  pub rsp : b.regs.rsp ≡ (if is_stub stubs a.regs.rip then add64 a.regs.rsp 8 else a.regs.rsp)
  pub bytes : is_stub stubs a.regs.rip ≡ false → b.bytes ≡ a.bytes

module _ (dispatch : Name → Args → Bytes → ℕ × Bytes) (stubs : Option StubAllocator)
    (host_fs : ℕ) where
  return_from_stub-Resumes :
      (a : Context) (stub_name : Name) (answer : ℕ × Bytes)
      → is_ud2 a.bytes a.regs.rip ≡ true
      → is_stub stubs a.regs.rip ≡ true
      → Resumes stubs a (return_from_stub stub_name host_fs answer a)
  return_from_stub-Resumes a stub_name (result, bytes) trap stub =
      elim (Bool-cases (is_float_function stub_name)) [
        | inl float ↦ rw (float) record {
          trapped = trap;
          kept = (refl, refl, refl, refl, refl, refl, refl, refl);
          fs = λ h. ground arith;
          rip = rw (stub) refl;
          rsp = rw (stub) refl;
          bytes = λ h. absurd (ground arith);
        }
        | inr whole ↦ rw (whole) record {
          trapped = trap;
          kept = (refl, refl, refl, refl, refl, refl, refl, refl);
          fs = λ h. ground arith;
          rip = rw (stub) refl;
          rsp = rw (stub) refl;
          bytes = λ h. absurd (ground arith);
        }
      ]

  call_stub-Resumes :
      (a b : Context)
      → is_ud2 a.bytes a.regs.rip ≡ true
      → is_stub stubs a.regs.rip ≡ true
      → call_stub dispatch stubs host_fs a ≡ resumed b
      → Resumes stubs a b
  unfolding call_stub
  call_stub-Resumes a b trap stub e =
      let stub_name : Name =
        get_stub_name stubs (index_or_zero (get_stub_index stubs a.regs.rip)) in
      elim (Option-cases (hle_export_dispatcher dispatch stub_name (args_of a) a.bytes)) [
        | inl ended ↦
            let e' : exited ≡ resumed b = rw (call_stub, ended) at e in absurd (ground arith)
        | inr (answer, returned) ↦
            let e' : resumed (return_from_stub stub_name host_fs answer a) ≡ resumed b =
              rw (call_stub, returned) at e in
            let same : return_from_stub stub_name host_fs answer a ≡ b = ground arith in
            rw (← same) (return_from_stub-Resumes a stub_name answer trap stub)
      ]

  minimal-Resumes : (a b : Context) → sigill_minimal stubs a ≡ resumed b → Resumes stubs a b
  unfolding sigill_minimal
  minimal-Resumes a b e = elim (Bool-cases (is_ud2 a.bytes a.regs.rip)) [
    | inr other ↦ absurd (ground arith)
    | inl trap ↦ elim (Bool-cases (is_stub stubs a.regs.rip)) [
      | inl stub ↦
          let e' : resumed (record a { regs = emulate_ret 0 a.bytes a.regs }) ≡ resumed b =
            rw (sigill_minimal, trap, stub) at e in
          let same : record a { regs = emulate_ret 0 a.bytes a.regs } ≡ b = ground arith in
          rw (← same) record {
            trapped = trap;
            kept = (refl, refl, refl, refl, refl, refl, refl, refl);
            fs = λ h. refl;
            rip = rw (stub) refl;
            rsp = rw (stub) refl;
            bytes = λ h. refl;
          }
      | inr code ↦
          let e' : resumed (record a { regs = skip_ud2 0 a.regs }) ≡ resumed b =
            rw (sigill_minimal, trap, code) at e in
          let same : record a { regs = skip_ud2 0 a.regs } ≡ b = ground arith in
          rw (← same) record {
            trapped = trap;
            kept = (refl, refl, refl, refl, refl, refl, refl, refl);
            fs = λ h. refl;
            rip = rw (code) refl;
            rsp = rw (code) refl;
            bytes = λ h. refl;
          }
    ]
  ]

  -- Whenever the handler of SIGILL lets a thread go on, it stood at ud2; at a stub it goes on at the
  -- return address on its stack, which is popped, and elsewhere behind ud2 with the stack pointer and
  -- the memory as they were; the registers other than RAX, RIP, RSP and those of the floating point
  -- unit are as they were, and so is its FS base, if it had one.
  pub sigill_handler-Resumes :
      (a b : Context) → sigill_handler dispatch stubs host_fs a ≡ resumed b → Resumes stubs a b
  unfolding sigill_handler hle_syscall_dispatcher
  sigill_handler-Resumes a b e = elim (Bool-cases (host_fs == 0)) [
    | inl lost ↦ minimal-Resumes a b (rw (sigill_handler, lost) at e)
    | inr host ↦ elim (Bool-cases (is_ud2 a.bytes a.regs.rip)) [
      | inr other ↦ absurd (ground arith)
      | inl trap ↦ elim (Bool-cases (is_stub stubs a.regs.rip)) [
        | inl stub ↦ call_stub-Resumes a b trap stub (rw (sigill_handler, host, trap, stub) at e)
        | inr code ↦ elim (Bool-cases (a.regs.rax == 1)) [
          | inl exit ↦ absurd (ground arith)
          | inr call ↦
              let b' : Context = record a {
                regs = skip_ud2 0 a.regs;
                fs = restored_fs a.fs host_fs;
              } in
              let same : b' ≡ b = ground arith in
              rw (← same) record {
                trapped = trap;
                kept = (refl, refl, refl, refl, refl, refl, refl, refl);
                fs = λ h. ground arith;
                rip = rw (code) refl;
                rsp = rw (code) refl;
                bytes = λ h. refl;
              }
        ]
      ]
    ]
  ]
