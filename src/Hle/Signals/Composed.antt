-- ===== src/Hle/Signals/Composed.antt =====
-- The traps of crates/core/src/hle from end to end: a `syscall` that was patched, and a call of a stub.
use anotherps4_emulator.Common.{
  ℕ, ◌+◌, ◌-◌, ◌^◌, ◌≤◌, ◌<◌, ◌≡◌, ◌≢◌, refl, Option, some, true, false, ◌==◌, ◌||◌, arith,
  if◌then◌else◌, Bool-cases, inl, inr,
}
use mathlib.Core.Path.{subst}
use anotherps4_emulator.Common.Text.{codes, str_eq}
use anotherps4_emulator.Types.{VAddr, add64}
use anotherps4_emulator.Hle.Bytes.{Bytes, fetch}
use anotherps4_emulator.Hle.Stubs.{
  StubAllocator, Name, allocate_stub, is_stub, get_stub_index, get_stub_name, max_stubs,
}
use anotherps4_emulator.Hle.Stubs.Lookup.{IsWellFormed, stub_address, allocate_stub_lem}
use anotherps4_emulator.Hle.Syscalls.{is_syscall, patch_syscalls}
use anotherps4_emulator.Hle.Syscalls.Patched.{patch_syscalls_lem}
use anotherps4_emulator.Hle.Signals.{
  Outcome, index_or_zero, Args, Context, resumed, exited, set_xmm0, hle_export_dispatcher, is_ud2,
  sigill_handler, call_stub, args_of, hle_syscall_dispatcher, is_float_function, restored_fs,
}

-- A patched `syscall` has become `ud2`.
patched-is_ud2 :
    (memory_base : VAddr) (size : ℕ) (bytes : Bytes) (at : VAddr)
    → size < 2 ^ 64
    → memory_base ≤ at
    → at + 1 < memory_base + size
    → is_syscall bytes at ≡ true
    → is_ud2 (patch_syscalls memory_base size bytes).0 at ≡ true
patched-is_ud2 memory_base size bytes at small low high call =
    let after = (patch_syscalls_lem memory_base size bytes (omega arith) small).0 in
    let back : at + 1 - 1 ≡ at = omega arith in
    let first : (patch_syscalls memory_base size bytes).0 at ≡ 0x0f = ground (arith, after at) in
    let second : (patch_syscalls memory_base size bytes).0 (at + 1) ≡ 0x0b =
      ground (arith, after (at + 1), back) in
    rw (first, second) refl

-- What a call of an exported function at a stub comes to: the two functions that end the program do so; behind any
-- other the thread is at its return address, on the memory that the function has left.
abbrev pub outcome_of_call : (Name → Args → Bytes → ℕ × Bytes) → ℕ → Context → Name → Outcome
outcome_of_call dispatch host_fs a name =
    let answer = dispatch name (args_of a) a.bytes in
    let float = is_float_function name in
    if str_eq (codes "catchReturnFromMain") name || str_eq (codes "exit") name
    then exited
    else resumed (record {
      regs = record a.regs {
        rax = if float then 0 else answer.0;
        rip = fetch 8 a.regs.rsp answer.1;
        rsp = add64 a.regs.rsp 8;
        fpregs = if float then set_xmm0 answer.0 a.regs.fpregs else a.regs.fpregs;
      };
      bytes = answer.1;
      fs = restored_fs a.fs host_fs;
    })

module _ (dispatch : Name → Args → Bytes → ℕ × Bytes) (host_fs : ℕ) (host : host_fs ≢ 0)
    (a : Context) where
  -- Where the FS base of the host is known: a thread that reaches a syscall which the patcher has
  -- turned into ud2, with another number than 1 in RAX and outside of the stubs, goes on behind it
  -- with 0 in RAX, and nothing else of it but its FS base is written.
  pub sigill_handler-patch_syscalls :
      (stubs : Option StubAllocator) (memory_base : VAddr) (size : ℕ) (bytes : Bytes)
      → size < 2 ^ 64
      → memory_base ≤ a.regs.rip
      → a.regs.rip + 1 < memory_base + size
      → is_syscall bytes a.regs.rip ≡ true
      → a.bytes ≡ (patch_syscalls memory_base size bytes).0
      → is_stub stubs a.regs.rip ≡ false
      → a.regs.rax ≢ 1
      → sigill_handler dispatch stubs host_fs a
        ≡ resumed (record a {
          regs = record a.regs { rax = 0; rip = add64 a.regs.rip 2 };
          fs = restored_fs a.fs host_fs;
        })
  unfolding sigill_handler hle_syscall_dispatcher
  sigill_handler-patch_syscalls stubs memory_base size bytes small low high call same code no_exit =
      let found : (host_fs == 0) ≡ false = ground (arith, host) in
      let trap : is_ud2 a.bytes a.regs.rip ≡ true =
        rw (same) (patched-is_ud2 memory_base size bytes a.regs.rip small low high call) in
      let other : (a.regs.rax == 1) ≡ false = ground (arith, no_exit) in
      rw (sigill_handler, found, trap, code, hle_syscall_dispatcher, other) refl

  call_stub_lem :
      (stubs : Option StubAllocator)
      → call_stub dispatch stubs host_fs a
        ≡ outcome_of_call dispatch host_fs a
            (get_stub_name stubs (index_or_zero (get_stub_index stubs a.regs.rip)))
  unfolding call_stub hle_export_dispatcher
  call_stub_lem stubs =
      let name = get_stub_name stubs (index_or_zero (get_stub_index stubs a.regs.rip)) in
      elim (Bool-cases (str_eq (codes "catchReturnFromMain") name)) [
        | inl main ↦ rw (call_stub, main) refl
        | inr apart ↦ elim (Bool-cases (str_eq (codes "exit") name)) [
          | inl exit ↦ rw (call_stub, apart, exit) refl
          | inr returns ↦ elim (Bool-cases (is_float_function name)) [
            | inl float ↦ rw (call_stub, apart, returns, float) refl
            | inr whole ↦ rw (call_stub, apart, returns, whole) refl
          ]
        ]
      ]

  -- Where the FS base of the host is known: a thread that calls the stub which a well-formed allocator
  -- has just given to a name of a function that does not answer in XMM0 gets, at its return address,
  -- the answer of the exported function of that name on its arguments.
  pub sigill_handler-allocate_stub :
      (alloc : StubAllocator) (name : Name)
      → IsWellFormed alloc
      → alloc.used < max_stubs
      → a.regs.rip ≡ (allocate_stub (some alloc) name).0
      → is_ud2 a.bytes a.regs.rip ≡ true
      → sigill_handler dispatch (allocate_stub (some alloc) name).1 host_fs a
        ≡ outcome_of_call dispatch host_fs a name
  unfolding sigill_handler
  sigill_handler-allocate_stub alloc name w room at trap =
      let found : (host_fs == 0) ≡ false = ground (arith, host) in
      let (alloc', allocated, _, stub, index, named) = allocate_stub_lem alloc name w room in
      let here : a.regs.rip ≡ stub_address alloc alloc.used = rw (allocated) at at in
      let stub' : is_stub (some alloc') a.regs.rip ≡ true = rw (here) stub in
      let index' : get_stub_index (some alloc') a.regs.rip ≡ some alloc.used = rw (here) index in
      let known : get_stub_name (some alloc')
            (index_or_zero (get_stub_index (some alloc') a.regs.rip))
          ≡ name =
        rw (index') named in
      let call : call_stub dispatch (some alloc') host_fs a
          ≡ outcome_of_call dispatch host_fs a name =
        subst
          (λ n. call_stub dispatch (some alloc') host_fs a ≡ outcome_of_call dispatch host_fs a n)
          known (call_stub_lem (some alloc')) in
      rw (allocated, sigill_handler, found, trap, stub') call
