-- ===== src/Hle/Signals.antt =====
-- crates/core/src/hle/dispatcher.rs: the handler of SIGILL as a function on what the signal stopped: the registers,
-- the memory and the FS base of the thread; the handler of SIGSEGV is in Signals/Fault. What the exported functions
-- that return do is a parameter of the handler; a register is its 64 bits.
pub mod Fault
pub mod Resumed
pub mod Composed
pub mod Unwound
mod Tests
use anotherps4_emulator.Common.{
  ℕ, zero, suc, ◌+◌, ◌-◌, ◌^◌, List, [], ◌∷◌, Option, none, some, Bool, true, false, not, ◌&&◌,
  ◌||◌, ◌==◌, ltb, leb, if◌then◌else◌,
}
use anotherps4_emulator.Common.Text.{codes, str_eq}
use anotherps4_emulator.Types.{VAddr, add64}
use anotherps4_emulator.Hle.Bytes.{Bytes, fetch}
use anotherps4_emulator.Hle.Stubs.{StubAllocator, Name, is_stub, get_stub_index, get_stub_name}

-- The registers that the handlers read or write; `fpregs` has the two halves of XMM0 and the low half of XMM1, when
-- there is a state of the floating point unit.
pub record Xmm : Type 0 where
  pub xmm0 : ℕ
  pub xmm0_high : ℕ
  pub xmm1 : ℕ

pub record Registers : Type 0 where
  pub rax : ℕ
  pub rcx : ℕ
  pub rdx : ℕ
  pub rdi : ℕ
  pub rsi : ℕ
  pub r8 : ℕ
  pub r9 : ℕ
  pub r10 : ℕ
  pub rbp : ℕ
  pub rsp : ℕ
  pub rip : ℕ
  pub fpregs : Option Xmm

pub record Context : Type 0 where
  pub regs : Registers
  pub bytes : Bytes
  pub fs : ℕ

-- The thread goes on, or the program ends: by the guest's exit, or aborted.
pub data Outcome : Type 0 where
  resumed : Context → Outcome
  exited aborted : Outcome

-- The arguments of an exported function.
pub record Args : Type 0 where
  pub rdi : ℕ
  pub rsi : ℕ
  pub rdx : ℕ
  pub rcx : ℕ
  pub r8 : ℕ
  pub r9 : ℕ
  pub stack_arg7 : ℕ
  pub xmm0_bits : ℕ
  pub xmm1_bits : ℕ

-- `is_float_function`: the exported functions that answer in XMM0.
abbrev pub float_functions : List Name
float_functions =
    codes "sinf"
    ∷ codes "tanf"
    ∷ codes "asinf"
    ∷ codes "acosf"
    ∷ codes "cosf"
    ∷ codes "sqrtf"
    ∷ codes "atan2f"
    ∷ codes "floorf"
    ∷ codes "ceilf"
    ∷ codes "fabsf"
    ∷ codes "fmodf"
    ∷ []

abbrev pub is_one_of : List Name → Name → Bool
is_one_of [] name = false
is_one_of (n ∷ names) name = str_eq n name || is_one_of names name

unfoldable pub is_float_function : Name → Bool
is_float_function name = is_one_of float_functions name

-- `hle_syscall_dispatcher`; `none` is the end of the program.
unfoldable pub hle_syscall_dispatcher : ℕ → Option ℕ
hle_syscall_dispatcher sys_id = if sys_id == 1 then none else some 0

abbrev pub is_ud2 : Bytes → VAddr → Bool
is_ud2 bytes rip = (bytes rip == 0x0F) && (bytes (rip + 1) == 0x0B)

-- The `ret` that ends a stub, with the answer in RAX.
abbrev pub emulate_ret : ℕ → Bytes → Registers → Registers
emulate_ret rax bytes regs = record regs {
  rax = rax;
  rip = fetch 8 regs.rsp bytes;
  rsp = add64 regs.rsp 8;
}

-- Behind `ud2`, with the answer in RAX.
abbrev pub skip_ud2 : ℕ → Registers → Registers
skip_ud2 rax regs = record regs { rax = rax; rip = add64 regs.rip 2 }

-- Without the FS base of the host nothing is dispatched.
unfoldable pub sigill_minimal : Option StubAllocator → Context → Outcome
sigill_minimal stubs self =
    if not (is_ud2 self.bytes self.regs.rip)
    then aborted
    else if is_stub stubs self.regs.rip
    then resumed (record self { regs = emulate_ret 0 self.bytes self.regs })
    else resumed (record self { regs = skip_ud2 0 self.regs })

abbrev pub xmm_args : Option Xmm → ℕ × ℕ
xmm_args none = (0, 0)
xmm_args (some xmm) = (xmm.xmm0, xmm.xmm1)

abbrev pub args_of : Context → Args
args_of self =
    let regs = self.regs in
    let (xmm0_bits, xmm1_bits) = xmm_args regs.fpregs in
    record {
      rdi = regs.rdi;
      rsi = regs.rsi;
      rdx = regs.rdx;
      rcx = regs.rcx;
      r8 = regs.r8;
      r9 = regs.r9;
      stack_arg7 = if regs.rsp == 0 then 0 else fetch 8 (add64 regs.rsp 8) self.bytes;
      xmm0_bits = xmm0_bits;
      xmm1_bits = xmm1_bits;
    }

abbrev pub set_xmm0 : ℕ → Option Xmm → Option Xmm
set_xmm0 result none = none
set_xmm0 result (some xmm) = some (record xmm { xmm0 = result; xmm0_high = 0 })

abbrev pub index_or_zero : Option ℕ → ℕ
index_or_zero none = 0
index_or_zero (some idx) = idx

-- Behind the handler the guest has its own FS base again, if it had one.
abbrev pub restored_fs : ℕ → ℕ → ℕ
restored_fs guest_fs host_fs = if guest_fs == 0 then host_fs else guest_fs

-- The exported functions that end the program.
abbrev pub exit_functions : List Name
exit_functions = codes "catchReturnFromMain" ∷ codes "exit" ∷ []

-- Behind the call of an exported function that has answered: `ret` with the answer in RAX or in XMM0.
abbrev pub return_from_stub : Name → ℕ → ℕ × Bytes → Context → Context
return_from_stub stub_name host_fs (result, bytes) self =
    let regs =
      if is_float_function stub_name
      then emulate_ret 0 bytes (record self.regs { fpregs = set_xmm0 result self.regs.fpregs })
      else emulate_ret result bytes self.regs in
    record { regs = regs; bytes = bytes; fs = restored_fs self.fs host_fs }

-- `dispatch` is what the exported functions that return do: the answer, and the memory behind the call.
module _ (dispatch : Name → Args → Bytes → ℕ × Bytes) where
  -- `hle_export_dispatcher`; `none` is the end of the program.
  unfoldable pub hle_export_dispatcher : Name → Args → Bytes → Option (ℕ × Bytes)
  hle_export_dispatcher name args bytes =
      if is_one_of exit_functions name then none else some (dispatch name args bytes)

  -- The call of an exported function at a stub.
  unfoldable pub call_stub : Option StubAllocator → ℕ → Context → Outcome
  call_stub stubs host_fs self =
      let stub_name = get_stub_name stubs (index_or_zero (get_stub_index stubs self.regs.rip)) in
      elim (hle_export_dispatcher stub_name (args_of self) self.bytes) [
        | none ↦ exited
        | some answer ↦ resumed (return_from_stub stub_name host_fs answer self)
      ]

  -- `sigill_handler`, with the FS base of the host that the table gives.
  unfoldable pub sigill_handler : Option StubAllocator → ℕ → Context → Outcome
  sigill_handler stubs host_fs self =
      if host_fs == 0
      then sigill_minimal stubs self
      else if not (is_ud2 self.bytes self.regs.rip)
      then aborted
      else if is_stub stubs self.regs.rip
      then call_stub stubs host_fs self
      else elim (hle_syscall_dispatcher self.regs.rax) [
        | none ↦ exited
        | some result ↦
            resumed
              (record self { regs = skip_ud2 result self.regs; fs = restored_fs self.fs host_fs })
      ]
