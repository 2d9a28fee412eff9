-- ===== src/Cpu/Exceptions.antt =====
-- cpu/isr.h and cpu/isr.c: the saved registers, and the handler of the processor's exceptions.
use Prim.Native.String.{String}
use bedrock_os.Base.{ℕ, ◌^◌, bit_and, ◌>>>◌, List, [], ◌∷◌, none, some, get_elem?}
use bedrock_os.Machine.{M, fault, emit, kprint, say_int, say_hex, halt, ◌>>=◌, ◌>>◌}
use bedrock_os.Machine.Ports.{peek32}

-- `registers_t`; `data_segment` is `ds`, `code_segment` is `cs`, `stack_segment` is `ss`.
pub record Registers : Type 0 where
  pub data_segment : ℕ
  pub edi : ℕ
  pub esi : ℕ
  pub ebp : ℕ
  pub useless : ℕ
  pub ebx : ℕ
  pub edx : ℕ
  pub ecx : ℕ
  pub eax : ℕ
  pub int_no : ℕ
  pub err_code : ℕ
  pub eip : ℕ
  pub code_segment : ℕ
  pub eflags : ℕ
  pub esp : ℕ
  pub stack_segment : ℕ

abbrev pub exception_messages : List String
exception_messages =
    "Division By Zero" ∷ "Debug" ∷ "Non Maskable Interrupt" ∷ "Breakpoint"
    ∷ "Into Detected Overflow" ∷ "Out of Bounds" ∷ "Invalid Opcode" ∷ "No Coprocessor"
    ∷ "Double Fault" ∷ "Coprocessor Segment Overrun" ∷ "Bad TSS" ∷ "Segment Not Present"
    ∷ "Stack Fault" ∷ "General Protection Fault" ∷ "Page Fault" ∷ "Unknown Interrupt"
    ∷ "Coprocessor Fault" ∷ "Alignment Check" ∷ "Machine Check" ∷ "Reserved" ∷ "Reserved"
    ∷ "Reserved" ∷ "Reserved" ∷ "Reserved" ∷ "Reserved" ∷ "Reserved" ∷ "Reserved" ∷ "Reserved"
    ∷ "Reserved" ∷ "Reserved" ∷ "Reserved" ∷ "Reserved" ∷ []

unfoldable pub say_bit : (name : String) (err_code bit : ℕ) → M (Unit {0})
say_bit name err_code bit = do
  kprint name
  emit (say_hex (bit_and err_code (2 ^ bit) >>> bit))
  kprint "\n"

-- `cr2` is the register of that name, `p` the address of the handler's local variable.
unfoldable pub isr_handler : (cr2 p : ℕ) → Registers → M (Unit {0})
unfolding peek32 say_bit
isr_handler cr2 p r = do
  kprint "received interrupt: "
  emit (say_int r.int_no)
  kprint " ("
  (elim (get_elem? exception_messages r.int_no) [
    | none ↦ λ m. fault
    | some message ↦ kprint message
  ])
  kprint ")\n"
  kprint "error eip: "
  emit (say_hex r.eip)
  kprint "\ninstruction: "
  instr ← peek32 r.eip
  emit (say_hex instr)
  kprint "\n"
  kprint "error code: \n"
  say_bit "bit 0: " r.err_code 0
  say_bit "bit 1: " r.err_code 1
  say_bit "bit 2: " r.err_code 2
  say_bit "bit 3: " r.err_code 3
  say_bit "bit 4: " r.err_code 4
  kprint "value of cr2: "
  emit (say_hex cr2)
  kprint "\n"
  kprint "stack pointer: "
  emit (say_hex p)
  kprint "\n"
  emit halt
