-- ===== src/Vm/Opcode.antt =====
-- The instructions, grouped by their place in the interpreter's `switch`, and their numbers
-- (`OPCODE`, src/amx/amx.c, lines 160 to 301). An instruction is its opcode cell alone: parameters
-- are read when it runs.
use samp_plugin_crashdetect.Prelude.{ℕ, none, some, List, [], ◌∷◌, get_elem?}

pub data LoadOp : Type 0 where
  load_pri load_alt load_s_pri load_s_alt lref_pri lref_alt lref_s_pri lref_s_alt : LoadOp
  load_i lodb_i const_pri const_alt addr_pri addr_alt : LoadOp

pub data StoreOp : Type 0 where
  stor_pri stor_alt stor_s_pri stor_s_alt sref_pri sref_alt sref_s_pri sref_s_alt : StoreOp
  stor_i strb_i : StoreOp

pub data IndexOp : Type 0 where
  lidx lidx_b idxaddr idxaddr_b align_pri align_alt : IndexOp

pub data ControlOp : Type 0 where
  lctrl sctrl : ControlOp

pub data StackOp : Type 0 where
  move_pri move_alt xchg push_pri push_alt push_c push_r push push_s pop_pri pop_alt : StackOp
  stack heap proc ret retn call swap_pri swap_alt pushaddr : StackOp

pub data JumpOp : Type 0 where
  jump jrel jzer jnz jeq jneq jless jleq jgrtr jgeq jsless jsleq jsgrtr jsgeq switch : JumpOp

pub data AluOp : Type 0 where
  shl shr sshr shl_c_pri shl_c_alt shr_c_pri shr_c_alt smul sdiv sdiv_alt umul udiv udiv_alt : AluOp
  add sub sub_alt and or xor not neg invert add_c smul_c zero_pri zero_alt sign_pri sign_alt : AluOp

pub data CompareOp : Type 0 where
  eq neq less leq grtr geq sless sleq sgrtr sgeq eq_c_pri eq_c_alt : CompareOp

pub data CellOp : Type 0 where
  zero zero_s inc_pri inc_alt inc inc_s inc_i dec_pri dec_alt dec dec_s dec_i : CellOp

pub data BlockOp : Type 0 where
  movs cmps fill : BlockOp

pub data SystemOp : Type 0 where
  halt bounds sysreq_pri sysreq_c sysreq_d line symbol srange symtag nop break : SystemOp

pub data Opcode : Type 0 where
  load_op : LoadOp → Opcode
  store_op : StoreOp → Opcode
  index_op : IndexOp → Opcode
  control_op : ControlOp → Opcode
  stack_op : StackOp → Opcode
  jump_op : JumpOp → Opcode
  alu_op : AluOp → Opcode
  compare_op : CompareOp → Opcode
  cell_op : CellOp → Opcode
  block_op : BlockOp → Opcode
  system_op : SystemOp → Opcode
  -- a number that the `switch` has no case for
  invalid : Opcode

-- The enumeration in its order. OP_CALL_PRI and OP_JUMP_PRI have no case in the portable `switch`, nor
-- have OP_NONE, OP_FILE and OP_CASETBL.
abbrev pub opcode_table : List Opcode
opcode_table =
    invalid
    ∷ load_op LoadOp.load_pri
    ∷ load_op LoadOp.load_alt
    ∷ load_op LoadOp.load_s_pri
    ∷ load_op LoadOp.load_s_alt
    ∷ load_op LoadOp.lref_pri
    ∷ load_op LoadOp.lref_alt
    ∷ load_op LoadOp.lref_s_pri
    ∷ load_op LoadOp.lref_s_alt
    ∷ load_op LoadOp.load_i
    ∷ load_op LoadOp.lodb_i
    ∷ load_op LoadOp.const_pri
    ∷ load_op LoadOp.const_alt
    ∷ load_op LoadOp.addr_pri
    ∷ load_op LoadOp.addr_alt
    ∷ store_op StoreOp.stor_pri
    ∷ store_op StoreOp.stor_alt
    ∷ store_op StoreOp.stor_s_pri
    ∷ store_op StoreOp.stor_s_alt
    ∷ store_op StoreOp.sref_pri
    ∷ store_op StoreOp.sref_alt
    ∷ store_op StoreOp.sref_s_pri
    ∷ store_op StoreOp.sref_s_alt
    ∷ store_op StoreOp.stor_i
    ∷ store_op StoreOp.strb_i
    ∷ index_op IndexOp.lidx
    ∷ index_op IndexOp.lidx_b
    ∷ index_op IndexOp.idxaddr
    ∷ index_op IndexOp.idxaddr_b
    ∷ index_op IndexOp.align_pri
    ∷ index_op IndexOp.align_alt
    ∷ control_op ControlOp.lctrl
    ∷ control_op ControlOp.sctrl
    ∷ stack_op StackOp.move_pri
    ∷ stack_op StackOp.move_alt
    ∷ stack_op StackOp.xchg
    ∷ stack_op StackOp.push_pri
    ∷ stack_op StackOp.push_alt
    ∷ stack_op StackOp.push_r
    ∷ stack_op StackOp.push_c
    ∷ stack_op StackOp.push
    ∷ stack_op StackOp.push_s
    ∷ stack_op StackOp.pop_pri
    ∷ stack_op StackOp.pop_alt
    ∷ stack_op StackOp.stack
    ∷ stack_op StackOp.heap
    ∷ stack_op StackOp.proc
    ∷ stack_op StackOp.ret
    ∷ stack_op StackOp.retn
    ∷ stack_op StackOp.call
    ∷ invalid
    ∷ jump_op JumpOp.jump
    ∷ jump_op JumpOp.jrel
    ∷ jump_op JumpOp.jzer
    ∷ jump_op JumpOp.jnz
    ∷ jump_op JumpOp.jeq
    ∷ jump_op JumpOp.jneq
    ∷ jump_op JumpOp.jless
    ∷ jump_op JumpOp.jleq
    ∷ jump_op JumpOp.jgrtr
    ∷ jump_op JumpOp.jgeq
    ∷ jump_op JumpOp.jsless
    ∷ jump_op JumpOp.jsleq
    ∷ jump_op JumpOp.jsgrtr
    ∷ jump_op JumpOp.jsgeq
    ∷ alu_op AluOp.shl
    ∷ alu_op AluOp.shr
    ∷ alu_op AluOp.sshr
    ∷ alu_op AluOp.shl_c_pri
    ∷ alu_op AluOp.shl_c_alt
    ∷ alu_op AluOp.shr_c_pri
    ∷ alu_op AluOp.shr_c_alt
    ∷ alu_op AluOp.smul
    ∷ alu_op AluOp.sdiv
    ∷ alu_op AluOp.sdiv_alt
    ∷ alu_op AluOp.umul
    ∷ alu_op AluOp.udiv
    ∷ alu_op AluOp.udiv_alt
    ∷ alu_op AluOp.add
    ∷ alu_op AluOp.sub
    ∷ alu_op AluOp.sub_alt
    ∷ alu_op AluOp.and
    ∷ alu_op AluOp.or
    ∷ alu_op AluOp.xor
    ∷ alu_op AluOp.not
    ∷ alu_op AluOp.neg
    ∷ alu_op AluOp.invert
    ∷ alu_op AluOp.add_c
    ∷ alu_op AluOp.smul_c
    ∷ alu_op AluOp.zero_pri
    ∷ alu_op AluOp.zero_alt
    ∷ cell_op CellOp.zero
    ∷ cell_op CellOp.zero_s
    ∷ alu_op AluOp.sign_pri
    ∷ alu_op AluOp.sign_alt
    ∷ compare_op CompareOp.eq
    ∷ compare_op CompareOp.neq
    ∷ compare_op CompareOp.less
    ∷ compare_op CompareOp.leq
    ∷ compare_op CompareOp.grtr
    ∷ compare_op CompareOp.geq
    ∷ compare_op CompareOp.sless
    ∷ compare_op CompareOp.sleq
    ∷ compare_op CompareOp.sgrtr
    ∷ compare_op CompareOp.sgeq
    ∷ compare_op CompareOp.eq_c_pri
    ∷ compare_op CompareOp.eq_c_alt
    ∷ cell_op CellOp.inc_pri
    ∷ cell_op CellOp.inc_alt
    ∷ cell_op CellOp.inc
    ∷ cell_op CellOp.inc_s
    ∷ cell_op CellOp.inc_i
    ∷ cell_op CellOp.dec_pri
    ∷ cell_op CellOp.dec_alt
    ∷ cell_op CellOp.dec
    ∷ cell_op CellOp.dec_s
    ∷ cell_op CellOp.dec_i
    ∷ block_op BlockOp.movs
    ∷ block_op BlockOp.cmps
    ∷ block_op BlockOp.fill
    ∷ system_op SystemOp.halt
    ∷ system_op SystemOp.bounds
    ∷ system_op SystemOp.sysreq_pri
    ∷ system_op SystemOp.sysreq_c
    ∷ invalid
    ∷ system_op SystemOp.line
    ∷ system_op SystemOp.symbol
    ∷ system_op SystemOp.srange
    ∷ invalid
    ∷ jump_op JumpOp.switch
    ∷ invalid
    ∷ stack_op StackOp.swap_pri
    ∷ stack_op StackOp.swap_alt
    ∷ stack_op StackOp.pushaddr
    ∷ system_op SystemOp.nop
    ∷ system_op SystemOp.sysreq_d
    ∷ system_op SystemOp.symtag
    ∷ system_op SystemOp.break
    ∷ []

-- `op=(OPCODE) *cip` and the choice of the `case`
unfoldable pub decode : ℕ → Opcode
decode n = elim (get_elem? opcode_table n) [ none ↦ invalid | some op ↦ op ]
