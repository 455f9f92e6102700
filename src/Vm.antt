-- ===== src/Vm.antt =====
-- The interpreter (`amx_Exec` of src/amx/amx.c, the portable version in lines 2770 to 3792; the
-- version for GNU C in lines 1752 to 2734 has the same instructions behind another dispatch).
-- Instructions are grouped as in the `switch`, and each group has a module.
pub mod Opcode
pub mod Machine
pub mod Load
pub mod Store
pub mod Indexing
pub mod Control
pub mod StackOps
pub mod Jump
pub mod Alu
pub mod Compare
pub mod Cells
pub mod Block
pub mod System
pub mod Step
pub mod Exit
pub mod Calls
pub mod Cases
pub mod Naught
pub mod Division
pub mod Fuel
pub mod Host
