-- ===== src/Debug.antt =====
-- The debug information of a script (src/amx/amxdbg.c and src/amxdebuginfo.cpp).
pub mod Table
pub mod Dbg
pub mod Info
pub mod Agree
pub mod Address
pub mod Variable
pub mod Load
