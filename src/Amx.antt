-- ===== src/Amx.antt =====
-- The abstract machine as its host sees it (src/amx/amx.h, src/amx/amx.c): the address space, the
-- AMX structure, error codes, and the API functions that the plugin and the interpreter share.
pub mod Memory
pub mod CellText
pub mod Register
pub mod Error
pub mod State
pub mod Stack
pub mod UserData
pub mod Utf8
pub mod Ref
pub mod Find
