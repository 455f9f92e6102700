-- ===== src/Plugin.antt =====
-- The plugin (src/crashdetect.cpp and src/amxcallstack.cpp).
pub mod CallStack
pub mod LongCall
pub mod Log
pub mod RuntimeError
pub mod Handler
pub mod Instance
pub mod Natives
pub mod Loading
pub mod Closed
pub mod Options
pub mod HandlerMap
