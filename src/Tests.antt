-- ===== src/Tests.antt =====
-- Sample machines, and each theorem with conditions applied where its conditions hold.
pub mod Samples
pub mod VmTests
pub mod AmxTests
pub mod DebugTests
pub mod PluginTests
pub mod ClosedTests
pub mod TraceTests
pub mod MapTests
pub mod TextTests
pub mod LoadTests
