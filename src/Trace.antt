-- ===== src/Trace.antt =====
-- Stack traces of a machine (src/amxstacktrace.cpp and `PrintAMXBacktrace` in src/crashdetect.cpp).
pub mod Frame
pub mod Walk
pub mod Calls
pub mod Numerals
pub mod Contents
pub mod States
pub mod Printer
pub mod Backtrace
