-- ===== src/Plugin/Log.antt =====
-- The lines that the plugin prints, as the values that they are made from (src/crashdetect.cpp).
use samp_plugin_crashdetect.Prelude.{ℕ, List, Option}

pub data LogLine : Type 0 where
  -- `Run time error %d`, and the lines that explain it
  run_time_error : ℕ → LogLine
  negative_index : ℕ → LogLine
  index_beyond : ℕ → ℕ → LogLine
  missing_native : List ℕ → LogLine
  stack_and_heap : ℕ → ℕ → LogLine
  stack_and_top : ℕ → ℕ → LogLine
  heap_and_bottom : ℕ → ℕ → LogLine
  unknown_opcode : ℕ → ℕ → LogLine
  failed_native : Option (List ℕ) → LogLine
  -- `Long callback execution detected`
  long_call : LogLine
  -- a line of a text that goes to the log, and of one that goes to the trace log
  debug_text : List ℕ → LogLine
  trace_text : List ℕ → LogLine
