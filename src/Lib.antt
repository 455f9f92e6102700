-- ===== src/Lib.antt =====
-- CrashDetect, a server plugin that reports run-time errors of scripts for the AMX, an abstract
-- machine with 32-bit cells. The plugin brings its own patched copy of the machine. A script calls
-- natives through the machine; the plugin stands between the server and `amx_Exec`, between the
-- machine and the natives, and receives errors, long calls and questions about address naught
-- through the extension hooks that the patched interpreter calls.
--
-- Amx/ is the machine as its host sees it (src/amx/amx.h, src/amx/amx.c): the address space as a
-- function from addresses to bytes (Memory), the AMX structure and its header (State), error codes
-- and flags (Error), the heap and stack functions `amx_Push`, `amx_PushArray`, `amx_Allot`,
-- `amx_Release` and `amx_GetAddr` (Stack), the user-data slots with the extension hooks (UserData),
-- the binary search for a function's name (Find), whose fuel is the table's length, strings in
-- cells, `amx_SetString`, `amx_GetString` and `amx_StrLen` (CellText), the UTF-8 functions, where
-- one unit of fuel more than the string's length is enough for `amx_UTF8Check` (Utf8), the
-- registration of natives with `amx_Register` and `amx_Callback` (Register), and the look-ups of
-- src/amxref.cpp (Ref). A `World` is one machine, the memory, and the host's own state, whose type
-- is a parameter.
--
-- Vm/ is the interpreter, `amx_Exec` in its ANSI version (src/amx/amx.c, lines 2736 to 3796):
-- Opcode is the instruction set, Machine the registers, the hooks and the macros, one module per
-- group of instructions has a function `exec_...` (Load, Store, Indexing, Control, StackOps, Jump,
-- Alu, Compare, Cells, Block, System), and Step has the round, the loop and the entry. An
-- instruction results in `Next`: it goes on, stops with an error code, or traps (a division that
-- the processor refuses). The loop has fuel, one unit per instruction; a script may run forever, so
-- no amount is enough for all, and a run that is out of fuel is told apart from one that has
-- stopped (Vm/Fuel is about the amount). What the interpreter calls (natives, hooks, `memcmp`) is a
-- parameter, the record `Hooks`.
--
-- Plugin/ is src/crashdetect.cpp with src/amxcallstack.cpp: Instance is a handler's members and
-- what it prints, with the text of a backtrace or a trace cut into lines; CallStack, LongCall (the
-- timer and its options, with a series of events as the server produces them), Log and RuntimeError
-- (the lines printed for an error, as values), and Handler, where `on_exec`, `on_exec_error`,
-- `on_callback`, `on_debug_hook` and `on_address_naught_request` are the member functions of those
-- names. There `amx_Exec`, the previous callback, the previous debug hook and the clock are
-- parameters, the record `Host`; an outcome says where the code would use a pointer that it has not
-- set. `OnExec` and `OnExecError` call each other; the depth is limited, and since errors are
-- blocked while OnRuntimeError runs, 2 is the depth to choose. The condition on `amx_Exec` that
-- this rests on is one of the theorems' hypotheses. Closed discharges it: there the handlers are
-- the hooks of the interpreter of Vm/, as src/plugin.cpp installs them, and call it again
-- (`exec_at`, to a depth and with fuel for each activation); what is left as parameters is the
-- record `Outside`, the natives and the callbacks and hooks of others. Vm/Host carries a property
-- of the host's state through the interpreter. Natives are the natives of src/natives.cpp, with the
-- text of the native backtrace as a parameter, Loading is what the loading of a script does to the
-- handler's members (`CrashDetect::Load`) and to the table of natives (`RegisterNatives`),
-- HandlerMap is src/amxhandler.h, Options the trace flags of src/options.cpp.
--
-- Trace/ is src/amxstacktrace.cpp with `PrintAMXBacktrace`: Frame reads a frame from the stack,
-- Walk is `AMXStackTrace` and `GetAMXStackTrace` with its fake frame behind the heap (the walk
-- visits at most 101 frames, and its fuel, 102, is enough), Contents reads arguments and strings,
-- States the state tables, Printer prints a frame, Backtrace all frames of all calls; what is
-- printed is a list of bytes, `none` an exception of the standard library. The floats' text and the
-- modules' names are parameters. Files has the file names of src/fileutils.cpp, Strings
-- `SplitString` of src/stringutils.cpp, with the string's length as fuel.
--
-- Debug/ is the search in debug information: Table has the tables of src/amx/amxdbg.h, Dbg the
-- look-ups of src/amx/amxdbg.c, Info those of src/amxdebuginfo.cpp, and Load is `dbg_LoadInfo` on
-- the bytes of a file (a read behind what the file has is undefined; the search for more lines has
-- fuel for more rounds than the block has bytes, and Load/Fuel shows that it is enough).
--
-- Prelude/ has Boolean tests, lists with native indices, and 32-bit arithmetic on bit patterns.
-- Tests/ has sample machines and applies the theorems to them.
--
-- Not modelled: the interpreter's GNU version, which repeats the instructions with computed jumps;
-- the installation of the hooks (`AmxLoad` of src/plugin.cpp), which is pointers to functions; the
-- loading and relocation of a script in src/amx/amx.c; the configuration file, path search and the
-- other string helpers; access to the operating system and the libraries under deps/, which are
-- third-party code.
pub mod Prelude
pub mod Amx
pub mod Vm
pub mod Files
pub mod Strings
pub mod Trace
pub mod Plugin
pub mod Debug
pub mod Tests
