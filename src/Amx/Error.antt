-- ===== src/Amx/Error.antt =====
-- The error codes (`AMX_ERR_*`), flags and call selectors of src/amx/amx.h. An error is an `int`, so
-- a code is a number: `halt` returns any.
use samp_plugin_crashdetect.Prelude.{ℕ}

abbrev pub err_none : ℕ
err_none = 0

abbrev pub err_exit : ℕ
err_exit = 1

abbrev pub err_assert_failed : ℕ
err_assert_failed = 2

abbrev pub err_stackerr : ℕ
err_stackerr = 3

abbrev pub err_bounds : ℕ
err_bounds = 4

abbrev pub err_memaccess : ℕ
err_memaccess = 5

abbrev pub err_invinstr : ℕ
err_invinstr = 6

abbrev pub err_stacklow : ℕ
err_stacklow = 7

abbrev pub err_heaplow : ℕ
err_heaplow = 8

abbrev pub err_callback : ℕ
err_callback = 9

abbrev pub err_native : ℕ
err_native = 10

abbrev pub err_divide : ℕ
err_divide = 11

abbrev pub err_sleep : ℕ
err_sleep = 12

abbrev pub err_memory : ℕ
err_memory = 16

abbrev pub err_format : ℕ
err_format = 17

abbrev pub err_version : ℕ
err_version = 18

abbrev pub err_notfound : ℕ
err_notfound = 19

abbrev pub err_index : ℕ
err_index = 20

abbrev pub err_debug : ℕ
err_debug = 21

abbrev pub err_init : ℕ
err_init = 22

abbrev pub err_userdata : ℕ
err_userdata = 23

abbrev pub err_params : ℕ
err_params = 25

abbrev pub err_address_0 : ℕ
err_address_0 = 28

abbrev pub flag_ntvreg : ℕ
flag_ntvreg = 4096

abbrev pub flag_browse : ℕ
flag_browse = 16384

abbrev pub flag_reloc : ℕ
flag_reloc = 32768

-- Entry points: `AMX_EXEC_MAIN` is -1 and `AMX_EXEC_CONT` is -2, as cells.
abbrev pub exec_main : ℕ
exec_main = 4294967295

abbrev pub exec_cont : ℕ
exec_cont = 4294967294

-- `AMX_LCT_*`, the requests to the long-call hook, and the options of `AMX_LCT_OPTION`
abbrev pub lct_option : ℕ
lct_option = 1

abbrev pub lct_set_time : ℕ
lct_set_time = 2

abbrev pub lct_check : ℕ
lct_check = 3

abbrev pub opt_current : ℕ
opt_current = 0

abbrev pub opt_active : ℕ
opt_active = 2

abbrev pub opt_restart : ℕ
opt_restart = 3

abbrev pub opt_disable : ℕ
opt_disable = 4

abbrev pub opt_enable : ℕ
opt_enable = 5

abbrev pub opt_reset : ℕ
opt_reset = 6
