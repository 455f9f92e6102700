-- ===== src/Tests/LoadTests.antt =====
-- The theorem on the registration of natives, applied.
use samp_plugin_crashdetect.Prelude.{
  ◌≡◌, arith, some, [], ◌∷◌, List, codes, if◌then◌else◌, map, bit_or,
}
use samp_plugin_crashdetect.Amx.Error.{err_none, err_notfound, flag_ntvreg}
use samp_plugin_crashdetect.Amx.State.{Amx}
use samp_plugin_crashdetect.Amx.Register.{NativeInfo, amx_register}
use samp_plugin_crashdetect.Amx.Register.Resolved.{resolve, all_found, amx_register_lem}
use samp_plugin_crashdetect.Tests.Samples.{machine, header}

-- A script that uses two natives, one of which is known
abbrev calling : Amx
calling = record machine {
  header = record header {
    natives =
        record { name = codes "GetBacktrace"; address = 0 }
        ∷ record { name = codes "print"; address = 77 }
        ∷ [];
  };
}

abbrev functions : List NativeInfo
functions =
    record { name = some (codes "print"); func = 5 }
    ∷ record { name = some (codes "GetBacktrace"); func = 6 }
    ∷ []

amx_register_lem_example :
    let stubs = map (resolve functions) calling.header.natives in
    amx_register (some functions) 2 calling
    ≡ some (
      (if all_found stubs then err_none else err_notfound),
      record calling {
        header = record (calling.header) { natives = stubs };
        flags = if all_found stubs then bit_or calling.flags flag_ntvreg else calling.flags;
      },
    )
amx_register_lem_example = amx_register_lem functions calling (omega arith)
