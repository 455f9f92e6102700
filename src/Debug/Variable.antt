-- ===== src/Debug/Variable.antt =====
-- What `dbg_GetVariable` finds (src/amx/amxdbg.c, lines 451 to 484).
use samp_plugin_crashdetect.Prelude.{
  ℕ, ◌≡◌, refl, arith, Bool, true, not, ◌==◌, ◌&&◌, List, [], ◌∷◌, Option, none, some,
}
use samp_plugin_crashdetect.Debug.Table.{Symbol, AmxDbg, ident_function, same_name}
use samp_plugin_crashdetect.Debug.Dbg.{variable_in, dbg_get_variable}

-- No function of the table has the name.
unfoldable pub no_function : List ℕ → List Symbol → Bool
no_function name [] = true
no_function name (s ∷ symbols) =
    not ((s.ident == ident_function) && same_name s.name name) && no_function name symbols

unscoped :
    (name : List ℕ) (a b codestart codeend : ℕ) (sym : Option Symbol) (symbols : List Symbol)
    → no_function name symbols ≡ true
    → variable_in name a codestart codeend sym symbols
      ≡ variable_in name b codestart codeend sym symbols
unfolding variable_in no_function
unscoped name a b cs ce sym [] h = refl
unscoped name a b cs ce sym (s ∷ symbols) h =
    let h' : no_function name symbols ≡ true = ground (arith, h) in
    let next = unscoped name a b cs ce sym symbols h' in
    let taken = unscoped name a b s.codestart s.codeend (some s) symbols h' in
    ground (arith, next, taken, h)

-- Where no function has the name, the result of `dbg_GetVariable` does not depend on the address of the
-- scope.
pub dbg_get_variable_unscoped :
    (t : AmxDbg) (name : List ℕ) (a b : ℕ)
    → no_function name t.symboltbl ≡ true
    → dbg_get_variable t name a ≡ dbg_get_variable t name b
unfolding dbg_get_variable
dbg_get_variable_unscoped t name a b h =
    rw (dbg_get_variable, unscoped name a b 0 0 none t.symboltbl h) refl
