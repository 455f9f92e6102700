-- ===== src/Plugin/Handler/Reported.antt =====
-- Which errors `OnExecError` reports in a script without OnRuntimeError, and what it adds to the log
-- (src/crashdetect.cpp, lines 208 to 273 and 353 to 411).
use mathlib.Core.List.{append-nil}
use samp_plugin_crashdetect.Prelude.{
  ℕ, ◌≤◌, ◌≡◌, ◌∙◌, ap, refl, arith, IsCell, Bool-cases, true, false, none, some, List, ◌∷◌, ◌++◌,
  map, ◌⊎◌, inl, inr,
}
use samp_plugin_crashdetect.Amx.Error.{err_none}
use samp_plugin_crashdetect.Amx.Memory.{Mem}
use samp_plugin_crashdetect.Amx.State.{Amx}
use samp_plugin_crashdetect.Amx.Ref.{get_public_index, get_native_name}
use samp_plugin_crashdetect.Strings.Joined.{join, parts_of, split_string-join}
use samp_plugin_crashdetect.Plugin.Log.{LogLine, run_time_error, debug_text}
use samp_plugin_crashdetect.Plugin.RuntimeError.{explanation, print_runtime_error}
use samp_plugin_crashdetect.Plugin.RuntimeError.Explained.{Explains, explanation-Explains}
use samp_plugin_crashdetect.Plugin.Handler.{
  Plugin, Outcome, returns, on_exec_error, is_ignored, has_backtrace, on_runtime_error,
  block_errors,
}
use samp_plugin_crashdetect.Plugin.Handler.Logged.{on_exec_error-print_runtime_error}
use samp_plugin_crashdetect.Trace.Backtrace.{Surroundings, print_amx_backtrace}
use samp_plugin_crashdetect.Trace.Backtrace.State.{print_amx_backtrace-Unharmed}

-- No error (0), sleep (12), and the index error (20) for the entry points -10 and -10000 and below
abbrev pub Passes : ℕ → ℕ → Type 0
Passes index error =
    (error ≡ 0)
    ⊎ ((error ≡ 12)
        ⊎ ((error ≡ 20) × ((index ≡ 4294967286) ⊎ ((2147483648 ≤ index) × (index ≤ 4294957296)))))

-- The errors without a backtrace: no callback (9), a native that is not found (19), a wrong index (20)
-- and no initialisation (22)
abbrev pub IsBare : ℕ → Type 0
IsBare error = (error ≡ 9) ⊎ ((error ≡ 19) ⊎ ((error ≡ 20) ⊎ (error ≡ 22)))

-- What has been added to the log between `w` and `v`, where `calls` are the lines of the backtrace
pub record Reports (error : ℕ) (calls : List (List ℕ)) (w v : Plugin) : Type 0 where
  pub explained : List LogLine
  pub table : Explains error w.amx v.mem explained
  pub logged :
      (IsBare error × (v.host.log ≡ w.host.log ++ run_time_error error ∷ explained))
      ⊎ ((¬ IsBare error)
          × (v.host.log ≡ w.host.log ++ run_time_error error ∷ (explained ++ map debug_text calls)))
  pub unblocked : v.host.block_exec_errors ≡ false
  pub machine : v.amx ≡ record (w.amx) { frm = v.amx.frm }

is_ignored-cases :
    (index error : ℕ)
    → IsCell index
    → (Passes index error × (is_ignored index error ≡ true))
      ⊎ ((¬ Passes index error) × (is_ignored index error ≡ false))
unfolding is_ignored
is_ignored-cases index error cell = elim (Bool-cases (is_ignored index error)) [
  | inl passed ↦ inl (ground (arith, passed), passed)
  | inr kept ↦ inr (λ p. ground (arith, kept), kept)
]

has_backtrace-cases :
    (error : ℕ)
    → (IsBare error × (has_backtrace error ≡ false))
      ⊎ ((¬ IsBare error) × (has_backtrace error ≡ true))
unfolding has_backtrace
has_backtrace-cases error = elim (Bool-cases (has_backtrace error)) [
  | inl traced ↦ inr (λ o. ground (arith, traced), traced)
  | inr bare ↦ inl (ground (arith, bare), bare)
]

explanation-frm :
    (error k : ℕ) (a : Amx) (m : Mem)
    → explanation error (record a { frm = k }) (record a { frm = k }) m ≡ explanation error a a m
unfolding explanation get_native_name
explanation-frm error k a m = refl

-- Nothing but the frame register differs.
printed :
    (error : ℕ) (a b : Amx) (m : Mem)
    → b ≡ record a { frm = b.frm }
    → print_runtime_error error b b m ≡ run_time_error error ∷ explanation error a a m
unfolding print_runtime_error
printed error a b m e =
    ap (λ (c : Amx). run_time_error error ∷ explanation error c c m) e
    ∙ ap (λ lines. run_time_error error ∷ lines) (explanation-frm error b.frm a m)

-- The errors that have been decided not to pass
reported :
    (s : Surroundings) (exec : ℕ → Plugin → Outcome) (index error : ℕ) (calls : List (List ℕ))
    (w : Plugin)
    → w.host.block_exec_errors ≡ false
    → is_ignored index error ≡ false
    → IsCell w.amx.pri
    → IsCell w.amx.hea
    → get_public_index on_runtime_error w.amx ≡ none
    → parts_of 10 calls ≡ true
    → (print_amx_backtrace s w.host.static.call_stack (block_errors true w)).0
      ≡ some (join 10 calls)
    → (v : Plugin) × (on_exec_error s exec index error w ≡ returns err_none v)
      × Reports error calls w v
reported s exec index error calls w free kept p h absent parts made =
    let v = (print_amx_backtrace s w.host.static.call_stack (block_errors true w)).1 in
    let same =
      (print_amx_backtrace-Unharmed s w.host.static.call_stack (block_errors true w) h).machine in
    let lines = printed error w.amx v.amx v.mem same in
    let cut = split_string-join 10 calls parts in
    let whole =
      on_exec_error-print_runtime_error s exec index error (join 10 calls) w free kept absent h
        made in
    (
      _,
      whole,
      record {
        explained = explanation error w.amx w.amx v.mem;
        table = explanation-Explains error w.amx v.mem p;
        logged = elim (has_backtrace-cases error) [
          | inl (o, bare) ↦ inl (
            o,
            rw
                (
                  lines,
                  bare,
                  append-nil (run_time_error error ∷ explanation error w.amx w.amx v.mem),
                )
                refl,
          )
          | inr (o, traced) ↦ inr (o, rw (lines, traced, cut) refl)
        ];
        unblocked = refl;
        machine = same;
      },
    )

-- A script without OnRuntimeError, with its heap pointer and primary register in cells, is called with
-- an `index` in a cell. The text of the backtrace can be made, of the lines `calls`, the last of them not
-- empty. Then `OnExecError` returns 0. Where errors are blocked, or the error is none, sleep, or an index
-- error of the entry points of sampgdk, it changes nothing. Otherwise it adds to the log the number of
-- the error, the lines that the table `Explains` has for it and, unless it is 9, 19, 20 or 22, the lines
-- of the backtrace; errors are not blocked afterwards, and of the machine only the frame register may be
-- another.
pub on_exec_error-Reports :
    (s : Surroundings) (exec : ℕ → Plugin → Outcome) (index error : ℕ) (calls : List (List ℕ))
    (w : Plugin)
    → IsCell index
    → IsCell w.amx.pri
    → IsCell w.amx.hea
    → get_public_index on_runtime_error w.amx ≡ none
    → parts_of 10 calls ≡ true
    → (print_amx_backtrace s w.host.static.call_stack (block_errors true w)).0
      ≡ some (join 10 calls)
    → (v : Plugin) × (on_exec_error s exec index error w ≡ returns 0 v)
      × ((((w.host.block_exec_errors ≡ true) ⊎ Passes index error) × (v ≡ w))
          ⊎ (((w.host.block_exec_errors ≡ false) × (¬ Passes index error))
              × Reports error calls w v))
unfolding on_exec_error
on_exec_error-Reports s exec index error calls w i p h absent parts made =
    elim (Bool-cases w.host.block_exec_errors) [
      | inl blocked ↦ (w, rw (on_exec_error, blocked) refl, inl (inl blocked, refl))
      | inr free ↦ elim (is_ignored-cases index error i) [
        | inl (passes, passed) ↦ (w, rw (on_exec_error, free, passed) refl, inl (inr passes, refl))
        | inr (other, kept) ↦
            let (v, e, r) = reported s exec index error calls w free kept p h absent parts made in
            (v, e, inr ((free, other), r))
      ]
    ]
