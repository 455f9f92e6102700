-- ===== src/Vm/Naught.antt =====
-- Address naught (src/amx/amx.c, lines 1739 to 1740 and 3032 to 3114): the stores, with and without the check.
use samp_plugin_crashdetect.Prelude.{
  ℕ, ◌≡◌, ◌≢◌, refl, Bool, true, false, arith, add32, sub32, neg32, ◌⊎◌, ◌%◌, word_mod, Option,
  none, some,
}
use samp_plugin_crashdetect.Amx.Error.{err_address_0}
use samp_plugin_crashdetect.Amx.State.{World}
use samp_plugin_crashdetect.Amx.Memory.{read32-write32}
use samp_plugin_crashdetect.Vm.Opcode.{StoreOp, CellOp, cell_op}
use samp_plugin_crashdetect.Vm.Machine.{
  Regs, Activation, Next, running, abort, param, load, store, skip, bad_address, chknaught,
  address_naught,
}
use samp_plugin_crashdetect.Vm.Store.{exec_store, checked_store, store_width}
use samp_plugin_crashdetect.Vm.Load.{sync_frame}
use samp_plugin_crashdetect.Vm.Cells.{exec_cell}
use samp_plugin_crashdetect.Vm.Step.{dispatch}

-- The register that a store instruction writes.
abbrev pub store_value : StoreOp → Regs → ℕ
store_value StoreOp.stor_alt r = r.alt
store_value StoreOp.stor_s_alt r = r.alt
store_value StoreOp.sref_alt r = r.alt
store_value StoreOp.sref_s_alt r = r.alt
store_value _ r = r.pri

-- STOR.I and STRB.I verify the address first.
abbrev pub is_verified : StoreOp → Bool
is_verified StoreOp.stor_i = true
is_verified StoreOp.strb_i = true
is_verified _ = false

-- What it makes of the cell.
abbrev pub cell_effect : CellOp → ℕ → ℕ
cell_effect CellOp.zero v = 0
cell_effect CellOp.zero_s v = 0
cell_effect CellOp.inc v = add32 v 1
cell_effect CellOp.inc_s v = add32 v 1
cell_effect CellOp.inc_i v = add32 v 1
cell_effect _ v = sub32 v 1

module _ {W : Type 0} where
  -- The data address that a store instruction writes to.
  abbrev pub store_target : StoreOp → Regs → World W → ℕ
  store_target StoreOp.stor_pri r w = param r w
  store_target StoreOp.stor_alt r w = param r w
  store_target StoreOp.stor_s_pri r w = add32 r.frm (param r w)
  store_target StoreOp.stor_s_alt r w = add32 r.frm (param r w)
  store_target StoreOp.sref_pri r w = load w (param r w)
  store_target StoreOp.sref_alt r w = load w (param r w)
  store_target StoreOp.sref_s_pri r w = load w (add32 r.frm (param r w))
  store_target StoreOp.sref_s_alt r w = load w (add32 r.frm (param r w))
  store_target StoreOp.stor_i r w = r.alt
  store_target StoreOp.strb_i r w = r.alt

  -- As long as the host is in the state that it has in `w`, the hook answers `answer` and changes nothing.
  abbrev pub Answers : Activation W → World W → ℕ → Type 0
  Answers c w answer =
      (c.ext_hooks ≡ true)
      × ((v : World W) → v.host ≡ w.host → c.hooks.address_naught_ctl (neg32 1) v ≡ (answer, v))

  -- An error exit: an abort with this code and the memory of `w`.
  abbrev pub AbortsWith : Activation W → ℕ → World W → Next W → Type 0
  AbortsWith c err w n = (r' : Regs) × (w' : World W) × (n ≡ abort c err r' w') × (w'.mem ≡ w.mem)

  chknaught_banned :
      (c : Activation W) (r : Regs) (w : World W) (k : World W → Next W) (offs answer : ℕ)
      → Answers c w answer
      → answer ≢ 0
      → offs ≡ 0
      → chknaught c offs r w k ≡ abort c err_address_0 r w
  unfolding chknaught address_naught
  chknaught_banned c r w k offs answer (on, asks) ne z = ground (arith, asks w refl)

  banned_checked :
      (c : Activation W) (r : Regs) (w₀ w : World W) (v offs answer : ℕ)
      → Answers c w answer
      → answer ≢ 0
      → offs ≡ 0
      → w.mem ≡ w₀.mem
      → AbortsWith c err_address_0 w₀ (checked_store c offs v r w)
  unfolding checked_store
  banned_checked c r w₀ w v offs answer a ne z e =
      (r, w, chknaught_banned c r w (λ w'. running r (store w' offs v)) offs answer a ne z, e)

  -- With the check on as the machine's hook answers in this state, every store instruction that is aimed at data address 0 (and, where its address
  -- is verified, passes that test) aborts with AMX_ERR_ADDRESS_0, and has written nothing.
  pub banned_store :
      (op : StoreOp) (c : Activation W) (r : Regs) (w : World W) (answer : ℕ)
      → Answers c w answer
      → answer ≢ 0
      → store_target op r w ≡ 0
      → (is_verified op ≡ true → bad_address r w (store_target op r w) ≡ false)
      → AbortsWith c err_address_0 w (exec_store op c r w)
  unfolding exec_store
  banned_store StoreOp.stor_i c r w answer a ne z good =
      rw (good refl) (banned_checked c r w w r.pri r.alt answer a ne z refl)
  banned_store StoreOp.strb_i c r w answer a ne z good = rw (good refl) (
    skip 1 r,
    w,
    chknaught_banned c (skip 1 r) w (λ w'. running (skip 1 r) (store_width (param r w) r w')) r.alt
        answer a ne z,
    refl,
  )
  banned_store StoreOp.stor_pri c r w answer a ne z good =
      banned_checked c _ w _ _ _ answer a ne z refl
  banned_store _ c r w answer a ne z good = banned_checked c _ w _ _ _ answer a ne z refl

  chknaught_allowed :
      (c : Activation W) (r : Regs) (w : World W) (k : World W → Next W) (offs answer : ℕ)
      → Answers c w answer
      → (answer ≡ 0) ⊎ (offs ≢ 0)
      → chknaught c offs r w k ≡ k w
  unfolding chknaught address_naught
  chknaught_allowed c r w k offs answer (on, asks) ok = ground (arith, asks w refl)

  -- The instruction goes on, and the target cell holds `v`.
  abbrev pub Stores : World W → ℕ → ℕ → Next W → Type 0
  Stores w target v n =
      (r' : Regs) × (w' : World W) × (n ≡ running r' w') × (load w' target ≡ v % word_mod)

  stored :
      (c : Activation W) (r : Regs) (w₀ w : World W) (offs v answer : ℕ)
      → Answers c w answer
      → (answer ≡ 0) ⊎ (offs ≢ 0)
      → Stores w₀ offs v (checked_store c offs v r w)
  unfolding checked_store
  stored c r w₀ w offs v answer a ok = (
    r,
    store w offs v,
    chknaught_allowed c r w (λ w'. running r (store w' offs v)) offs answer a ok,
    read32-write32 w.mem (add32 w.amx.data_ptr offs) v,
  )

  -- With the check off, or at another address, every store instruction of a whole cell (whose address,
  -- where it is verified, passes the test) goes on and leaves its register in the target cell.
  pub allowed_store :
      (op : StoreOp) (c : Activation W) (r : Regs) (w : World W) (answer : ℕ)
      → op ≢ StoreOp.strb_i
      → Answers c w answer
      → (answer ≡ 0) ⊎ (store_target op r w ≢ 0)
      → (is_verified op ≡ true → bad_address r w (store_target op r w) ≡ false)
      → Stores w (store_target op r w) (store_value op r) (exec_store op c r w)
  unfolding exec_store
  allowed_store StoreOp.strb_i c r w answer cell a ok good = absurd (cell refl)
  allowed_store StoreOp.stor_i c r w answer cell a ok good =
      rw (good refl) (stored c r w w r.alt r.pri answer a ok)
  allowed_store StoreOp.sref_pri c r w answer cell a ok good =
      stored c _ w (sync_frame r w) _ r.pri answer a ok
  allowed_store StoreOp.sref_alt c r w answer cell a ok good =
      stored c _ w (sync_frame r w) _ r.alt answer a ok
  allowed_store StoreOp.stor_alt c r w answer cell a ok good = stored c _ w w _ r.alt answer a ok
  allowed_store StoreOp.stor_s_alt c r w answer cell a ok good = stored c _ w w _ r.alt answer a ok
  allowed_store StoreOp.sref_s_alt c r w answer cell a ok good = stored c _ w w _ r.alt answer a ok
  allowed_store _ c r w answer cell a ok good = stored c _ w w _ r.pri answer a ok

  -- The data address that an instruction on cells in memory changes; `none` for one on registers.
  abbrev pub cell_target : CellOp → Regs → World W → Option ℕ
  cell_target CellOp.zero r w = some (param r w)
  cell_target CellOp.zero_s r w = some (add32 r.frm (param r w))
  cell_target CellOp.inc r w = some (param r w)
  cell_target CellOp.inc_s r w = some (add32 r.frm (param r w))
  cell_target CellOp.inc_i r w = some r.pri
  cell_target CellOp.dec r w = some (param r w)
  cell_target CellOp.dec_s r w = some (add32 r.frm (param r w))
  cell_target CellOp.dec_i r w = some r.pri
  cell_target _ r w = none

  wrote :
      (r : Regs) (w : World W) (t : ℕ) (effect : ℕ → ℕ)
      → some t ≡ some 0
      → Stores w 0 (effect (load w 0)) (running r (store w t (effect (load w t))))
  wrote r w t effect h =
      let z : t ≡ 0 = cc in
      rw z (
        r,
        store w 0 (effect (load w 0)),
        refl,
        read32-write32 w.mem (add32 w.amx.data_ptr 0) (effect (load w 0)),
      )

  -- ZERO, INC and DEC in memory write to address naught too, whatever the state of the check: no
  -- activation makes one of them that is aimed at data address 0 abort, and the cell there is changed.
  pub naught_unchecked :
      (op : CellOp) (c : Activation W) (r : Regs) (w : World W)
      → cell_target op r w ≡ some 0
      → Stores w 0 (cell_effect op (load w 0)) (dispatch (cell_op op) c r w)
  unfolding dispatch exec_cell
  naught_unchecked CellOp.inc_pri c r w h = cc
  naught_unchecked CellOp.inc_alt c r w h = cc
  naught_unchecked CellOp.dec_pri c r w h = cc
  naught_unchecked CellOp.dec_alt c r w h = cc
  naught_unchecked CellOp.zero c r w h = wrote _ w _ (cell_effect CellOp.zero) h
  naught_unchecked CellOp.zero_s c r w h = wrote _ w _ (cell_effect CellOp.zero_s) h
  naught_unchecked CellOp.inc c r w h = wrote _ w _ (cell_effect CellOp.inc) h
  naught_unchecked CellOp.inc_s c r w h = wrote _ w _ (cell_effect CellOp.inc_s) h
  naught_unchecked CellOp.inc_i c r w h = wrote _ w _ (cell_effect CellOp.inc_i) h
  naught_unchecked CellOp.dec c r w h = wrote _ w _ (cell_effect CellOp.dec) h
  naught_unchecked CellOp.dec_s c r w h = wrote _ w _ (cell_effect CellOp.dec_s) h
  naught_unchecked CellOp.dec_i c r w h = wrote _ w _ (cell_effect CellOp.dec_i) h
