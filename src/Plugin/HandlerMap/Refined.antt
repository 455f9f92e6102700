-- ===== src/Plugin/HandlerMap/Refined.antt =====
-- The map of handlers as a function from machines to handlers (src/amxhandler.h, lines 30 to 81).
use samp_plugin_crashdetect.Prelude.{
  ℕ, suc, ◌≡◌, refl, ap, arith, Bool, true, false, inl, inr, ◌==◌, if◌then◌else◌, List, [], ◌∷◌,
  Option, none, some, Option-cases,
}
use samp_plugin_crashdetect.Plugin.HandlerMap.{
  Handlers, Call, create, get, destroy, lookup, erase, insert, create_handler, get_handler,
  destroy_handler, serve, serve_all,
}

-- What the handlers promise: each machine has at most one, the first that was created for it since the
-- last was destroyed; `new` numbers them.
pub record Promise : Type 0 where
  pub handler_of : ℕ → Option ℕ
  pub count : ℕ

unfoldable pub promised : Call → Promise → Option ℕ × Promise
promised (create amx) p = (
  some p.count,
  record {
    handler_of = λ a. elim (p.handler_of a) [
      | some h ↦ some h
      | none ↦ if amx == a then some p.count else none
    ];
    count = suc p.count;
  },
)
promised (get amx) p = (p.handler_of amx, p)
promised (destroy amx) p =
    (none, record p { handler_of = λ a. if amx == a then none else p.handler_of a })

unfoldable pub promised_all : List Call → Promise → List (Option ℕ) × Promise
unfolding promised
promised_all [] p = ([], p)
promised_all (c ∷ cs) p =
    let (answer, p') = promised c p in
    let (answers, p'') = promised_all cs p' in (answer ∷ answers, p'')

-- No machine has two entries.
unfoldable pub is_map : List (ℕ × ℕ) → Bool
unfolding lookup
is_map [] = true
is_map ((a, h) ∷ m) = elim (lookup a m) [ none ↦ is_map m | some _ ↦ false ]

-- The map stands for the function.
pub record Stands (s : Handlers) (p : Promise) : Type 0 where
  pub proper : is_map s.handlers ≡ true
  pub counted : s.next ≡ p.count
  pub same : (a : ℕ) → lookup a s.handlers ≡ p.handler_of a

pub lookup-insert :
    (a amx h : ℕ) (m : List (ℕ × ℕ))
    → lookup a (insert amx h m)
      ≡ (elim (lookup a m) [ some g ↦ some g | none ↦ if amx == a then some h else none ])
unfolding insert lookup
lookup-insert a amx h m = elim (Option-cases (lookup amx m)) [
  | inl e ↦ ground (arith, e)
  | inr (g, e) ↦ ground (arith, e)
]

pub lookup-erase :
    (a amx : ℕ) (m : List (ℕ × ℕ))
    → is_map m ≡ true
    → lookup a (erase amx m) ≡ (if amx == a then none else lookup a m)
unfolding erase lookup is_map
lookup-erase a amx [] k = ground arith
lookup-erase a amx ((b, h) ∷ m) k = elim (Option-cases (lookup b m)) [
  | inl e ↦
      let rest : is_map m ≡ true = ground (arith, k, e) in
      ground (arith, e, lookup-erase a amx m rest)
  | inr (g, e) ↦ absurd (ground (arith, k, e))
]

pub insert-is_map :
    (amx h : ℕ) (m : List (ℕ × ℕ)) → is_map m ≡ true → is_map (insert amx h m) ≡ true
unfolding insert is_map
insert-is_map amx h m k = elim (Option-cases (lookup amx m)) [
  | inl e ↦ ground (arith, e, k)
  | inr (g, e) ↦ ground (arith, e, k)
]

pub erase-is_map : (amx : ℕ) (m : List (ℕ × ℕ)) → is_map m ≡ true → is_map (erase amx m) ≡ true
unfolding erase is_map
erase-is_map amx [] k = refl
erase-is_map amx ((b, h) ∷ m) k = elim (Option-cases (lookup b m)) [
  | inl e ↦
      let rest : is_map m ≡ true = ground (arith, k, e) in
      ground (arith, e, erase-is_map amx m rest, lookup-erase b amx m rest, rest)
  | inr (g, e) ↦ absurd (ground (arith, k, e))
]

destroy-Stands :
    (amx : ℕ) (s : Handlers) (p : Promise) (o : Option ℕ)
    → lookup amx s.handlers ≡ o
    → Stands s p
    → let s' : Handlers = elim o [
      | none ↦ s
      | some h ↦ record s { handlers = erase amx s.handlers; deleted = h ∷ s.deleted }
    ] in
      Stands s' (record p { handler_of = λ a. if amx == a then none else p.handler_of a })
destroy-Stands amx s p none e k = record {
  proper = k.proper;
  counted = k.counted;
  same = λ a. ground (arith, e, k.same a);
}
destroy-Stands amx s p (some h) e k = record {
  proper = erase-is_map amx s.handlers k.proper;
  counted = k.counted;
  same = λ a. rw (lookup-erase a amx s.handlers k.proper, k.same a) refl;
}

-- One call
serve-Stands :
    (c : Call) (s : Handlers) (p : Promise)
    → Stands s p
    → ((serve c s).0 ≡ (promised c p).0) × Stands (serve c s).1 (promised c p).1
unfolding serve promised create_handler get_handler destroy_handler
serve-Stands (create amx) s p k = (
  ap some k.counted,
  record {
    proper = insert-is_map amx s.next s.handlers k.proper;
    counted = ap suc k.counted;
    same = λ a. ground (arith, lookup-insert a amx s.next s.handlers, k.same a, k.counted);
  },
)
serve-Stands (get amx) s p k = (k.same amx, k)
serve-Stands (destroy amx) s p k = (refl, destroy-Stands amx s p _ refl k)

-- From a map that stands for a function, every sequence of calls gives the answers that are promised, and
-- leaves a map that stands for the function that is promised.
pub serve_all-Stands :
    (cs : List Call) (s : Handlers) (p : Promise)
    → Stands s p
    → ((serve_all cs s).0 ≡ (promised_all cs p).0) × Stands (serve_all cs s).1 (promised_all cs p).1
unfolding serve_all promised_all
serve_all-Stands [] s p k = (refl, k)
serve_all-Stands (c ∷ cs) s p k =
    let (answer, k') = serve-Stands c s p k in
    let (answers, k'') = serve_all-Stands cs (serve c s).1 (promised c p).1 k' in
    (rw (answer, answers) refl, k'')
