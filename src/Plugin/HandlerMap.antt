-- ===== src/Plugin/HandlerMap.antt =====
-- The handlers of the loaded machines: `AMXHandler` (src/amxhandler.h, lines 30 to 81). A machine is its
-- address, a handler a number that `new` gives it; `std::map` is a list of pairs.
pub mod Lifetime
pub mod Refined
use samp_plugin_crashdetect.Prelude.{ℕ, suc, ◌==◌, if◌then◌else◌, List, [], ◌∷◌, Option, none, some}

-- The map, the number of the next handler, and the handlers that have been deleted
pub record Handlers : Type 0 where
  pub handlers : List (ℕ × ℕ)
  pub next : ℕ
  pub deleted : List ℕ

-- `find` of the map
unfoldable pub lookup : ℕ → List (ℕ × ℕ) → Option ℕ
lookup amx [] = none
lookup amx ((a, h) ∷ m) = if a == amx then some h else lookup amx m

-- `erase` of what `find` has found
unfoldable pub erase : ℕ → List (ℕ × ℕ) → List (ℕ × ℕ)
erase amx [] = []
erase amx ((a, h) ∷ m) = if a == amx then m else (a, h) ∷ erase amx m

-- `insert` leaves an entry that is there.
unfoldable pub insert : ℕ → ℕ → List (ℕ × ℕ) → List (ℕ × ℕ)
unfolding lookup
insert amx h m = elim (lookup amx m) [ none ↦ (amx, h) ∷ m | some _ ↦ m ]

-- `CreateHandler`: the new handler
unfoldable pub create_handler : ℕ → Handlers → ℕ × Handlers
unfolding insert
create_handler amx s =
    (s.next, record s { handlers = insert amx s.next s.handlers; next = suc s.next })

-- `GetHandler`: `none` is the null pointer.
unfoldable pub get_handler : ℕ → Handlers → Option ℕ
unfolding lookup
get_handler amx s = lookup amx s.handlers

-- `DestroyHandler`
unfoldable pub destroy_handler : ℕ → Handlers → Handlers
unfolding lookup erase
destroy_handler amx s = elim (lookup amx s.handlers) [
  | none ↦ s
  | some h ↦ record s { handlers = erase amx s.handlers; deleted = h ∷ s.deleted }
]

-- The calls that the plugin makes, and their answers
pub data Call : Type 0 where
  create : ℕ → Call
  get : ℕ → Call
  destroy : ℕ → Call

unfoldable pub serve : Call → Handlers → Option ℕ × Handlers
unfolding create_handler get_handler destroy_handler
serve (create amx) s = let (h, s') = create_handler amx s in (some h, s')
serve (get amx) s = (get_handler amx s, s)
serve (destroy amx) s = (none, destroy_handler amx s)

unfoldable pub serve_all : List Call → Handlers → List (Option ℕ) × Handlers
unfolding serve
serve_all [] s = ([], s)
serve_all (c ∷ cs) s =
    let (answer, s') = serve c s in let (answers, s'') = serve_all cs s' in (answer ∷ answers, s'')

abbrev pub no_handlers : Handlers
no_handlers = record { handlers = []; next = 0; deleted = [] }
