-- ===== src/Plugin/HandlerMap/Lifetime.antt =====
-- The lifetime of handlers (src/amxhandler.h, lines 30 to 81).
use samp_plugin_crashdetect.Prelude.{
  ℕ, ◌<◌, ◌≡◌, ◌≢◌, sym, refl, arith, Bool, true, false, Bool-cases, ◌⊎◌, inl, inr, ◌==◌, ◌&&◌,
  ◌||◌, not, List, [], ◌∷◌, Option, none, some, Option-cases,
}
use samp_plugin_crashdetect.Plugin.HandlerMap.{
  Handlers, Call, create, get, destroy, lookup, erase, insert, create_handler, get_handler,
  destroy_handler, serve, serve_all,
}
use samp_plugin_crashdetect.Plugin.HandlerMap.Refined.{
  is_map, lookup-insert, lookup-erase, insert-is_map, erase-is_map,
}

unfoldable pub member : ℕ → List ℕ → Bool
member h [] = false
member h (g ∷ gs) = (g == h) || member h gs

unfoldable pub distinct : List ℕ → Bool
unfolding member
distinct [] = true
distinct (h ∷ hs) = not (member h hs) && distinct hs

-- A handler of the map was made by `new` and has not been deleted, and belongs to one machine. What was
-- deleted was made by `new`, and was deleted once.
pub record Alive (s : Handlers) : Type 0 where
  pub proper : is_map s.handlers ≡ true
  pub made : (a h : ℕ) → lookup a s.handlers ≡ some h → h < s.next
  pub undeleted : (a h : ℕ) → lookup a s.handlers ≡ some h → member h s.deleted ≡ false
  pub owned : (a b h : ℕ) → lookup a s.handlers ≡ some h → lookup b s.handlers ≡ some h → a ≡ b
  pub was_made : (h : ℕ) → member h s.deleted ≡ true → h < s.next
  pub once : distinct s.deleted ≡ true

-- An entry after `insert` is an old one, or the new one.
found_in :
    (a amx n h : ℕ) (m : List (ℕ × ℕ))
    → lookup a (insert amx n m) ≡ some h
    → (lookup a m ≡ some h) ⊎ ((amx ≡ a) × (h ≡ n))
found_in a amx n h m e = elim (Option-cases (lookup a m)) [
  | inl none_there ↦ inr (ground (arith, e, lookup-insert a amx n m, none_there))
  | inr (g, there) ↦ inl (ground (arith, e, lookup-insert a amx n m, there))
]

unmade : (s : Handlers) → Alive s → member s.next s.deleted ≡ false
unmade s k = elim (Bool-cases (member s.next s.deleted)) [
  | inl was ↦ absurd (let l = k.was_made s.next was in omega arith)
  | inr not_yet ↦ not_yet
]

create-Alive : (amx : ℕ) (s : Handlers) → Alive s → Alive (create_handler amx s).1
unfolding create_handler
create-Alive amx s k = record {
  proper = insert-is_map amx s.next s.handlers k.proper;
  made = λ a h e. elim (found_in a amx s.next h s.handlers e) [
    | inl old ↦ let l = k.made a h old in omega arith
    | inr (_, new) ↦ omega arith
  ];
  undeleted = λ a h e. elim (found_in a amx s.next h s.handlers e) [
    | inl old ↦ k.undeleted a h old
    | inr (_, new) ↦ rw new (unmade s k)
  ];
  owned = λ a b h e f. elim (found_in a amx s.next h s.handlers e) [
    | inl old ↦ elim (found_in b amx s.next h s.handlers f) [
      | inl old' ↦ k.owned a b h old old'
      | inr (_, new) ↦ absurd (let l = k.made a h old in omega arith)
    ]
    | inr (at_a, new) ↦ elim (found_in b amx s.next h s.handlers f) [
      | inl old' ↦ absurd (let l = k.made b h old' in omega arith)
      | inr (at_b, _) ↦ cc
    ]
  ];
  was_made = λ h e. let l = k.was_made h e in omega arith;
  once = k.once;
}

-- An entry after `erase` is an old one of another machine.
kept_in :
    (a amx h : ℕ) (m : List (ℕ × ℕ))
    → is_map m ≡ true
    → lookup a (erase amx m) ≡ some h
    → (lookup a m ≡ some h) × (amx ≢ a)
kept_in a amx h m k e = (
  ground (arith, e, lookup-erase a amx m k),
  λ same. ground (arith, e, lookup-erase a amx m k, same),
)

destroy-Alive :
    (amx : ℕ) (s : Handlers) (o : Option ℕ)
    → lookup amx s.handlers ≡ o
    → Alive s
    → let s' : Handlers = elim o [
      | none ↦ s
      | some h ↦ record s { handlers = erase amx s.handlers; deleted = h ∷ s.deleted }
    ] in
      Alive s'
unfolding member distinct
destroy-Alive amx s none e k = k
destroy-Alive amx s (some g) e k = record {
  proper = erase-is_map amx s.handlers k.proper;
  made = λ a h f. k.made a h (kept_in a amx h s.handlers k.proper f).0;
  undeleted = λ a h f.
      let (old, other) = kept_in a amx h s.handlers k.proper f in
      let differ : g ≢ h = λ same. other (k.owned amx a h (rw (sym same) e) old) in
      ground (arith, differ, k.undeleted a h old);
  owned = λ a b h f f'.
      k.owned a b h (kept_in a amx h s.handlers k.proper f).0
        (kept_in b amx h s.handlers k.proper f').0;
  was_made = λ h f. elim (Bool-cases (g == h)) [
    | inl same ↦ let l = k.made amx g e in ground (arith, same)
    | inr other ↦ k.was_made h (ground (arith, f, other))
  ];
  once = ground (arith, k.undeleted amx g e, k.once);
}

serve-Alive : (c : Call) (s : Handlers) → Alive s → Alive (serve c s).1
unfolding serve get_handler destroy_handler
serve-Alive (create amx) s k = create-Alive amx s k
serve-Alive (get amx) s k = k
serve-Alive (destroy amx) s k = destroy-Alive amx s _ refl k

-- After every sequence of calls, the handlers that the map has are alive, each of one machine, and no
-- handler has been deleted twice, if that held before.
pub serve_all-Alive : (cs : List Call) (s : Handlers) → Alive s → Alive (serve_all cs s).1
unfolding serve_all
serve_all-Alive [] s k = k
serve_all-Alive (c ∷ cs) s k = serve_all-Alive cs (serve c s).1 (serve-Alive c s k)
