-- ===== src/Tests/MapTests.antt =====
-- The theorems on the tables of names, the options, strings and the handlers, applied.
use samp_plugin_crashdetect.Prelude.{◌≡◌, refl, none, [], ◌∷◌, codes}
use samp_plugin_crashdetect.Amx.Find.{name_lt, found, find_stub}
use samp_plugin_crashdetect.Amx.Find.Complete.{all_after, strictly_sorted}
use samp_plugin_crashdetect.Amx.Find.Agree.{find_stub-index_of}
use samp_plugin_crashdetect.Amx.Ref.{index_of}
use samp_plugin_crashdetect.Debug.Table.{same_name}
use samp_plugin_crashdetect.Plugin.HandlerMap.{create, get, destroy, lookup, serve_all, no_handlers}
use samp_plugin_crashdetect.Plugin.HandlerMap.Refined.{
  Promise, Stands, is_map, promised_all, serve_all-Stands,
}
use samp_plugin_crashdetect.Plugin.HandlerMap.Lifetime.{Alive, member, distinct, serve_all-Alive}
use samp_plugin_crashdetect.Strings.{split_string}
use samp_plugin_crashdetect.Strings.Joined.{join, lacks, parts_of, split_string-join}
use samp_plugin_crashdetect.Tests.AmxTests.{a_stub, c_stub}

find_stub-index_of_example : find_stub (99 ∷ []) (a_stub ∷ c_stub ∷ []) ≡ found 1
unfolding name_lt all_after strictly_sorted index_of same_name
find_stub-index_of_example = find_stub-index_of (99 ∷ []) (a_stub ∷ c_stub ∷ []) refl

abbrev promise : Promise
promise = record { handler_of = λ a. none; count = 0 }

serve_all-Stands_example :
    let cs = create 5 ∷ create 5 ∷ get 5 ∷ destroy 5 ∷ [] in
    ((serve_all cs no_handlers).0 ≡ (promised_all cs promise).0)
    × Stands (serve_all cs no_handlers).1 (promised_all cs promise).1
unfolding is_map lookup
serve_all-Stands_example =
    serve_all-Stands (create 5 ∷ create 5 ∷ get 5 ∷ destroy 5 ∷ []) no_handlers promise
      (record { proper = refl; counted = refl; same = λ a. refl })

serve_all-Alive_example : Alive (serve_all (create 5 ∷ destroy 5 ∷ destroy 5 ∷ []) no_handlers).1
unfolding is_map lookup member distinct
serve_all-Alive_example =
    serve_all-Alive (create 5 ∷ destroy 5 ∷ destroy 5 ∷ []) no_handlers (record {
      proper = refl;
      made = λ a h e. cc;
      undeleted = λ a h e. cc;
      owned = λ a b h e f. cc;
      was_made = λ h e. cc;
      once = refl;
    })

split_string-join_example :
    split_string 59 (join 59 (codes "a" ∷ [] ∷ codes "b" ∷ [])) ≡ codes "a" ∷ [] ∷ codes "b" ∷ []
unfolding lacks parts_of
split_string-join_example = split_string-join 59 (codes "a" ∷ [] ∷ codes "b" ∷ []) refl
