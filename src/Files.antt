-- ===== src/Files.antt =====
-- Paths as bytes (src/fileutils.cpp, lines 34 to 66).
use samp_plugin_crashdetect.Prelude.{
  ℕ, Bool, ◌==◌, ◌||◌, if◌then◌else◌, List, [], ◌∷◌, Option, none, some,
}

-- What follows the last character with a property; `none` if there is none, as for `find_last_of`,
-- `rfind` and `strrchr`
unfoldable pub after_last : (ℕ → Bool) → List ℕ → Option (List ℕ)
after_last p [] = none
after_last p (c ∷ s) = elim (after_last p s) [
  | some rest ↦ some rest
  | none ↦ if p c then some s else none
]

-- What stands before the last one, all if there is none
unfoldable pub before_last : (ℕ → Bool) → List ℕ → List ℕ
unfolding after_last
before_last p [] = []
before_last p (c ∷ s) = elim (after_last p (c ∷ s)) [
  | none ↦ c ∷ s
  | some _ ↦ elim (after_last p s) [ none ↦ [] | some _ ↦ c ∷ before_last p s ]
]

unfoldable pub is_separator : ℕ → Bool
is_separator c = (c == 47) || (c == 92)

unfoldable pub is_period : ℕ → Bool
is_period c = c == 46

-- `GetFileName`
unfoldable pub get_file_name : List ℕ → List ℕ
unfolding after_last is_separator
get_file_name path = elim (after_last is_separator path) [ some rest ↦ rest | none ↦ path ]

-- `GetBaseName`
unfoldable pub get_base_name : List ℕ → List ℕ
unfolding get_file_name before_last is_period
get_base_name path = before_last is_period (get_file_name path)

-- `GetFileExtension`
unfoldable pub get_file_extension : List ℕ → List ℕ
unfolding after_last is_period
get_file_extension path = elim (after_last is_period path) [ some rest ↦ rest | none ↦ [] ]

-- `GetFileExtensionPtr`: `none` is the null pointer.
unfoldable pub get_file_extension_ptr : List ℕ → Option (List ℕ)
unfolding after_last is_period
get_file_extension_ptr path = after_last is_period path
