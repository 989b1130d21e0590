-- ===== src/Kernel/Path.antt =====
-- lab1/kernel/fs.c: path names. A path is the list of its bytes before the terminator; the name that
-- `skipelem` fills in is the list of the bytes before its terminator, or of all `DIRSIZ` of them.
pub mod Elements
mod Tests
use learn_mit_s.Common.{ℕ, zero, suc, Option, none, some, List, [], ◌∷◌, take, ◌==◌, if◌then◌else◌}

abbrev pub Text : Type 0
Text = List ℕ

abbrev pub dirsiz : ℕ
dirsiz = 14

-- `while(*path == '/') path++`
unfoldable pub skip_slashes : Text → Text
skip_slashes [] = []
skip_slashes (c ∷ path) = let rest = skip_slashes path in if c == 47 then rest else c ∷ path

-- `while(*path != '/' && *path != 0) path++`: the bytes passed over and the rest.
unfoldable pub element : Text → Text × Text
element [] = ([], [])
element (c ∷ path) =
    let (e, rest) = element path in if c == 47 then ([], c ∷ path) else (c ∷ e, rest)

-- `skipelem` behind its first loop: the name and the path left, or `none` for 0.
unfoldable pub skip_rest : Text → Option (Text × Text)
unfolding element skip_slashes
skip_rest [] = none
skip_rest (c ∷ path) = let (e, rest) = element (c ∷ path) in some (take dirsiz e, skip_slashes rest)

unfoldable pub skipelem : Text → Option (Text × Text)
unfolding skip_rest skip_slashes
skipelem path = skip_rest (skip_slashes path)

abbrev pub behind_name : Text → Option (List Text) → Option (List Text)
behind_name name none = none
behind_name name (some names) = some (name ∷ names)

-- The names that the loop of `namex` looks up where every lookup finds a directory; `none` when the
-- fuel, a round for each name, runs out.
unfoldable pub names_from : ℕ → Text → Option (List Text)
unfolding skipelem
names_from zero path = none
names_from (suc fuel) path = elim (skipelem path) [
  | none ↦ some []
  | some (name, rest) ↦ behind_name name (names_from fuel rest)
]
