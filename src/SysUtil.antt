-- ===== src/SysUtil.antt =====
-- comLib/SysUtil.cpp: the functions of SysUtil on strings. none is undefined behaviour.
pub mod Split
pub mod Trim
use exc.Common.{
  last, ℕ, zero, suc, Bool, true, false, ◌&&◌, ◌||◌, if◌then◌else◌, ◌==◌, List, [], ◌∷◌, ◌++◌,
  Option, none, some, length,
}
use exc.Ini.Dict.{Text}

-- From the first character on that is not `c`, as `find_first_not_of` finds it.
unfoldable pub skip : ℕ → Text → Text
skip c [] = []
skip c (x ∷ xs) = let rest = skip c xs in if x == c then rest else x ∷ xs

-- Up to the first `c`, as `find_first_of` finds it, and from there on.
unfoldable pub token : ℕ → Text → Text
token c [] = []
token c (x ∷ xs) = let rest = token c xs in if x == c then [] else x ∷ rest

unfoldable pub behind : ℕ → Text → Text
behind c [] = []
behind c (x ∷ xs) = let rest = behind c xs in if x == c then x ∷ xs else rest

-- The loop of util_strsplit, on fuel: the string from `lastPos` on, nothing for npos.
unfoldable pub split_from : ℕ → ℕ → Text → List Text
split_from zero c s = []
split_from (suc fuel) c [] = []
split_from (suc fuel) c (x ∷ xs) = token c (x ∷ xs) ∷ split_from fuel c (skip c (behind c (x ∷ xs)))

-- util_strsplit
unfoldable pub strsplit : Text → ℕ → List Text
unfolding split_from skip
strsplit s c = split_from (length s) c (skip c s)

-- A space or a tab.
abbrev pub is_space : ℕ → Bool
is_space x = (x == 32) || (x == 9)

-- The first loop of util_strtrim.
unfoldable pub trim_front : Text → Text
trim_front [] = []
trim_front (x ∷ xs) = let rest = trim_front xs in if is_space x then rest else x ∷ xs

abbrev pub is_nil : Text → Bool
is_nil [] = true
is_nil (x ∷ xs) = false

-- What the two loops from the end leave of the characters behind the first.
unfoldable pub trim_back : Text → Text
trim_back [] = []
trim_back (x ∷ xs) = let rest = trim_back xs in if is_space x && is_nil rest then [] else x ∷ rest

-- The loops from the end start at `s.end() - 1`, which an empty string has not.
unfoldable pub trim_rest : Text → Option Text
unfolding trim_back
trim_rest [] = none
trim_rest (x ∷ xs) = some (x ∷ trim_back xs)

-- util_strtrim
unfoldable pub strtrim : Text → Option Text
unfolding trim_front trim_rest
strtrim [] = some []
strtrim (x ∷ xs) = trim_rest (trim_front (x ∷ xs))

-- util_path_cat; the last character of an empty `dir` is not there.
unfoldable pub path_cat : Text → Text → ℕ → Option Text
path_cat [] filename slash = none
path_cat (x ∷ xs) filename slash =
    some ((if last x xs == slash then x ∷ xs else (x ∷ xs) ++ slash ∷ []) ++ filename)
