-- ===== src/Tests/Strings.antt =====
-- SysUtil on short strings: `,` is 44.
use exc.Common.{◌<◌, ◌≡◌, refl, ◌++◌, List, [], ◌∷◌, length, ◌⊎◌, none, some}
use exc.Ini.Dict.{Text}
use exc.SysUtil.{
  strsplit, split_from, skip, token, behind, strtrim, trim_front, trim_rest, trim_back, path_cat,
}
use exc.SysUtil.Trim.{AllSpaces, IsTrimmed, strtrim_lem}

-- ",,ab,c"
abbrev listed : Text
listed = 44 ∷ 44 ∷ 97 ∷ 98 ∷ 44 ∷ 99 ∷ []

abbrev pieces : List Text
pieces = (97 ∷ 98 ∷ []) ∷ (99 ∷ []) ∷ []

split_test : strsplit listed 44 ≡ pieces
unfolding strsplit split_from skip token behind
split_test = refl

-- " a b "
abbrev padded : Text
padded = 32 ∷ 97 ∷ 32 ∷ 98 ∷ 9 ∷ []

trim_test : strtrim padded ≡ some (97 ∷ 32 ∷ 98 ∷ [])
unfolding strtrim trim_front trim_rest trim_back
trim_test = refl

blank_test : strtrim (32 ∷ []) ≡ none
unfolding strtrim trim_front trim_rest
blank_test = refl

path_test : path_cat (97 ∷ 47 ∷ []) (98 ∷ []) 47 ≡ some (97 ∷ 47 ∷ 98 ∷ [])
unfolding path_cat
path_test = refl

strtrim_example :
    ((0 < length padded) × AllSpaces padded × (strtrim padded ≡ none))
    ⊎ ((a : Text) × (b : Text) × (r : Text) × (strtrim padded ≡ some r)
        × (padded ≡ a ++ (r ++ b))
        × AllSpaces a
        × AllSpaces b
        × IsTrimmed r)
strtrim_example = strtrim_lem padded
