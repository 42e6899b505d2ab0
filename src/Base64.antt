-- ===== src/Base64.antt =====
-- util/cryption/base64/base64.cpp: ZBase64::Encode, with its lines of 76 characters.
pub mod Reference
use Prim.Native.Nat.{bit_and, bit_or}
use exc.Common.{ℕ, ◌+◌, ◌*◌, ◌/◌, ◌%◌, ◌^◌, if◌then◌else◌, ◌==◌, List, [], ◌∷◌, ◌++◌, get_or}

-- EncodeTable: A to Z, a to z, 0 to 9, + and /.
unfoldable pub encode_table : List ℕ
encode_table =
    65 ∷ 66 ∷ 67 ∷ 68 ∷ 69 ∷ 70 ∷ 71 ∷ 72 ∷ 73 ∷ 74 ∷ 75 ∷ 76 ∷ 77 ∷ 78 ∷ 79 ∷ 80 ∷ 81 ∷ 82 ∷ 83
    ∷ 84 ∷ 85 ∷ 86 ∷ 87 ∷ 88 ∷ 89 ∷ 90 ∷ 97 ∷ 98 ∷ 99 ∷ 100 ∷ 101 ∷ 102 ∷ 103 ∷ 104 ∷ 105 ∷ 106
    ∷ 107 ∷ 108 ∷ 109 ∷ 110 ∷ 111 ∷ 112 ∷ 113 ∷ 114 ∷ 115 ∷ 116 ∷ 117 ∷ 118 ∷ 119 ∷ 120 ∷ 121 ∷ 122
    ∷ 48 ∷ 49 ∷ 50 ∷ 51 ∷ 52 ∷ 53 ∷ 54 ∷ 55 ∷ 56 ∷ 57 ∷ 43 ∷ 47 ∷ []

unfoldable pub letter : ℕ → ℕ
unfolding encode_table
letter n = get_or encode_table n 0

-- The four letters of three bytes, each from six bits.
unfoldable pub four_letters : ℕ → ℕ → ℕ → List ℕ
unfolding letter
four_letters a b c =
    letter (a / 2 ^ 2)
    ∷ letter (bit_and (bit_or (a * 2 ^ 4) (b / 2 ^ 4)) 0x3f)
    ∷ letter (bit_and (bit_or (b * 2 ^ 2) (c / 2 ^ 6)) 0x3f)
    ∷ letter (bit_and c 0x3f)
    ∷ []

-- `if (LineLength += 4, LineLength == 76)`: what is added, and the length from there on.
unfoldable pub line_end : ℕ → List ℕ
line_end line = if line + 4 == 76 then 13 ∷ 10 ∷ [] else []

unfoldable pub next_line : ℕ → ℕ
next_line line = if line + 4 == 76 then 0 else line + 4

-- The loop over the groups of three, and what is left behind it; 61 is `=`.
unfoldable pub encode_from : ℕ → List ℕ → List ℕ
unfolding four_letters line_end next_line
encode_from line (a ∷ b ∷ c ∷ rest) =
    four_letters a b c ++ line_end line ++ encode_from (next_line line) rest
encode_from line (a ∷ b ∷ []) =
    letter (bit_and a 0xfc / 2 ^ 2)
    ∷ letter (bit_or (bit_and a 0x03 * 2 ^ 4) (bit_and b 0xf0 / 2 ^ 4))
    ∷ letter (bit_and b 0x0f * 2 ^ 2)
    ∷ 61
    ∷ []
encode_from line (a ∷ []) =
    letter (bit_and a 0xfc / 2 ^ 2) ∷ letter (bit_and a 0x03 * 2 ^ 4) ∷ 61 ∷ 61 ∷ []
encode_from line [] = []

-- ZBase64::Encode
unfoldable pub base64_encode : List ℕ → List ℕ
unfolding encode_from
base64_encode bytes = encode_from 0 bytes
