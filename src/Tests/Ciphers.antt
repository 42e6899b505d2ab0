-- ===== src/Tests/Ciphers.antt =====
-- The known values of the checksums and of DES, and the theorems at small inputs.
use exc.Common.{ℕ, ◌≡◌, ◌≢◌, refl, arith, List, [], ◌∷◌, ◌++◌, some}
use exc.Crc.{calc16, calc32}
use exc.Crc.Bitwise.{remainder, itu_poly, crc32_poly, calc-remainder}
use exc.Crc.Errors.{calc_changed}
use exc.Base64.{base64_encode}
use exc.Base64.Reference.{decode, decode-base64_encode}
use exc.Des.{Block, block, encrypt, decrypt}
use exc.Des.Easy.{easy_encrypt, easy_decrypt, cleared, padded, easy_decrypt-encrypt}
use exc.Des.Decrypt.{decrypt-encrypt}

-- "123456789"
abbrev digits : List ℕ
digits = 0x31 ∷ 0x32 ∷ 0x33 ∷ 0x34 ∷ 0x35 ∷ 0x36 ∷ 0x37 ∷ 0x38 ∷ 0x39 ∷ []

crc16_check : calc16 digits ≡ 0x906e
unfolding calc16
crc16_check = refl

crc32_check : calc32 digits ≡ 0xcbf43926
unfolding calc32
crc32_check = refl

calc-remainder_example :
    (calc16 digits ≡ remainder 16 itu_poly digits)
    × (calc32 digits ≡ remainder 32 crc32_poly digits)
calc-remainder_example = calc-remainder digits (omega arith)

calc_changed_example :
    (calc16 (1 ∷ 2 ∷ 3 ∷ []) ≢ calc16 (1 ∷ 7 ∷ 3 ∷ []))
    × (calc32 (1 ∷ 2 ∷ 3 ∷ []) ≢ calc32 (1 ∷ 7 ∷ 3 ∷ []))
calc_changed_example =
    calc_changed (1 ∷ []) (3 ∷ []) 2 7 (omega arith) (omega arith) (omega arith) (omega arith)
      (λ e. omega (arith, e))

abbrev test_key : List ℕ
test_key = 0x13 ∷ 0x34 ∷ 0x57 ∷ 0x79 ∷ 0x9b ∷ 0xbc ∷ 0xdf ∷ 0xf1 ∷ []

abbrev plain : Block
plain = block 0x01 0x23 0x45 0x67 0x89 0xab 0xcd 0xef

des_check :
    encrypt test_key 0 (plain ∷ []) ≡ some (block 0x85 0xe8 0x13 0x54 0x0f 0x0a 0xb4 0x05 ∷ [])
unfolding encrypt
des_check = refl

decrypt-encrypt_example :
    (code : List Block) × (encrypt test_key 1 (plain ∷ plain ∷ []) ≡ some code)
    × (decrypt test_key 1 code ≡ some (plain ∷ plain ∷ []))
decrypt-encrypt_example = decrypt-encrypt test_key 1 plain (plain ∷ []) (omega arith)

-- In mode 1 the zeros and their number come back with the text.
easy_decrypt-encrypt_example :
    (code : List ℕ) × (easy_encrypt test_key 1 digits ≡ some code)
    × (easy_decrypt test_key 1 code ≡ cleared (padded digits ++ 0 ∷ []))
easy_decrypt-encrypt_example =
    easy_decrypt-encrypt test_key 1 digits (omega arith) (omega arith) (omega arith)

padded_check : padded digits ≡ digits ++ 0 ∷ 0 ∷ 0 ∷ 0 ∷ 0 ∷ 0 ∷ 0x36 ∷ []
unfolding padded
padded_check = refl

-- "Man" and "M"
encode_check : base64_encode (77 ∷ 97 ∷ 110 ∷ 77 ∷ []) ≡ 84 ∷ 87 ∷ 70 ∷ 117 ∷ 84 ∷ 81 ∷ 61 ∷ 61 ∷ []
unfolding base64_encode
encode_check = refl

decode-base64_encode_example : decode (base64_encode digits) ≡ digits
decode-base64_encode_example = decode-base64_encode digits (omega arith)
