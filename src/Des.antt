-- ===== src/Des.antt =====
-- util/cryption/DES/DES.cpp: the class DES, on a system whose `unsigned long` has 32 bits.
pub mod Tables
pub mod Halves
pub mod Inverse
pub mod Decrypt
pub mod Easy
use Prim.Native.Nat.{bit_and, bit_or, bit_xor}
use exc.Common.{
  ℕ, zero, suc, ◌+◌, ◌-◌, ◌*◌, ◌/◌, ◌%◌, ◌^◌, Bool, true, false, not, if◌then◌else◌, ltb, leb, ◌==◌,
  List, [], ◌∷◌, ◌++◌, Option, none, some, map, get_or, set, replicate,
}
use exc.Des.Tables.{bytebit, bigbyte, pc1, totrot, pc2, sp1, sp2, sp3, sp4, sp5, sp6, sp7, sp8}

-- The two halves, `leftt` and `right`.
abbrev pub Halves : Type 0
Halves = ℕ × ℕ

abbrev pub flip : Halves → Halves
flip s = (s.1, s.0)

-- `work = ((a >> k) ^ b) & m; b ^= work; a ^= (work << k)`
unfoldable pub delta : ℕ → ℕ → Halves → Halves
delta k m s =
    let work = bit_and (bit_xor (s.0 / 2 ^ k) s.1) m in
    (bit_xor s.0 (work * 2 ^ k % 2 ^ 32), bit_xor s.1 work)

-- The same with the roles of the halves changed.
abbrev pub delta_back : ℕ → ℕ → Halves → Halves
delta_back k m s = flip (delta k m (flip s))

-- `work = (leftt ^ right) & 0xaaaaaaaa; leftt ^= work; right ^= work`
unfoldable pub exchange : Halves → Halves
exchange s = let work = bit_and (bit_xor s.0 s.1) 0xaaaaaaaa in (bit_xor s.0 work, bit_xor s.1 work)

-- `((x << 1) | ((x >> 31) & 1)) & 0xffffffff` and `(x << 31) | (x >> 1)`
unfoldable pub rotate_left : ℕ → ℕ
rotate_left x = bit_and (bit_or (x * 2 % 2 ^ 32) (bit_and (x / 2 ^ 31) 1)) 0xffffffff

unfoldable pub rotate_right : ℕ → ℕ
rotate_right x = bit_or (x * 2 ^ 31 % 2 ^ 32) (x / 2)

unfoldable pub mix : Halves → Halves
unfolding exchange rotate_left
mix s = let t = exchange (s.0, rotate_left s.1) in (rotate_left t.0, t.1)

unfoldable pub unmix : Halves → Halves
unfolding exchange rotate_right
unmix s = let t = exchange (s.0, rotate_right s.1) in (rotate_right t.0, t.1)

-- desfunc before its loop, and behind it, where `*block++ = right; *block = leftt`.
unfoldable pub initial : Halves → Halves
unfolding delta mix
initial s =
    mix (
      delta_back 8 0x00ff00ff
        (delta_back 2 0x33333333 (delta 16 0x0000ffff (delta 4 0x0f0f0f0f s))))

unfoldable pub final : Halves → Halves
unfolding delta unmix
final s = flip (
    delta_back 4 0x0f0f0f0f
      (delta_back 16 0x0000ffff (delta 2 0x33333333 (delta 8 0x00ff00ff (unmix s)))))

-- The entry of a table at six bits of `work`.
abbrev pub entry : List ℕ → ℕ → ℕ → ℕ
entry table work k = get_or table (bit_and (work / 2 ^ k) 0x3f) 0

-- `fval` for a half and two words of the key.
unfoldable pub f_value : ℕ → ℕ × ℕ → ℕ
unfolding sp1 sp2 sp3 sp4 sp5 sp6 sp7 sp8
f_value half key =
    let work = bit_xor (bit_or (half * 2 ^ 28 % 2 ^ 32) (half / 2 ^ 4)) key.0 in
    let odd =
      bit_or (bit_or (bit_or (entry sp7 work 0) (entry sp5 work 8)) (entry sp3 work 16))
        (entry sp1 work 24) in
    let other = bit_xor half key.1 in
    bit_or
      (bit_or (bit_or (bit_or odd (entry sp8 other 0)) (entry sp6 other 8)) (entry sp4 other 16))
      (entry sp2 other 24)

-- The loop of desfunc: the words of the key, two to a half round and four to a round.
unfoldable pub rounds : List (ℕ × ℕ) → Halves → Halves
unfolding f_value
rounds (p ∷ q ∷ keys) s =
    let leftt = bit_xor s.0 (f_value s.1 p) in rounds keys (leftt, bit_xor s.1 (f_value leftt q))
rounds (p ∷ []) s = s
rounds [] s = s

unfoldable pub desfunc : List (ℕ × ℕ) → Halves → Halves
unfolding initial rounds final
desfunc keys s = final (rounds keys (initial s))

-- Eight bytes.
pub data Block : Type 0 where
  block : ℕ → ℕ → ℕ → ℕ → ℕ → ℕ → ℕ → ℕ → Block

-- Four bytes as a word, the highest first, and back.
unfoldable pub to_word : ℕ → ℕ → ℕ → ℕ → ℕ
to_word a b c d =
    bit_or
      (bit_or (bit_or (bit_and a 0xff * 2 ^ 24) (bit_and b 0xff * 2 ^ 16)) (bit_and c 0xff * 2 ^ 8))
      (bit_and d 0xff)

unfoldable pub scrunch : Block → Halves
unfolding to_word
scrunch (block a b c d e f g h) = (to_word a b c d, to_word e f g h)

abbrev pub byte_of : ℕ → ℕ → ℕ
byte_of w k = bit_and (w / 2 ^ k) 0xff

unfoldable pub unscrun : Halves → Block
unscrun s =
    block (byte_of s.0 24) (byte_of s.0 16) (byte_of s.0 8) (byte_of s.0 0) (byte_of s.1 24)
      (byte_of s.1 16) (byte_of s.1 8) (byte_of s.1 0)

unfoldable pub des_block : List (ℕ × ℕ) → Block → Block
unfolding scrunch desfunc unscrun
des_block keys b = unscrun (desfunc keys (scrunch b))

-- The bytes of a key, from the most significant bit on, in the order of pc1. The parameter is
-- `key[8]`, eight bytes that the caller has: what the list lacks is read as 0 here, and the caller's
-- model, EasyDES, tests that nothing lacks.
unfoldable pub pc1m : List ℕ → List Bool
unfolding pc1 bytebit
pc1m key = map (λ l. not (bit_and (get_or key (l / 2 ^ 3) 0) (get_or bytebit (l % 8) 0) == 0)) pc1

-- `pcr[j]` in round `i`: both parts of 28 rotate.
unfoldable pub pcr : List Bool → ℕ → ℕ → Bool
unfolding totrot
pcr bits i j =
    let l = j + get_or totrot i 0 in
    let end = if ltb j 28 then 28 else 56 in
    if ltb l end then get_or bits l false else get_or bits (l - 28) false

-- The loop over the 24 bits of a word.
unfoldable pub gather : (ℕ → Bool) → List ℕ → List ℕ → ℕ → ℕ
gather bit (p ∷ places) (b ∷ weights) kn =
    gather bit places weights (if bit p then bit_or kn b else kn)
gather bit places weights kn = kn

abbrev behind : ℕ → List ℕ → List ℕ
behind zero l = l
behind (suc n) [] = []
behind (suc n) (x ∷ l) = behind n l

-- `kn[m]` and `kn[n]` of round `i`, for a key of eight bytes.
unfoldable pub raw_key : List ℕ → ℕ → ℕ × ℕ
unfolding pc1m pcr gather pc2 bigbyte
raw_key key i =
    (gather (pcr (pc1m key) i) pc2 bigbyte 0, gather (pcr (pc1m key) i) (behind 24 pc2) bigbyte 0)

-- One round of cookey.
unfoldable pub cook : ℕ × ℕ → ℕ × ℕ
cook raw = (
  bit_or
      (bit_or
        (bit_or (bit_and raw.0 0x00fc0000 * 2 ^ 6 % 2 ^ 32) (bit_and raw.0 0x00000fc0 * 2 ^ 10))
        (bit_and raw.1 0x00fc0000 / 2 ^ 10))
      (bit_and raw.1 0x00000fc0 / 2 ^ 6),
  bit_or
      (bit_or
        (bit_or (bit_and raw.0 0x0003f000 * 2 ^ 12 % 2 ^ 32) (bit_and raw.0 0x0000003f * 2 ^ 16))
        (bit_and raw.1 0x0003f000 / 2 ^ 4))
      (bit_and raw.1 0x0000003f),
)

pub data Direction : Type 0 where
  encrypting decrypting : Direction

abbrev pub key_place : Direction → ℕ → ℕ
key_place encrypting i = i
key_place decrypting i = 15 - i

-- The loop of deskey, of which `n` rounds are left.
unfoldable pub key_loop : Direction → List ℕ → ℕ → List (ℕ × ℕ) → List (ℕ × ℕ)
key_loop md key zero kn = kn
key_loop md key (suc n) kn =
    key_loop md key n (set kn (key_place md (15 - n)) (raw_key key (15 - n)))

-- deskey, with cookey and usekey: the 32 words of KnL, two by two.
unfoldable pub deskey : List ℕ → Direction → List (ℕ × ℕ)
unfolding key_loop raw_key cook
deskey key md = map cook (key_loop md key 16 (replicate 16 (0, 0)))

-- `des` on so many blocks.
unfoldable pub des : List (ℕ × ℕ) → List Block → List Block
unfolding des_block
des keys blocks = map (des_block keys) blocks

unfoldable pub xor_block : Block → Block → Block
xor_block (block a b c d e f g h) (block a' b' c' d' e' f' g' h') =
    block (bit_xor a a') (bit_xor b b') (bit_xor c c') (bit_xor d d') (bit_xor e e') (bit_xor f f')
      (bit_xor g g') (bit_xor h h')

abbrev pub zero_block : Block
zero_block = block 0 0 0 0 0 0 0 0

-- The loops of cbc_enc and cbc_dec, with CBCVector. What cbc_dec does for the first block is the
-- loop with a vector of zeros, but for the `^`.
unfoldable pub cbc_enc : List (ℕ × ℕ) → Block → List Block → List Block
unfolding des_block xor_block
cbc_enc keys vector [] = []
cbc_enc keys vector (b ∷ blocks) =
    let out = des_block keys (xor_block vector b) in out ∷ cbc_enc keys out blocks

unfoldable pub cbc_dec_loop : List (ℕ × ℕ) → Block → List Block → List Block
unfolding des_block xor_block
cbc_dec_loop keys vector [] = []
cbc_dec_loop keys vector (b ∷ blocks) =
    xor_block vector (des_block keys b) ∷ cbc_dec_loop keys b blocks

unfoldable pub cbc_dec : List (ℕ × ℕ) → List Block → List Block
unfolding cbc_dec_loop
cbc_dec keys [] = []
cbc_dec keys (b ∷ blocks) = des_block keys b ∷ cbc_dec_loop keys b blocks

-- DES::encrypt and DES::decrypt on the whole blocks of `data`: none is the answer 0.
unfoldable pub encrypt : List ℕ → ℕ → List Block → Option (List Block)
unfolding deskey des cbc_enc
encrypt key mode [] = none
encrypt key mode (b ∷ blocks) =
    let keys = deskey key encrypting in
    some (if mode == 1 then cbc_enc keys zero_block (b ∷ blocks) else des keys (b ∷ blocks))

unfoldable pub decrypt : List ℕ → ℕ → List Block → Option (List Block)
unfolding deskey des cbc_dec
decrypt key mode [] = none
decrypt key mode (b ∷ blocks) =
    let keys = deskey key decrypting in
    some (if mode == 1 then cbc_dec keys (b ∷ blocks) else des keys (b ∷ blocks))
