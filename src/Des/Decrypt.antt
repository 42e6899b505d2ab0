-- ===== src/Des/Decrypt.antt =====
-- Decryption with the same key undoes encryption, in both modes.
use Prim.Native.Nat.{bit_or, bit_xor}
use native.Mathlib.Nat.{mod-eq_of_lt}
use exc.Common.{
  ℕ, ◌+◌, ◌*◌, ◌/◌, ◌%◌, ◌^◌, ◌<◌, ◌≡◌, refl, ap, ◌∙◌, arith, ◌==◌, Bool-cases, inl, inr, List, [],
  ◌∷◌, some, All,
}
use exc.Words.Xor.{bit_xor_comm, bit_xor_cancel, bit_xor-lt, bit_xor-zero}
use exc.Words.Masks.{bit_and_low, bit_or_fields}
use exc.Des.{
  Halves, Block, block, to_word, byte_of, scrunch, unscrun, desfunc, des_block, deskey, encrypting,
  decrypting, des, xor_block, zero_block, cbc_enc, cbc_dec_loop, cbc_dec, encrypt, decrypt,
}
use exc.Des.Halves.{AreWords}
use exc.Des.Inverse.{back, desfunc-back, desfunc-AreWords}

-- A block of bytes.
abbrev pub AreBytes : Block → Type 0
AreBytes (block a b c d e f g h) =
    (a < 256) × (b < 256) × (c < 256) × (d < 256) × (e < 256) × (f < 256) × (g < 256) × (h < 256)

to_word-sum :
    (a b c d : ℕ)
    → a < 256
    → b < 256
    → c < 256
    → d < 256
    → to_word a b c d ≡ ((a * 2 ^ 8 + b) * 2 ^ 8 + c) * 2 ^ 8 + d
unfolding to_word
to_word-sum a b c d ha hb hc hd =
    let low = λ (x : ℕ) (h : x < 256). bit_and_low 8 x ∙ mod-eq_of_lt h in
    (λ i.
      bit_or (bit_or (bit_or (low a ha i * 2 ^ 24) (low b hb i * 2 ^ 16)) (low c hc i * 2 ^ 8))
        (low d hd i))
    ∙ ap (λ t. bit_or (bit_or t (c * 2 ^ 8)) d) (bit_or_fields 24 a (b * 2 ^ 16) (omega arith))
    ∙ ap (λ t. bit_or (bit_or t (c * 2 ^ 8)) d) (omega arith)
    ∙ ap (λ t. bit_or t d) (bit_or_fields 16 (a * 2 ^ 8 + b) (c * 2 ^ 8) (omega arith))
    ∙ ap (λ t. bit_or t d) (omega arith)
    ∙ bit_or_fields 8 ((a * 2 ^ 8 + b) * 2 ^ 8 + c) d (omega arith)

byte_of-rest : (w k : ℕ) → byte_of w k ≡ w / 2 ^ k % 256
byte_of-rest w k = bit_and_low 8 (w / 2 ^ k)

scrunch-AreWords : (b : Block) → AreBytes b → AreWords (scrunch b)
unfolding scrunch
scrunch-AreWords (block a b c d e f g h) (ha, hb, hc, hd, he, hf, hg, hh) =
    (omega (arith, to_word-sum a b c d ha hb hc hd), omega (arith, to_word-sum e f g h he hf hg hh))

unscrun-AreBytes : (s : Halves) → AreBytes (unscrun s)
unfolding unscrun
unscrun-AreBytes s = (
  omega (arith, byte_of-rest s.0 24),
  omega (arith, byte_of-rest s.0 16),
  omega (arith, byte_of-rest s.0 8),
  omega (arith, byte_of-rest s.0 0),
  omega (arith, byte_of-rest s.1 24),
  omega (arith, byte_of-rest s.1 16),
  omega (arith, byte_of-rest s.1 8),
  omega (arith, byte_of-rest s.1 0),
)

-- The bytes of a word, and the word of its bytes.
bytes_of_word :
    (a b c d : ℕ)
    → a < 256
    → b < 256
    → c < 256
    → d < 256
    → let w = to_word a b c d in
      (byte_of w 24 ≡ a) × (byte_of w 16 ≡ b) × (byte_of w 8 ≡ c) × (byte_of w 0 ≡ d)
bytes_of_word a b c d ha hb hc hd =
    let w = to_word a b c d in
    let sum = to_word-sum a b c d ha hb hc hd in
    (
      omega (arith, sum, byte_of-rest w 24),
      omega (arith, sum, byte_of-rest w 16),
      omega (arith, sum, byte_of-rest w 8),
      omega (arith, sum, byte_of-rest w 0),
    )

unscrun-scrunch : (b : Block) → AreBytes b → unscrun (scrunch b) ≡ b
unfolding scrunch unscrun
unscrun-scrunch (block a b c d e f g h) (ha, hb, hc, hd, he, hf, hg, hh) =
    let (p, q, r, s) = bytes_of_word a b c d ha hb hc hd in
    let (t, u, v, x) = bytes_of_word e f g h he hf hg hh in
    λ i. block (p i) (q i) (r i) (s i) (t i) (u i) (v i) (x i)

word_of_bytes :
    (w : ℕ) → w < 2 ^ 32 → to_word (byte_of w 24) (byte_of w 16) (byte_of w 8) (byte_of w 0) ≡ w
word_of_bytes w h =
    let a = byte_of-rest w 24 in
    let b = byte_of-rest w 16 in
    let c = byte_of-rest w 8 in
    let d = byte_of-rest w 0 in
    omega (
      arith,
      a,
      b,
      c,
      d,
      to_word-sum (byte_of w 24) (byte_of w 16) (byte_of w 8) (byte_of w 0) (omega (arith, a))
          (omega (arith, b)) (omega (arith, c)) (omega (arith, d)),
    )

scrunch-unscrun : (s : Halves) → AreWords s → scrunch (unscrun s) ≡ s
unfolding scrunch unscrun
scrunch-unscrun s (l, r) = λ i. (word_of_bytes s.0 l i, word_of_bytes s.1 r i)

-- deskey for decryption writes the words of each round to the place of the round from the end.
deskey-back : (key : List ℕ) → deskey key decrypting ≡ back (deskey key encrypting)
unfolding deskey
deskey-back key = refl

des_block-back :
    (key : List ℕ) (b : Block)
    → AreBytes b
    → des_block (deskey key decrypting) (des_block (deskey key encrypting) b) ≡ b
unfolding des_block
des_block-back key b bytes =
    let keys = deskey key encrypting in
    let words = scrunch-AreWords b bytes in
    let out = desfunc keys (scrunch b) in
    ap (λ k. unscrun (desfunc k (scrunch (unscrun out)))) (deskey-back key)
    ∙ ap (λ t. unscrun (desfunc (back keys) t))
        (scrunch-unscrun out (desfunc-AreWords keys (scrunch b) words))
    ∙ ap unscrun (desfunc-back keys (scrunch b) words)
    ∙ unscrun-scrunch b bytes

des-back :
    (key : List ℕ) (blocks : List Block)
    → All AreBytes blocks
    → des (deskey key decrypting) (des (deskey key encrypting) blocks) ≡ blocks
unfolding des
des-back key [] bytes = refl
des-back key (b ∷ blocks) (one, rest) = λ i. des_block-back key b one i ∷ des-back key blocks rest i

xor_block-AreBytes : (v b : Block) → AreBytes v → AreBytes b → AreBytes (xor_block v b)
unfolding xor_block
xor_block-AreBytes (block a b c d e f g h) (block a' b' c' d' e' f' g' h')
      (ha, hb, hc, hd, he, hf, hg, hh) (ka, kb, kc, kd, ke, kf, kg, kh) =
    (
      bit_xor-lt 8 a a' ha ka,
      bit_xor-lt 8 b b' hb kb,
      bit_xor-lt 8 c c' hc kc,
      bit_xor-lt 8 d d' hd kd,
      bit_xor-lt 8 e e' he ke,
      bit_xor-lt 8 f f' hf kf,
      bit_xor-lt 8 g g' hg kg,
      bit_xor-lt 8 h h' hh kh,
    )

xor_block_twice : (v b : Block) → xor_block v (xor_block v b) ≡ b
unfolding xor_block
xor_block_twice (block a b c d e f g h) (block a' b' c' d' e' f' g' h') =
    let twice = λ (x y : ℕ).
      bit_xor_comm x (bit_xor x y)
      ∙ ap (λ t. bit_xor t x) (bit_xor_comm x y)
      ∙ bit_xor_cancel y x in
    λ i.
      block (twice a a' i) (twice b b' i) (twice c c' i) (twice d d' i) (twice e e' i)
        (twice f f' i) (twice g g' i) (twice h h' i)

xor_block-zero : (b : Block) → xor_block zero_block b ≡ b
unfolding xor_block
xor_block-zero (block a b c d e f g h) =
    let same = λ (x : ℕ). bit_xor_comm 0 x ∙ bit_xor-zero x in
    λ i.
      block (same a i) (same b i) (same c i) (same d i) (same e i) (same f i) (same g i) (same h i)

des_block-AreBytes : (keys : List (ℕ × ℕ)) (b : Block) → AreBytes (des_block keys b)
unfolding des_block
des_block-AreBytes keys b = unscrun-AreBytes (desfunc keys (scrunch b))

cbc_dec_loop-back :
    (key : List ℕ) (v : Block) (blocks : List Block)
    → AreBytes v
    → All AreBytes blocks
    → cbc_dec_loop (deskey key decrypting) v (cbc_enc (deskey key encrypting) v blocks) ≡ blocks
unfolding cbc_dec_loop cbc_enc
cbc_dec_loop-back key v [] hv bytes = refl
cbc_dec_loop-back key v (b ∷ blocks) hv (one, rest) =
    let out = des_block (deskey key encrypting) (xor_block v b) in
    let plain = des_block-back key (xor_block v b) (xor_block-AreBytes v b hv one) in
    let first : xor_block v (des_block (deskey key decrypting) out) ≡ b =
      ap (xor_block v) plain ∙ xor_block_twice v b in
    let others =
      cbc_dec_loop-back key out blocks (des_block-AreBytes (deskey key encrypting) (xor_block v b))
        rest in
    λ i. first i ∷ others i

cbc_dec-back :
    (key : List ℕ) (blocks : List Block)
    → All AreBytes blocks
    → cbc_dec (deskey key decrypting) (cbc_enc (deskey key encrypting) zero_block blocks) ≡ blocks
unfolding cbc_dec cbc_enc
cbc_dec-back key [] bytes = refl
cbc_dec-back key (b ∷ blocks) (one, rest) =
    let out = des_block (deskey key encrypting) (xor_block zero_block b) in
    let first : des_block (deskey key decrypting) out ≡ b =
      ap (λ t. des_block (deskey key decrypting) (des_block (deskey key encrypting) t))
        (xor_block-zero b)
      ∙ des_block-back key b one in
    let others =
      cbc_dec_loop-back key out blocks
        (des_block-AreBytes (deskey key encrypting) (xor_block zero_block b)) rest in
    λ i. first i ∷ others i

-- For every key, of which the first eight bytes count and a missing one would be 0, and blocks of
-- bytes in any number but 0: encryption gives blocks, and decryption with the same key and the same
-- mode gives back the blocks that were encrypted. Mode 1 chains the blocks, and every other mode takes
-- them one by one.
pub decrypt-encrypt :
    (key : List ℕ) (mode : ℕ) (b : Block) (blocks : List Block)
    → All AreBytes (b ∷ blocks)
    → (code : List Block) × (encrypt key mode (b ∷ blocks) ≡ some code)
      × (decrypt key mode code ≡ some (b ∷ blocks))
unfolding encrypt decrypt
decrypt-encrypt key mode b blocks bytes = elim (Bool-cases (mode == 1)) [
  | inl chained ↦ (
    cbc_enc (deskey key encrypting) zero_block (b ∷ blocks),
    rw chained,
    rw chained (unfold cbc_enc in ap some (cbc_dec-back key (b ∷ blocks) bytes)),
  )
  | inr single ↦ (
    des (deskey key encrypting) (b ∷ blocks),
    rw single,
    rw single (unfold des in ap some (des-back key (b ∷ blocks) bytes)),
  )
]
