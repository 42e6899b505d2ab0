-- ===== src/Des/Inverse.antt =====
-- desfunc with the words of the key in the other order undoes desfunc.
use Prim.Native.Nat.{bit_and, bit_or, bit_xor}
use exc.Common.{
  ℕ, zero, suc, ◌*◌, ◌/◌, ◌%◌, ◌^◌, ◌<◌, ◌≡◌, refl, sym, ap, ◌∙◌, arith, List, [], ◌∷◌, ◌++◌,
  get_or, Bool, true, ◌&&◌, ltb,
}
use mathlib.Core.List.{append_assoc}
use exc.Words.Xor.{bit_xor_cancel, bit_xor-lt}
use exc.Words.Masks.{bit_or-lt}
use exc.Des.{
  Halves, flip, delta, delta_back, exchange, rotate_left, rotate_right, mix, unmix, initial, final,
  f_value, rounds, desfunc, entry,
}
use exc.Des.Tables.{sp1, sp2, sp3, sp4, sp5, sp6, sp7, sp8}
use exc.Des.Halves.{
  AreWords, delta_twice, delta-AreWords, exchange_twice, exchange-flip, exchange-AreWords,
  rotate_right-left, rotate_left-right, rotate_left-lt, rotate_right-lt,
}

delta_back-flip :
    (k m : ℕ) (s : Halves) → m * 2 ^ k < 2 ^ 32 → delta_back k m (flip (delta k m s)) ≡ flip s
delta_back-flip k m s fits = ap flip (delta_twice k m s fits)

delta-flip :
    (k m : ℕ) (s : Halves) → m * 2 ^ k < 2 ^ 32 → delta k m (flip (delta_back k m s)) ≡ flip s
delta-flip k m s fits = delta_twice k m (flip s) fits

mix-unmix : (s : Halves) → AreWords s → mix (flip (unmix s)) ≡ flip s
unfolding mix unmix
mix-unmix s (l, r) =
    let t = exchange (s.0, rotate_right s.1) in
    let words = exchange-AreWords (s.0, rotate_right s.1) (l, rotate_right-lt s.1 r) in
    let back : exchange (t.1, t.0) ≡ (rotate_right s.1, s.0) =
      exchange-flip t ∙ ap flip (exchange_twice (s.0, rotate_right s.1)) in
    ap (λ x. (rotate_left (exchange (t.1, x)).0, (exchange (t.1, x)).1))
      (rotate_left-right t.0 words.0)
    ∙ ap (λ u. (rotate_left u.0, u.1)) back
    ∙ ap (λ x. (x, s.0)) (rotate_left-right s.1 r)

unmix-mix : (s : Halves) → AreWords s → unmix (flip (mix s)) ≡ flip s
unfolding mix unmix
unmix-mix s (l, r) =
    let t = exchange (s.0, rotate_left s.1) in
    let words = exchange-AreWords (s.0, rotate_left s.1) (l, rotate_left-lt s.1 r) in
    let back : exchange (t.1, t.0) ≡ (rotate_left s.1, s.0) =
      exchange-flip t ∙ ap flip (exchange_twice (s.0, rotate_left s.1)) in
    ap (λ x. (rotate_right (exchange (t.1, x)).0, (exchange (t.1, x)).1))
      (rotate_right-left t.0 words.0)
    ∙ ap (λ u. (rotate_right u.0, u.1)) back
    ∙ ap (λ x. (x, s.0)) (rotate_right-left s.1 r)

initial-final : (s : Halves) → AreWords s → initial (final s) ≡ flip s
unfolding initial final
initial-final s words =
    let a = unmix s in
    let b = delta 8 0x00ff00ff a in
    let c = delta 2 0x33333333 b in
    let d = delta_back 16 0x0000ffff c in
    ap (λ t. mix (delta_back 8 0x00ff00ff (delta_back 2 0x33333333 (delta 16 0x0000ffff t))))
      (delta-flip 4 0x0f0f0f0f d (omega arith))
    ∙ ap (λ t. mix (delta_back 8 0x00ff00ff (delta_back 2 0x33333333 t)))
        (delta-flip 16 0x0000ffff c (omega arith))
    ∙ ap (λ t. mix (delta_back 8 0x00ff00ff t)) (delta_back-flip 2 0x33333333 b (omega arith))
    ∙ ap mix (delta_back-flip 8 0x00ff00ff a (omega arith))
    ∙ mix-unmix s words

final-initial : (s : Halves) → AreWords s → final (flip (initial s)) ≡ s
unfolding initial final
final-initial s words =
    let a = delta 4 0x0f0f0f0f s in
    let b = delta 16 0x0000ffff a in
    let c = delta_back 2 0x33333333 b in
    let d = delta_back 8 0x00ff00ff c in
    let wa = delta-AreWords 4 0x0f0f0f0f s (omega arith) words in
    let wb = delta-AreWords 16 0x0000ffff a (omega arith) wa in
    let wc = delta-AreWords 2 0x33333333 (flip b) (omega arith) (wb.1, wb.0) in
    let wd = delta-AreWords 8 0x00ff00ff (flip c) (omega arith) wc in
    ap
      (λ t. flip (
        delta_back 4 0x0f0f0f0f
          (delta_back 16 0x0000ffff (delta 2 0x33333333 (delta 8 0x00ff00ff t)))))
      (unmix-mix d (wd.1, wd.0))
    ∙ ap (λ t. flip (delta_back 4 0x0f0f0f0f (delta_back 16 0x0000ffff (delta 2 0x33333333 t))))
        (delta-flip 8 0x00ff00ff c (omega arith))
    ∙ ap (λ t. flip (delta_back 4 0x0f0f0f0f (delta_back 16 0x0000ffff t)))
        (delta-flip 2 0x33333333 b (omega arith))
    ∙ ap (λ t. flip (delta_back 4 0x0f0f0f0f t)) (delta_back-flip 16 0x0000ffff a (omega arith))
    ∙ ap flip (delta_back-flip 4 0x0f0f0f0f s (omega arith))

-- The words of a key in the other order, half round by half round.
abbrev pub back : List (ℕ × ℕ) → List (ℕ × ℕ)
back (p ∷ q ∷ keys) = back keys ++ q ∷ p ∷ []
back (p ∷ []) = []
back [] = []

rounds-append :
    (keys more : List (ℕ × ℕ)) (s : Halves)
    → rounds (back keys ++ more) s ≡ rounds more (rounds (back keys) s)
unfolding rounds
rounds-append (p ∷ q ∷ keys) more s =
    ap (λ l. rounds l s) (append_assoc (back keys) (q ∷ p ∷ []) more)
    ∙ rounds-append keys (q ∷ p ∷ more) s
    ∙ ap (rounds more) (sym (rounds-append keys (q ∷ p ∷ []) s))
rounds-append (p ∷ []) more s = refl
rounds-append [] more s = refl

rounds-back :
    (keys : List (ℕ × ℕ)) (s : Halves) → rounds (back keys) (flip (rounds keys s)) ≡ flip s
unfolding rounds
rounds-back (p ∷ q ∷ keys) s =
    let l = bit_xor s.0 (f_value s.1 p) in
    let r = bit_xor s.1 (f_value l q) in
    let one : bit_xor r (f_value l q) ≡ s.1 = bit_xor_cancel s.1 (f_value l q) in
    rounds-append keys (q ∷ p ∷ []) (flip (rounds keys (l, r)))
    ∙ ap (rounds (q ∷ p ∷ [])) (rounds-back keys (l, r))
    ∙ ap (λ x. (x, bit_xor l (f_value x p))) one
    ∙ ap (λ x. (s.1, x)) (bit_xor_cancel s.0 (f_value s.1 p))
rounds-back (p ∷ []) s = refl
rounds-back [] s = refl

fit_below : List ℕ → Bool
fit_below [] = true
fit_below (x ∷ table) = ltb x (2 ^ 32) && fit_below table

get_or-lt : (table : List ℕ) (i : ℕ) → fit_below table ≡ true → get_or table i 0 < 2 ^ 32
unfolding fit_below
get_or-lt [] i h = omega arith
get_or-lt (x ∷ table) zero h = ground arith
get_or-lt (x ∷ table) (suc i) h = get_or-lt table i (ground arith)

entry-lt : (table : List ℕ) (x k : ℕ) → fit_below table ≡ true → entry table x k < 2 ^ 32
entry-lt table x k fits = get_or-lt table (bit_and (x / 2 ^ k) 0x3f) fits

f_value-lt : (half : ℕ) (key : ℕ × ℕ) → f_value half key < 2 ^ 32
unfolding f_value fit_below
f_value-lt half key =
    let work = bit_xor (bit_or (half * 2 ^ 28 % 2 ^ 32) (half / 2 ^ 4)) key.0 in
    let other = bit_xor half key.1 in
    let join = λ (a b : ℕ) (ha : a < 2 ^ 32) (hb : b < 2 ^ 32). bit_or-lt 32 a b ha hb in
    let t7 = entry-lt sp7 work 0 refl in
    let t5 = entry-lt sp5 work 8 refl in
    let t3 = entry-lt sp3 work 16 refl in
    let t1 = entry-lt sp1 work 24 refl in
    let t8 = entry-lt sp8 other 0 refl in
    let t6 = entry-lt sp6 other 8 refl in
    let t4 = entry-lt sp4 other 16 refl in
    let t2 = entry-lt sp2 other 24 refl in
    join _ _ (join _ _ (join _ _ (join _ _ (join _ _ (join _ _ (join _ _ t7 t5) t3) t1) t8) t6) t4)
      t2

rounds-AreWords : (keys : List (ℕ × ℕ)) (s : Halves) → AreWords s → AreWords (rounds keys s)
unfolding rounds
rounds-AreWords (p ∷ q ∷ keys) s (l, r) =
    let left = bit_xor s.0 (f_value s.1 p) in
    rounds-AreWords keys (left, bit_xor s.1 (f_value left q))
      (
        bit_xor-lt 32 s.0 (f_value s.1 p) l (f_value-lt s.1 p),
        bit_xor-lt 32 s.1 (f_value left q) r (f_value-lt left q),
      )
rounds-AreWords (p ∷ []) s words = words
rounds-AreWords [] s words = words

initial-AreWords : (s : Halves) → AreWords s → AreWords (initial s)
unfolding initial mix
initial-AreWords s words =
    let wa = delta-AreWords 4 0x0f0f0f0f s (omega arith) words in
    let a = delta 4 0x0f0f0f0f s in
    let wb = delta-AreWords 16 0x0000ffff a (omega arith) wa in
    let b = delta 16 0x0000ffff a in
    let wc = delta-AreWords 2 0x33333333 (flip b) (omega arith) (wb.1, wb.0) in
    let c = delta_back 2 0x33333333 b in
    let wd = delta-AreWords 8 0x00ff00ff (flip c) (omega arith) wc in
    let d = delta_back 8 0x00ff00ff c in
    let we = exchange-AreWords (d.0, rotate_left d.1) (wd.1, rotate_left-lt d.1 wd.0) in
    (rotate_left-lt (exchange (d.0, rotate_left d.1)).0 we.0, we.1)

final-AreWords : (s : Halves) → AreWords s → AreWords (final s)
unfolding final unmix
final-AreWords s (l, r) =
    let t : Halves = (s.0, rotate_right s.1) in
    let wt = exchange-AreWords t (l, rotate_right-lt s.1 r) in
    let a = unmix s in
    let wa =
      delta-AreWords 8 0x00ff00ff a (omega arith) (rotate_right-lt (exchange t).0 wt.0, wt.1) in
    let b = delta 8 0x00ff00ff a in
    let wb = delta-AreWords 2 0x33333333 b (omega arith) wa in
    let c = delta 2 0x33333333 b in
    let wc = delta-AreWords 16 0x0000ffff (flip c) (omega arith) (wb.1, wb.0) in
    let d = delta_back 16 0x0000ffff c in delta-AreWords 4 0x0f0f0f0f (flip d) (omega arith) wc

pub desfunc-AreWords : (keys : List (ℕ × ℕ)) (s : Halves) → AreWords s → AreWords (desfunc keys s)
unfolding desfunc
desfunc-AreWords keys s words =
    final-AreWords (rounds keys (initial s))
      (rounds-AreWords keys (initial s) (initial-AreWords s words))

-- Whatever the words of a key are: desfunc with them in the other order, half round by half round,
-- gives back every pair of words that desfunc was given.
pub desfunc-back :
    (keys : List (ℕ × ℕ)) (s : Halves) → AreWords s → desfunc (back keys) (desfunc keys s) ≡ s
unfolding desfunc
desfunc-back keys s words =
    let mid = rounds keys (initial s) in
    let wm = rounds-AreWords keys (initial s) (initial-AreWords s words) in
    ap (λ t. final (rounds (back keys) t)) (initial-final mid wm)
    ∙ ap final (rounds-back keys (initial s))
    ∙ final-initial s words
