-- ===== src/SocketUtil/Lengths.antt =====
-- The four bytes of a length, and a frame at the front of a stream.
use exc.Common.{
  ℕ, ◌%◌, ◌^◌, ◌≡◌, ◌≢◌, ◌≤◌, ◌<◌, refl, sym, ap, ◌∙◌, arith, subst, List, [], ◌∷◌, ◌++◌, length,
  length-append, All, pos, negsuc,
}
use mathlib.Core.List.{append_assoc}
use exc.SocketUtil.Frames.{htonl_bytes, from_bytes, ntohl_int, frame}

abbrev pub IsByte : ℕ → Type 0
IsByte b = b < 256

pub from_bytes-htonl_bytes : (n : ℕ) → from_bytes 0 (htonl_bytes n) ≡ n % 2 ^ 32
unfolding from_bytes htonl_bytes
from_bytes-htonl_bytes n = omega arith

-- A list of four is its four elements.
four :
    (l : List ℕ) → length l ≡ 4 → (a : ℕ) × (b : ℕ) × (c : ℕ) × (d : ℕ) × (l ≡ a ∷ b ∷ c ∷ d ∷ [])
four [] e = absurd (omega arith)
four (a ∷ []) e = absurd (omega arith)
four (a ∷ b ∷ []) e = absurd (omega arith)
four (a ∷ b ∷ c ∷ []) e = absurd (omega arith)
four (a ∷ b ∷ c ∷ d ∷ []) e = (a, b, c, d, refl)
four (a ∷ b ∷ c ∷ d ∷ x ∷ l) e = absurd (omega arith)

htonl_bytes-from_four :
    (a b c d : ℕ)
    → a < 256
    → b < 256
    → c < 256
    → d < 256
    → htonl_bytes (from_bytes 0 (a ∷ b ∷ c ∷ d ∷ [])) ≡ a ∷ b ∷ c ∷ d ∷ []
unfolding from_bytes htonl_bytes
htonl_bytes-from_four a b c d ha hb hc hd = ground arith

pub htonl_bytes-from_bytes :
    (l : List ℕ) → length l ≡ 4 → All IsByte l → htonl_bytes (from_bytes 0 l) ≡ l
htonl_bytes-from_bytes l e bytes =
    let (a, b, c, d, is) = four l e in
    let (ha, (hb, (hc, (hd, t)))) = subst (All IsByte) is bytes in
    rw is (htonl_bytes-from_four a b c d ha hb hc hd)

-- A length that is not negative, or the size of a negative one.
pub ntohl_int-pos : (l : List ℕ) (n : ℕ) → ntohl_int l ≡ pos n → (from_bytes 0 l ≡ n) × (n < 2 ^ 31)
unfolding ntohl_int
ntohl_int-pos l n e = ground arith

pub ntohl_int-negsuc : (l : List ℕ) (k : ℕ) → ntohl_int l ≡ negsuc k → 2 ^ 31 ≤ from_bytes 0 l
unfolding ntohl_int
ntohl_int-negsuc l k e = ground arith

pub All-append_left : (xs ys : List ℕ) → All IsByte (xs ++ ys) → All IsByte xs
All-append_left [] ys h = tt
All-append_left (x ∷ xs) ys (b, h) = (b, All-append_left xs ys h)

pub All-append_right : (xs ys : List ℕ) → All IsByte (xs ++ ys) → All IsByte ys
All-append_right [] ys h = h
All-append_right (x ∷ xs) ys (b, h) = All-append_right xs ys h

-- Two ways to cut a list at one place agree.
pub append_split : (a b c d : List ℕ) → a ++ b ≡ c ++ d → length a ≡ length c → (a ≡ c) × (b ≡ d)
append_split [] b [] d e l = (refl, e)
append_split [] b (y ∷ c) d e l = absurd (omega arith)
append_split (x ∷ a) b [] d e l = absurd (omega arith)
append_split (x ∷ a) b (y ∷ c) d e l =
    let (heads, tails) = append_split a b c d (cc) (omega arith) in (cc, tails)

length-htonl_bytes : (n : ℕ) → length (htonl_bytes n) ≡ 4
unfolding htonl_bytes
length-htonl_bytes n = refl

-- No whole message stands at the front of the stream.
abbrev pub Cut : List ℕ → Type 0
Cut before = (body later : List ℕ) → before ≢ frame body ++ later

pub Cut-length : (before : List ℕ) → length before < 4 → Cut before
unfolding frame
Cut-length before h body later e = omega (
  arith,
  ap length e,
  length-append (htonl_bytes (length body) ++ body) later,
  length-append (htonl_bytes (length body)) body,
  length-htonl_bytes (length body),
)

pub frame_front :
    (head rest body later : List ℕ)
    → length head ≡ 4
    → head ++ rest ≡ frame body ++ later
    → (head ≡ htonl_bytes (length body)) × (rest ≡ body ++ later)
unfolding frame
frame_front head rest body later l e =
    append_split head rest (htonl_bytes (length body)) (body ++ later)
      (e ∙ append_assoc (htonl_bytes (length body)) body later)
      (l ∙ sym (length-htonl_bytes (length body)))

pub Cut-body :
    (head rest : List ℕ) (n : ℕ)
    → length head ≡ 4
    → from_bytes 0 head ≡ n
    → length rest < n
    → Cut (head ++ rest)
Cut-body head rest n l is less body later e =
    let (heads, bodies) = frame_front head rest body later l e in
    omega (
      arith,
      ap length bodies,
      length-append body later,
      sym is ∙ ap (from_bytes 0) heads ∙ from_bytes-htonl_bytes (length body),
    )

-- A stream with a frame in front has one body and one rest.
pub frame_inj :
    (body later body' later' : List ℕ)
    → length body < 2 ^ 32
    → length body' < 2 ^ 32
    → frame body ++ later ≡ frame body' ++ later'
    → (body ≡ body') × (later ≡ later')
unfolding frame
frame_inj body later body' later' s s' e =
    let h = htonl_bytes (length body) in
    let (heads, bodies) =
      frame_front h (body ++ later) body' later' (length-htonl_bytes (length body))
        (sym (append_assoc h body later) ∙ e) in
    let lengths = ap (from_bytes 0) heads in
    append_split body later body' later' bodies (
      omega (
        arith,
        lengths,
        from_bytes-htonl_bytes (length body),
        from_bytes-htonl_bytes (length body'),
      ))
