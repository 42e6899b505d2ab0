-- ===== src/SocketPool/Slots.antt =====
-- The first slots of an array, as a count of each connection in them.
use exc.Common.{
  ℕ, zero, suc, ◌+◌, ◌<◌, ◌≡◌, refl, arith, Bool, false, List, [], ◌∷◌, some, if◌then◌else◌, length,
  get_elem?, set, ℤ, pos, eqb_ℤ,
}
use exc.SocketPool.{exist}

abbrev pub one_if : Bool → ℕ
one_if b = if b then 1 else 0

-- How often `fd` is one of the first `n`.
abbrev pub held : List ℤ → ℕ → ℤ → ℕ
held xs zero fd = 0
held [] (suc n) fd = 0
held (x ∷ xs) (suc n) fd = one_if (eqb_ℤ x fd) + held xs n fd

abbrev pub count : List ℤ → ℤ → ℕ
count [] fd = 0
count (x ∷ xs) fd = one_if (eqb_ℤ x fd) + count xs fd

pub held-last :
    (xs : List ℤ) (n : ℕ) (fd : ℤ)
    → n < length xs
    → (x : ℤ) × (get_elem? xs n ≡ some x)
      × (held xs (suc n) fd ≡ held xs n fd + one_if (eqb_ℤ x fd))
held-last [] n fd h = absurd (omega (arith, h))
held-last (x ∷ xs) zero fd h = (x, refl, omega arith)
held-last (x ∷ xs) (suc n) fd h =
    let (y, e, c) = held-last xs n fd (omega (arith, h)) in (y, e, omega (arith, c))

pub held-set :
    (xs : List ℤ) (n : ℕ) (x fd : ℤ)
    → n < length xs
    → held (set xs n x) (suc n) fd ≡ held xs n fd + one_if (eqb_ℤ x fd)
held-set [] n x fd h = absurd (omega (arith, h))
held-set (y ∷ xs) zero x fd h = omega arith
held-set (y ∷ xs) (suc n) x fd h = omega (arith, held-set xs n x fd (omega (arith, h)))

pub exist-held : (xs : List ℤ) (n : ℕ) (fd : ℤ) → held xs n fd ≡ 0 → exist xs n fd ≡ false
unfolding exist
exist-held xs zero fd h = refl
exist-held [] (suc n) fd h = refl
exist-held (x ∷ xs) (suc n) fd h = ground (arith, exist-held xs n fd)

-- The first `n` slots are all marked as valid.
abbrev pub AllValid : List ℤ → ℕ → Type 0
AllValid xs zero = Unit
AllValid [] (suc n) = Unit
AllValid (x ∷ xs) (suc n) = (x ≡ pos 1) × AllValid xs n

pub AllValid-last :
    (xs : List ℤ) (n : ℕ) → n < length xs → AllValid xs (suc n) → get_elem? xs n ≡ some (pos 1)
AllValid-last [] n h a = absurd (omega (arith, h))
AllValid-last (x ∷ xs) zero h a = rw (a.0) refl
AllValid-last (x ∷ xs) (suc n) h a = AllValid-last xs n (omega (arith, h)) a.1

pub AllValid-less : (xs : List ℤ) (n : ℕ) → AllValid xs (suc n) → AllValid xs n
AllValid-less xs zero a = tt
AllValid-less [] (suc n) a = tt
AllValid-less (x ∷ xs) (suc n) a = (a.0, AllValid-less xs n a.1)

pub AllValid-set : (xs : List ℤ) (n : ℕ) → AllValid xs n → AllValid (set xs n (pos 1)) (suc n)
AllValid-set [] n a = tt
AllValid-set (x ∷ xs) zero a = (refl, tt)
AllValid-set (x ∷ xs) (suc n) a = (a.0, AllValid-set xs n a.1)
