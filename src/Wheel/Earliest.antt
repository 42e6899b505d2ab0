-- ===== src/Wheel/Earliest.antt =====
-- The search of `recalc_earliest` ends at a spoke whose first node is the earliest of all.
use exc.Common.{
  ℕ, zero, suc, ◌+◌, ◌-◌, ◌*◌, ◌%◌, ◌≤◌, ◌<◌, ◌≡◌, ◌≢◌, refl, sym, subst, ◌∙◌, inl, inr, ◌⊎◌, List,
  [], ◌∷◌, arith, All, Bool-cases, ltb, leb, ◌==◌, if◌then◌else◌, ◌||◌,
}
use native.Mathlib.Decide.{dec_le, ℕ_discrete}
use exc.Time.{TimeValue, lt, eq, zero_time}
use exc.Time.Micros.{micros, IsTime, lt-micros, eq-micros}
use exc.Wheel.Node.{Node, Spoke}
use exc.Wheel.State.{nodes_of}
use exc.Wheel.Ops.{scan, next_spoke}
use exc.Wheel.Sorted.{time, HasTime, Sorted, From}
use exc.Wheel.Ticks.{tick, tick_cases}

pub All-map {ℓ κ} :
    {A : Type ℓ} {P Q : A → Type κ} → ((a : A) → P a → Q a) → (xs : List A) → All P xs → All Q xs
All-map f [] h = tt
All-map f (x ∷ xs) h = (f x h.0, All-map f xs h.1)

pub All-map₂ {ℓ κ} :
    {A : Type ℓ} {P Q R : A → Type κ}
    → ((a : A) → P a → Q a → R a)
    → (xs : List A) → All P xs
    → All Q xs
    → All R xs
All-map₂ f [] h k = tt
All-map₂ f (x ∷ xs) h k = (f x h.0 k.0, All-map₂ f xs h.1 k.1)

-- The first node exists and is not later than `t`.
abbrev pub Leads : List Node → ℕ → Type 0
Leads [] t = ⊥
Leads (n ∷ ns) t = time n ≤ t

pub Leads-mono : (ns : List Node) (t u : ℕ) → t ≤ u → Leads ns t → Leads ns u
Leads-mono [] t u h l = l
Leads-mono (n ∷ ns) t u h l = omega arith

-- The first node of spoke `r` is not later than any node of the first `count` spokes.
abbrev pub IsFirst : List Spoke → ℕ → ℕ → Type 0
IsFirst spokes count r =
    (i : ℕ) → i < count → All (λ m. Leads (nodes_of spokes r) (time m)) (nodes_of spokes i)

-- How many spokes the search meets before `i`, from `s` on.
abbrev pub ahead : ℕ → ℕ → ℕ → ℕ
ahead count s i = if leb s i then i - s else i + count - s

-- What holds of each node of spoke `i` of a wheel at or after the time `low`.
pub record AtSpoke (res count low i : ℕ) (m : Node) : Type 0 where
  pub is_time : HasTime m
  pub positive : 0 < time m
  pub after : low ≤ time m
  pub placed : tick res (time m) % count ≡ i

module _ (spokes : List Spoke) (count res low : ℕ) (limit : TimeValue) (pos : 0 < res)
    (limit_time : IsTime limit) (limit_at : micros limit ≡ low + 1000 * res)
    (at_spoke : (i : ℕ) → i < count → All (AtSpoke res count low i) (nodes_of spokes i))
    (sorted : (i : ℕ) → i < count → Sorted (nodes_of spokes i)) where
  abbrev pub start : ℕ
  start = tick res low % count

  -- What the search knows of a node that it has passed.
  abbrev pub Passed : ℕ → Node → Type 0
  Passed et m = (micros limit ≤ time m) × (0 < et) × (et ≤ time m)

  -- What it knows with `rounds` to go.
  pub record Progress (rounds s et es : ℕ) : Type 0 where
    pub inside : s < count
    pub few : rounds ≤ count
    pub begun : (s ≡ start) ⊎ (rounds ≤ ahead count s start)
    pub passed :
        (i : ℕ) → i < count → rounds ≤ ahead count s i → All (Passed et) (nodes_of spokes i)
    pub held : 0 < et → Leads (nodes_of spokes es) et

  head_at :
      (s : ℕ) (n : Node) (ns : List Node)
      → s < count
      → nodes_of spokes s ≡ n ∷ ns
      → AtSpoke res count low s n × From (time n) ns
  head_at s n ns h e =
      ((subst (All (AtSpoke res count low s)) e (at_spoke s h)).0, (subst Sorted e (sorted s h)).0)

  -- The nodes of the spoke that the search is at.
  here :
      (s : ℕ) (n : Node) (ns : List Node)
      → s < count
      → nodes_of spokes s ≡ n ∷ ns
      → All (λ m. time n ≤ time m) (nodes_of spokes s)
  here s n ns h e = rw e (omega arith, (head_at s n ns h e).1)

  -- A node of another spoke is not earlier than a head within the limit.
  elsewhere :
      (rounds s et es i : ℕ) (n m : Node)
      → Progress (suc rounds) s et es
      → AtSpoke res count low s n
      → time n < micros limit
      → i < count
      → i ≢ s
      → AtSpoke res count low i m
      → (suc rounds ≤ ahead count s i → Passed et m)
      → time n ≤ time m
  elsewhere rounds s et es i n m p a h k ne b passed = elim (dec_le (time n) (time m)) [
    | yes l ↦ l
    | no l ↦
        elim (tick_cases low (time m) (time n) res count pos b.after (omega arith) (omega arith)) [
          | inl e ↦ absurd (ne (sym b.placed ∙ e ∙ a.placed))
          | inr e ↦
              let at_start : i ≡ start = sym b.placed ∙ e in
              let b' = p.begun in let q = passed (ground arith) in omega arith
        ]
  ]

  -- An early stop at the spoke `s`.
  early :
      (rounds s et es : ℕ) (n : Node) (ns : List Node)
      → Progress (suc rounds) s et es
      → nodes_of spokes s ≡ n ∷ ns
      → time n < micros limit
      → IsFirst spokes count s
  early rounds s et es n ns p e h i k = rw e (within (ℕ_discrete i s))
    where
      first : AtSpoke res count low s n
      first = (head_at s n ns p.inside e).0

      others :
          i ≢ s
          → Dec (suc rounds ≤ ahead count s i)
          → All (λ m. time n ≤ time m) (nodes_of spokes i)
      others ne (yes l) =
          All-map₂ (λ m b q. elsewhere rounds s et es i n m p first h k ne b (λ _. q)) _
            (at_spoke i k) (p.passed i k l)
      others ne (no l) =
          All-map (λ m b. elsewhere rounds s et es i n m p first h k ne b (λ q. absurd (l q))) _
            (at_spoke i k)

      within : Dec (i ≡ s) → All (λ m. time n ≤ time m) (nodes_of spokes i)
      within (yes d) =
          subst (λ j. All (λ m. time n ≤ time m) (nodes_of spokes j)) (sym d)
            (here s n ns p.inside e)
      within (no d) = others d (dec_le (suc rounds) (ahead count s i))

  step_begun :
      (rounds s et es : ℕ)
      → Progress (suc rounds) s et es
      → (next_spoke count s ≡ start) ⊎ (rounds ≤ ahead count (next_spoke count s) start)
  unfolding next_spoke
  step_begun rounds s et es p =
      let q = p.inside in let f = p.few in let b = p.begun in inr (ground arith)

  -- The search goes on, with the spoke `s` passed.
  step :
      (rounds s et es et' es' : ℕ)
      → Progress (suc rounds) s et es
      → All (Passed et') (nodes_of spokes s)
      → ((0 < et) → (0 < et') × (et' ≤ et))
      → (0 < et' → Leads (nodes_of spokes es') et')
      → Progress rounds (next_spoke count s) et' es'
  unfolding next_spoke
  step rounds s et es et' es' p here_passed lower held' = record {
    inside = let q = p.inside in ground arith;
    few = let q = p.few in omega arith;
    begun = step_begun rounds s et es p;
    passed = λ i k l. elim (ℕ_discrete i s) [
      | yes d ↦ subst (λ j. All (Passed et') (nodes_of spokes j)) (sym d) here_passed
      | no d ↦ All-map (λ m q. let b = lower q.1 in omega arith) _ (p.passed i k (ground arith))
    ];
    held = held';
  }

  at_head :
      (rounds s : ℕ) (et : TimeValue) (es : ℕ) (xs : List Node)
      → nodes_of spokes s ≡ xs
      → IsTime et
      → Progress (suc rounds) s (micros et) es
      → ((et' : TimeValue) (es' : ℕ)
          → IsTime et'
          → Progress rounds (next_spoke count s) (micros et') es'
          → IsFirst spokes count (scan spokes count limit rounds (next_spoke count s) et' es'))
      → IsFirst spokes count (scan spokes count limit (suc rounds) s et es)
  unfolding scan
  at_head rounds s et es [] e t p next =
      rw (e, scan)
        (next et es t (step rounds s _ es _ es p (rw e tt) (λ q. (q, omega arith)) p.held))
  at_head rounds s et es (n ∷ ns) e t p next = elim (Bool-cases (lt n.timer_value limit)) [
    | inl stop ↦ rw (e, scan, stop) (early rounds s _ es n ns p e (ground (arith, to_limit)))
    | inr on ↦
        let far : micros limit ≤ time n = ground (arith, to_limit) in
        elim (Bool-cases (eq et zero_time || lt n.timer_value et)) [
          | inl nearer ↦
              rw (e, scan, on, nearer)
                (next n.timer_value s first.is_time (
                  step rounds s _ es _ s p (after_head (time n) far first.positive (omega arith))
                    (λ q. (first.positive, ground (arith, to_et, to_zero)))
                    (λ q. rw e (omega arith))))
          | inr same ↦
              rw (e, scan, on, same)
                (next et es t (
                  step rounds s _ es _ es p
                    (after_head (micros et) far (ground (arith, to_zero)) (ground (arith, to_et)))
                    (λ q. (q, omega arith)) p.held))
        ]
  ]
    where
      first : AtSpoke res count low s n
      first = (head_at s n ns p.inside e).0

      to_limit : lt n.timer_value limit ≡ ltb (time n) (micros limit)
      to_limit = lt-micros n.timer_value limit first.is_time limit_time

      to_et : lt n.timer_value et ≡ ltb (time n) (micros et)
      to_et = lt-micros n.timer_value et first.is_time t

      to_zero : eq et zero_time ≡ (micros et == 0)
      to_zero = eq-micros et zero_time t (omega arith)

      after_head :
          (u : ℕ) → micros limit ≤ time n → 0 < u → u ≤ time n → All (Passed u) (nodes_of spokes s)
      after_head u far up un =
          All-map (λ m l. (omega arith, up, omega arith)) _ (here s n ns p.inside e)

  -- The search ends at the earliest spoke.
  pub scan-IsFirst :
      (rounds s : ℕ) (et : TimeValue) (es : ℕ)
      → IsTime et
      → Progress rounds s (micros et) es
      → IsFirst spokes count (scan spokes count limit rounds s et es)
  unfolding scan
  scan-IsFirst zero s et es t p i k =
      All-map (λ m q. Leads-mono (nodes_of spokes es) _ _ q.2 (p.held q.1)) _
        (p.passed i k (omega arith))
  scan-IsFirst (suc rounds) s et es t p i k =
      at_head rounds s et es (nodes_of spokes s) refl t p (scan-IsFirst rounds (next_spoke count s))
        i k
