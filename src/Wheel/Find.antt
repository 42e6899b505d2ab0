-- ===== src/Wheel/Find.antt =====
-- `find_node` finds a timer with the id wherever it is, and nothing only if there is none.
use native.Mathlib.Decide.{ℕ_discrete}
use exc.Common.{
  ℕ, zero, suc, ◌+◌, ◌≤◌, ◌<◌, ◌≡◌, ◌≢◌, refl, sym, ap, subst, List, [], ◌∷◌, Option, none, some,
  arith, length, All, true, false, Bool-cases, ◌==◌, inl, inr, ==_iff, ℤ, pos, negsuc, eqb_ℤ,
  eq_of_parts, get_elem?, pos_part, neg_part,
}
use exc.Wheel.Node.{Node, find_id}
use exc.Wheel.State.{
  Wheel, NodeRef, nodes_of, find_node, search_all, find_spoke_node, find_rest, ref_in, low_bits,
}

pub eqb→eq : (a b : ℤ) → eqb_ℤ a b ≡ true → a ≡ b
eqb→eq a b h = eq_of_parts a b (ground arith)

eqb→ne : (a b : ℤ) → eqb_ℤ a b ≡ false → a ≢ b
eqb→ne a b h e = let p = ap pos_part e in let q = ap neg_part e in ground arith

abbrev pub Lacks : ℤ → List Node → Type 0
Lacks id = All (λ m. m.timer_id ≢ id)

-- The node at this place has the id.
abbrev pub Holds : ℤ → List Node → ℕ → Type 0
Holds id ns i = (n : Node) × (get_elem? ns i ≡ some n) × (n.timer_id ≡ id) × (i < length ns)

abbrev Finds : ℤ → List Node → Option ℕ → Type 0
Finds id ns none = Lacks id ns
Finds id ns (some i) = Holds id ns i

find_id-Finds : (id : ℤ) (ns : List Node) → Finds id ns (find_id id ns)
unfolding find_id
find_id-Finds id [] = tt
find_id-Finds id (n ∷ ns) = elim (Bool-cases (eqb_ℤ n.timer_id id)) [
  | inl e ↦ rw e (n, refl, eqb→eq _ _ e, omega arith)
  | inr e ↦ rw e (further (find_id id ns) (find_id-Finds id ns) (eqb→ne _ _ e))
]
  where
    further :
        (o : Option ℕ)
        → Finds id ns o
        → n.timer_id ≢ id
        → Finds id (n ∷ ns) (elim o [ none ↦ none | some i ↦ some (suc i) ])
    further none f d = (d, f)
    further (some i) (m, e, g, l) d = (m, e, g, omega arith)

-- What a search over some of the spokes tells.
abbrev pub Tells : Wheel → ℤ → (ℕ → Type 0) → Option NodeRef → Type 0
Tells w id seen none = (i : ℕ) → seen i → Lacks id (nodes_of w.spokes i)
Tells w id seen (some r) = (r.spoke < w.spoke_count) × Holds id (nodes_of w.spokes r.spoke) r.index

find_spoke_node-Tells :
    (w : Wheel) (s : ℕ) (id : ℤ)
    → s < w.spoke_count
    → Tells w id (λ i. i ≡ s) (find_spoke_node w s id)
unfolding find_spoke_node ref_in
find_spoke_node-Tells w s id h =
    told (find_id id (nodes_of w.spokes s)) (find_id-Finds id (nodes_of w.spokes s))
  where
    told : (o : Option ℕ) → Finds id (nodes_of w.spokes s) o → Tells w id (λ i. i ≡ s) (ref_in s o)
    told none f = λ i e. subst (λ j. Lacks id (nodes_of w.spokes j)) (sym e) f
    told (some k) f = (h, f)

-- The spokes from `j` on, but for the one that was searched first.
abbrev Later : Wheel → ℕ → ℕ → ℕ → Type 0
Later w start j i = (i ≢ start) × (j ≤ i) × (i < w.spoke_count)

find_rest-Tells :
    (w : Wheel) (start : ℕ) (id : ℤ) (rounds k : ℕ)
    → k + rounds ≡ w.spoke_count
    → Tells w id (Later w start k) (find_rest w start id rounds k)
unfolding find_rest
find_rest-Tells w start id zero k h = λ i s. absurd (omega arith)
find_rest-Tells w start id (suc rounds) k h =
    let ih = find_rest-Tells w start id rounds (k + 1) (omega arith) in
    elim (Bool-cases (k == start)) [
      | inl e ↦ rw e (skipped (find_rest w start id rounds (k + 1)) ih ((==_iff _ _).0 e))
      | inr e ↦ rw e (
          met (find_spoke_node w k id) (find_rest w start id rounds (k + 1))
            (find_spoke_node-Tells w k id (omega arith)) ih)
    ]
  where
    skipped :
        (o : Option NodeRef)
        → Tells w id (Later w start (k + 1)) o
        → k ≡ start
        → Tells w id (Later w start k) o
    skipped none t e = λ i s. t i (s.0, let q = s.0 in ground arith, s.2)
    skipped (some r) t e = t

    met :
        (o p : Option NodeRef)
        → Tells w id (λ i. i ≡ k) o
        → Tells w id (Later w start (k + 1)) p
        → Tells w id (Later w start k) (elim o [ none ↦ p | some r ↦ some r ])
    met none none t u =
        λ i s. elim (ℕ_discrete i k) [ yes e ↦ t i e | no e ↦ u i (s.0, omega arith, s.2) ]
    met none (some r) t u = u
    met (some r) p t u = t

search_all-Tells :
    (w : Wheel) (id : ℤ) (start : ℕ)
    → start < w.spoke_count
    → Tells w id (λ i. i < w.spoke_count) (search_all w id start)
unfolding search_all
search_all-Tells w id start h =
    both (find_spoke_node w start id) (find_rest w start id w.spoke_count 0)
      (find_spoke_node-Tells w start id h)
      (find_rest-Tells w start id w.spoke_count 0 (omega arith))
  where
    both :
        (o p : Option NodeRef)
        → Tells w id (λ i. i ≡ start) o
        → Tells w id (Later w start 0) p
        → Tells w id (λ i. i < w.spoke_count) (elim o [ none ↦ p | some r ↦ some r ])
    both none none t u =
        λ i s. elim (ℕ_discrete i start) [ yes e ↦ t i e | no e ↦ u i (e, omega arith, s) ]
    both none (some r) t u = u
    both (some r) p t u = t

-- For a wheel with spokes and an id other than -1: a node that `find_node` returns is linked in and has
-- the id, and if it returns none, no node of the wheel has the id.
pub find_node-Tells :
    (w : Wheel) (id : ℤ)
    → 0 < w.spoke_count
    → id ≢ negsuc 0
    → Tells w id (λ i. i < w.spoke_count) (find_node w id)
unfolding find_node low_bits
find_node-Tells w (negsuc zero) h d = absurd (d refl)
find_node-Tells w (negsuc (suc n)) h d = search_all-Tells w (negsuc (suc n)) _ (omega arith)
find_node-Tells w (pos n) h d = search_all-Tells w (pos n) _ (omega arith)
