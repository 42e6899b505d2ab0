-- ===== src/Wheel/Link.antt =====
-- Scheduling keeps the invariant: the new node goes to its place, and the earliest spoke is right.
use exc.Common.{
  ℕ, zero, suc, ◌+◌, ◌^◌, ◌≤◌, ◌<◌, ◌≡◌, refl, ◌∙◌, List, [], ◌∷◌, arith, length, All, true, false,
  Bool-cases, ◌==◌, ◌||◌, if◌then◌else◌, get_or, length-set, ==_iff, inl, inr,
}
use exc.Time.{lt}
use exc.Time.Micros.{IsTime, lt-micros}
use exc.Wheel.Node.{Node, no_spoke, insert, link_at, walk_back}
use exc.Wheel.State.{Wheel, nodes_of, is_empty, earliest_time}
use exc.Wheel.Ops.{link}
use exc.Wheel.Sorted.{
  time, HasTime, Sorted, All-link_at, length-link_at, insert-Sorted, walk_back-root,
}
use exc.Wheel.Earliest.{Leads, Leads-mono, IsFirst, All-map}
use exc.Wheel.Inv.{
  Fits, total, IsBuilt, Inv, nodes_of-set, total-set, total-nodes_of, at_each, earliest_lem,
}

-- After an insertion the list leads what it led before, and the new node.
Leads-insert_old :
    (n : Node) (ns : List Node) (t : ℕ)
    → IsTime n.timer_value
    → All HasTime ns
    → Leads ns t
    → Leads (insert n n.timer_value ns) t
unfolding insert link_at
Leads-insert_old n [] t e h l = absurd l
Leads-insert_old n (m ∷ ns) t e h l =
    at_place (walk_back (m ∷ ns) n.timer_value (length (m ∷ ns))) refl
  where
    at_place :
        (k : ℕ)
        → walk_back (m ∷ ns) n.timer_value (length (m ∷ ns)) ≡ k
        → Leads (link_at k n (m ∷ ns)) t
    at_place zero z = let f = walk_back-root n.timer_value e (m ∷ ns) h z in omega arith
    at_place (suc k) z = l

Leads-self : (ns : List Node) → Sorted ns → All (λ m. Leads ns (time m)) ns
Leads-self [] s = tt
Leads-self (n ∷ ns) s = (omega arith, s.0)

All-nil : (P : Node → Type 0) (xs : List Node) → length xs ≡ 0 → All P xs
All-nil P [] h = tt
All-nil P (x ∷ xs) h = absurd (omega arith)

All-at_link : (P : Node → Type 0) (k : ℕ) (n : Node) (ns : List Node) → All P (link_at k n ns) → P n
unfolding link_at
All-at_link P zero n ns h = h.0
All-at_link P (suc k) n [] h = h.0
All-at_link P (suc k) n (m ∷ ns) h = All-at_link P k n ns h.1

Leads-insert_new :
    (n : Node) (ns : List Node)
    → IsTime n.timer_value
    → All HasTime ns
    → Sorted ns
    → Leads (insert n n.timer_value ns) (time n)
unfolding insert
Leads-insert_new n ns e h s =
    All-at_link _ _ n ns (Leads-self _ (insert-Sorted n.timer_value e n ns refl h s))

module _ (n : Node) (s : ℕ) (w : Wheel) (fits : Fits (2 ^ w.res_bits) w.spoke_count s n)
    (s_inside : s < w.spoke_count) (room : w.timer_count + 1 < 2 ^ 32) where
  abbrev after : Wheel
  after = link n s n.timer_value w

  abbrev longer : List Node
  longer = insert n n.timer_value (nodes_of w.spokes s)

  All-time : (b : IsBuilt w) (i : ℕ) → i < w.spoke_count → All HasTime (nodes_of w.spokes i)
  All-time b i k = All-map (λ m f. f.is_time) _ (b.fits i k)

  -- The nodes of each spoke afterwards.
  link-nodes :
      (b : IsBuilt w) (i : ℕ)
      → nodes_of after.spokes i ≡ (if s == i then longer else nodes_of w.spokes i)
  unfolding link
  link-nodes b i = nodes_of-set w.spokes s (rw b.wide s_inside) _ i

  link-total : (b : IsBuilt w) → total after.spokes ≡ total w.spokes + 1
  unfolding link insert
  link-total b =
      let ns = nodes_of w.spokes s in
      let k = walk_back ns n.timer_value (length ns) in
      omega (
        arith,
        total-set w.spokes s (record (get_or w.spokes s no_spoke) { nodes = longer })
            (rw b.wide s_inside),
        length-link_at k n ns,
      )

  longer-Sorted : IsBuilt w → Sorted longer
  longer-Sorted b =
      insert-Sorted n.timer_value fits.is_time n (nodes_of w.spokes s) refl (All-time b s s_inside)
        (b.sorted s s_inside)

  longer-Fits : IsBuilt w → All (Fits (2 ^ w.res_bits) w.spoke_count s) longer
  unfolding insert
  longer-Fits b = All-link_at _ _ n (nodes_of w.spokes s) fits (b.fits s s_inside)

  link-IsBuilt : IsBuilt w → after.earliest_spoke < w.spoke_count → IsBuilt after
  unfolding link
  link-IsBuilt b e = record {
    wide = length-set w.spokes s _ ∙ b.wide;
    inside = e;
    revolution_time = b.revolution_time;
    revolution = b.revolution;
    counted = omega (arith, link-total b);
    countable = omega (arith, room);
    fits = λ i k. rw (link-nodes b i) (
        at_each (λ j. All (Fits (2 ^ w.res_bits) w.spoke_count j)) longer _ s i (longer-Fits b)
          (b.fits i k));
    sorted = λ i k.
        rw (link-nodes b i) (at_each (λ j. Sorted) longer _ s i (longer-Sorted b) (b.sorted i k));
  }

  -- Whatever the new earliest spoke is, it leads if it leads the new node and the old ones.
  IsFirst-after :
      (r : ℕ)
      → (b : IsBuilt w) → Leads (nodes_of after.spokes r) (time n)
      → ((i : ℕ)
          → i < w.spoke_count
          → All (λ m. Leads (nodes_of after.spokes r) (time m)) (nodes_of w.spokes i))
      → IsFirst after.spokes w.spoke_count r
  unfolding insert
  IsFirst-after r b new old i k = rw (link-nodes b i) (
      at_each (λ _. All (λ m. Leads (nodes_of after.spokes r) (time m))) longer _ s i
        (All-link_at _ _ n (nodes_of w.spokes s) new (old s s_inside)) (old i k))

  nodes_at : IsBuilt w → nodes_of after.spokes s ≡ longer
  nodes_at b = link-nodes b s ∙ ground arith

  new-Leads : (b : IsBuilt w) → Leads longer (time n)
  new-Leads b =
      Leads-insert_new n (nodes_of w.spokes s) fits.is_time (All-time b s s_inside)
        (b.sorted s s_inside)

  -- The new timer is the earliest, or the only one.
  IsFirst-new :
      (v : Inv w)
      → (is_empty w || lt n.timer_value (earliest_time w)) ≡ true
      → IsFirst after.spokes w.spoke_count s
  unfolding is_empty
  IsFirst-new v e =
      let b = v.built in
      IsFirst-after s b (rw (nodes_at b) (new-Leads b)) λ i k.
        rw (nodes_at b) (elim (Bool-cases (w.timer_count == 0)) [
          | inl z ↦
              All-nil _ _ (omega (arith, total-nodes_of w.spokes i, b.counted, (==_iff _ _).0 z))
          | inr z ↦
              let (m₀, ms, q) = earliest_lem w v (ground arith) in
              let near : time n ≤ time m₀ = ground (
                arith,
                q.at_time,
                lt-micros n.timer_value m₀.timer_value fits.is_time q.fit.is_time,
              ) in
              All-map (λ m l. Leads-mono longer (time n) (time m) (omega arith) (new-Leads b)) _
                (q.least i k)
        ])

  -- What the old earliest spoke led it leads still.
  old-Leads :
      (b : IsBuilt w)
      → (t : ℕ) → Leads (nodes_of w.spokes w.earliest_spoke) t
      → Leads (nodes_of after.spokes w.earliest_spoke) t
  old-Leads b t l = rw (link-nodes b w.earliest_spoke) (
      at_each (λ j xs. Leads (nodes_of w.spokes j) t → Leads xs t) longer _ s w.earliest_spoke
        (λ l'. Leads-insert_old n (nodes_of w.spokes s) t fits.is_time (All-time b s s_inside) l')
        (λ l'. l') l)

  -- The old earliest spoke stays.
  IsFirst-old :
      (v : Inv w)
      → (is_empty w || lt n.timer_value (earliest_time w)) ≡ false
      → IsFirst after.spokes w.spoke_count w.earliest_spoke
  unfolding is_empty
  IsFirst-old v e =
      let b = v.built in
      let some_left : 0 < w.timer_count = ground arith in
      let (m₀, ms, q) = earliest_lem w v some_left in
      let far : time m₀ ≤ time n =
        ground
          (arith, q.at_time, lt-micros n.timer_value m₀.timer_value fits.is_time q.fit.is_time) in
      IsFirst-after w.earliest_spoke b (old-Leads b _ (rw q.nodes far))
        (λ i k. All-map (λ m l. old-Leads b _ l) _ (v.first some_left i k))

  -- Linking in a timer at its own time, in the spoke that its time falls in, keeps a wheel right
  -- if `timer_count_` has room.
  pub link-Inv : Inv w → Inv after
  unfolding link
  link-Inv v =
      let c = is_empty w || lt n.timer_value (earliest_time w) in
      elim (Bool-cases c) [
        | inl e ↦ record {
          built = link-IsBuilt v.built (rw e s_inside);
          first = λ h. rw e (IsFirst-new v e);
        }
        | inr e ↦ record {
          built = link-IsBuilt v.built (rw e v.built.inside);
          first = λ h. rw e (IsFirst-old v e);
        }
      ]
