-- ===== src/Ini/Maps.antt =====
-- IniFile: whatever is read or set, m_Inifile is a map of maps.
use exc.Common.{
  Bool, true, false, ◌==◌, List, [], ◌∷◌, ◌++◌, Option, none, some, All, Bool-cases, inl, inr,
  if◌then◌else◌,
}
use exc.Ini.Dict.{Text, Entry, same_text, less_text, find, put, erase}
use exc.Ini.Dict.Order.{Above, IsMap, put-IsMap}
use exc.Ini.Settings.{
  Section, Ini, lowercase, get_lowercase, make_section, assign, add_a_section, add_a_value,
  add_a_key_value, delete_a_key_value,
}
use exc.Ini.Parse.{
  Reading, is_blank, is_end, scan_section, scan_key, scan_value, split_equals, store, analyze_at,
  analyze_line, load_lines,
}

abbrev pub IsSettings : Ini → Type 0
IsSettings ini = IsMap ini × All (λ e. IsMap e.value) ini

-- Of what is found, if something is.
abbrev IfFound : {V : Type 0} → (V → Type 0) → Option V → Type 0
IfFound P none = Unit
IfFound P (some v) = P v

module _ {V : Type 0} where
  All-put :
      (P : V → Type 0) (k : Text) (v : V) (m : List (Entry V))
      → P v
      → All (λ e. P e.value) m
      → All (λ e. P e.value) (put k v m)
  unfolding put
  All-put P k v [] p a = (p, tt)
  All-put P k v (e ∷ es) p a = elim (Bool-cases (same_text k e.key)) [
    | inl s ↦ rw s (p, a.1)
    | inr s ↦ elim (Bool-cases (less_text k e.key)) [
      | inl l ↦ rw (s, l) (p, a)
      | inr l ↦ rw (s, l) (a.0, All-put P k v es p a.1)
    ]
  ]

  find-All :
      (P : V → Type 0) (k : Text) (m : List (Entry V))
      → All (λ e. P e.value) m
      → IfFound P (find k m)
  unfolding find
  find-All P k [] a = tt
  find-All P k (e ∷ es) a = elim (Bool-cases (same_text k e.key)) [
    | inl s ↦ rw s a.0
    | inr s ↦ rw s (find-All P k es a.1)
  ]

  Above-erase : (j k : Text) (m : List (Entry V)) → Above j m → Above j (erase k m)
  unfolding erase
  Above-erase j k [] a = tt
  Above-erase j k (e ∷ es) a = elim (Bool-cases (same_text k e.key)) [
    | inl s ↦ rw s a.1
    | inr s ↦ rw s (a.0, Above-erase j k es a.1)
  ]

  erase-IsMap : (k : Text) (m : List (Entry V)) → IsMap m → IsMap (erase k m)
  unfolding erase
  erase-IsMap k [] h = tt
  erase-IsMap k (e ∷ es) h = elim (Bool-cases (same_text k e.key)) [
    | inl s ↦ rw s h.1
    | inr s ↦ rw s (Above-erase e.key k es h.0, erase-IsMap k es h.1)
  ]

put-IsSettings :
    (section : Text) (s : Section) (ini : Ini)
    → IsMap s
    → IsSettings ini
    → IsSettings (put section s ini)
put-IsSettings section s ini m h = (put-IsMap section s ini h.0, All-put IsMap section s ini m h.1)

assign-IsSettings :
    (section key value : Text) (ini : Ini)
    → IsSettings ini
    → IsSettings (assign section key value ini)
unfolding assign make_section
assign-IsSettings section key value ini h =
    let name = lowercase section in made name (find name ini) (find-All IsMap name ini h.1)
  where
    made :
        (name : Text) (o : Option Section)
        → IfFound IsMap o
        → let m : Section × Ini = elim o [ none ↦ ([], put name [] ini) | some s ↦ (s, ini) ] in
          IsSettings (put name (put key value m.0) m.1)
    made name none m =
        put-IsSettings name (put key value []) (put name [] ini) (put-IsMap key value [] tt)
          (put-IsSettings name [] ini tt h)
    made name (some s) m = put-IsSettings name (put key value s) ini (put-IsMap key value s m) h

add_a_section-IsSettings :
    (section : Text) (ini : Ini) → IsSettings ini → IsSettings (add_a_section section ini)
unfolding add_a_section
add_a_section-IsSettings section ini h = found (find section ini)
  where
    found : (o : Option Section) → IsSettings (elim o [ none ↦ put section [] ini | some s ↦ ini ])
    found none = put-IsSettings section [] ini tt h
    found (some s) = h

add_a_value-IsSettings :
    (section key value : Text) (ini : Ini)
    → IsSettings ini
    → IsSettings (add_a_value section key value ini)
unfolding add_a_value
add_a_value-IsSettings section key value ini h =
    found (find section ini) (find-All IsMap section ini h.1)
  where
    stored :
        (s : Section) (o : Option Text)
        → IsMap s
        → IsSettings (elim o [ none ↦ put section (put key value s) ini | some v ↦ ini ])
    stored s none m = put-IsSettings section (put key value s) ini (put-IsMap key value s m) h
    stored s (some v) m = h

    found :
        (o : Option Section)
        → IfFound IsMap o
        → IsSettings (elim o [
          | none ↦ ini
          | some s ↦ elim (find key s) [ none ↦ put section (put key value s) ini | some v ↦ ini ]
        ])
    found none m = h
    found (some s) m = stored s (find key s) m

add_a_key_value-IsSettings :
    (section key value : Text) (ini : Ini)
    → IsSettings ini
    → IsSettings (add_a_key_value section key value ini).1
unfolding add_a_key_value
add_a_key_value-IsSettings section key value ini h =
    found (find section ini) (find-All IsMap section ini h.1)
  where
    found :
        (o : Option Section)
        → IfFound IsMap o
        → let r : Bool × Ini = elim o [
          | none ↦ (false, ini)
          | some s ↦ (true, put section (put key value s) ini)
        ] in
          IsSettings r.1
    found none m = h
    found (some s) m = put-IsSettings section (put key value s) ini (put-IsMap key value s m) h

delete_a_key_value-IsSettings :
    (section key : Text) (ini : Ini)
    → IsSettings ini
    → IsSettings (delete_a_key_value section key ini).1
unfolding delete_a_key_value
delete_a_key_value-IsSettings section key ini h =
    found (find section ini) (find-All IsMap section ini h.1)
  where
    found :
        (o : Option Section)
        → IfFound IsMap o
        → let r : Bool × Ini = elim o [
          | none ↦ (false, ini)
          | some s ↦ (true, put section (erase key s) ini)
        ] in
          IsSettings r.1
    found none m = h
    found (some s) m = put-IsSettings section (erase key s) ini (erase-IsMap key s m) h

scan_section-IsSettings :
    (line : Text) (opened : Bool) (made : Text) (r : Reading)
    → IsSettings r.ini
    → IsSettings (scan_section line opened made r).ini
unfolding scan_section
scan_section-IsSettings [] opened made r h = h
scan_section-IsSettings (c ∷ cs) opened made r h =
    let skip = scan_section-IsSettings cs opened made r h in
    let begin = scan_section-IsSettings cs true made r h in
    let take = scan_section-IsSettings cs opened (made ++ get_lowercase c ∷ []) r h in
    elim (Bool-cases (is_blank c)) [
      | inl a ↦ rw a skip
      | inr a ↦ elim (Bool-cases (c == 91)) [
        | inl b ↦ rw (a, b) (choose opened r (scan_section cs true made r) h begin)
        | inr b ↦ elim (Bool-cases (c == 93)) [
          | inl d ↦ rw (a, b, d) (close made)
          | inr d ↦ elim (Bool-cases (is_end c)) [
            | inl e ↦ rw (a, b, d, e) h
            | inr e ↦
                rw (a, b, d, e)
                  (choose opened (scan_section cs opened (made ++ get_lowercase c ∷ []) r) r take h)
          ]
        ]
      ]
    ]
  where
    choose :
        (t : Bool) (x y : Reading)
        → IsSettings x.ini
        → IsSettings y.ini
        → IsSettings (if t then x else y).ini
    choose true x y hx hy = hx
    choose false x y hx hy = hy

    close :
        (name : Text)
        → let x : Reading = elim name [
          | [] ↦ r
          | m ∷ ms ↦ record { section = m ∷ ms; ini = add_a_section (m ∷ ms) r.ini }
        ] in
          IsSettings x.ini
    close [] = h
    close (m ∷ ms) = add_a_section-IsSettings (m ∷ ms) r.ini h

store-IsSettings :
    (key : Option Text) (rest : Text) (r : Reading)
    → IsSettings r.ini
    → IsSettings (store key rest r).ini
unfolding store
store-IsSettings none rest r h = h
store-IsSettings (some []) rest r h = h
store-IsSettings (some (k ∷ ks)) rest r h =
    add_a_value-IsSettings r.section (k ∷ ks) (scan_value rest false []) r.ini h

analyze_at-IsSettings :
    (r : Reading) (line : Text) (equals : Option (Text × Text))
    → IsSettings r.ini
    → IsSettings (analyze_at r line equals).ini
unfolding analyze_at
analyze_at-IsSettings r line none h = scan_section-IsSettings line false [] r h
analyze_at-IsSettings r line (some p) h = current r.section
  where
    current :
        (section : Text)
        → let x : Reading = elim section [
          | [] ↦ r
          | s ∷ ss ↦ store (scan_key r.section p.0 []) p.1 r
        ] in
          IsSettings x.ini
    current [] = h
    current (s ∷ ss) = store-IsSettings (scan_key r.section p.0 []) p.1 r h

load_lines-IsSettings :
    (r : Reading) (lines : List Text) → IsSettings r.ini → IsSettings (load_lines r lines).ini
unfolding load_lines analyze_line
load_lines-IsSettings r [] h = h
load_lines-IsSettings r ([] ∷ ls) h = load_lines-IsSettings r ls h
load_lines-IsSettings r ((c ∷ cs) ∷ ls) h =
    load_lines-IsSettings (analyze_line r (c ∷ cs)) ls
      (analyze_at-IsSettings r (c ∷ cs) (split_equals (c ∷ cs)) h)

-- m_Inifile is always a map of maps, its sections and the keys of each in order and all different:
-- LoadIniFile makes one of any lines, on top of what has been read, and the assignment of the
-- setters, add_a_key_value and delete_a_key_value keep it so.
pub operations-IsSettings :
    (r : Reading) (lines : List Text) (section key value : Text)
    → IsSettings r.ini
    → IsSettings (load_lines r lines).ini
      × IsSettings (assign section key value r.ini)
      × IsSettings (add_a_key_value section key value r.ini).1
      × IsSettings (delete_a_key_value section key r.ini).1
operations-IsSettings r lines section key value h = (
  load_lines-IsSettings r lines h,
  assign-IsSettings section key value r.ini h,
  add_a_key_value-IsSettings section key value r.ini h,
  delete_a_key_value-IsSettings section key r.ini h,
)
