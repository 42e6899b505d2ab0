-- ===== src/Ini/Lookup.antt =====
-- What the getters of IniFile see after a setter.
use exc.Common.{
  ℕ, ◌≡◌, ◌≢◌, refl, sym, ap, ◌∙◌, arith, Bool, true, false, ◌&&◌, ◌||◌, [], ◌∷◌, Option, none,
  some, Bool-cases, inl, inr, ◌⊎◌,
}
use exc.Ini.Dict.{Text, same_text, same_text-eq, find, put, find-put, find-put_other}
use exc.Ini.Settings.{
  Section, Ini, get_lowercase, lowercase, get_section, get_value, value_in, value_of, get_bool,
  get_string_lowercase, bool_text, yes_text, true_text, lower_or, make_section, assign, set_bool,
}

get_lowercase-twice : (c : ℕ) → get_lowercase (get_lowercase c) ≡ get_lowercase c
get_lowercase-twice c = ground arith

lowercase-twice : (t : Text) → lowercase (lowercase t) ≡ lowercase t
lowercase-twice [] = refl
lowercase-twice (c ∷ cs) = let e = lowercase-twice cs in let d = get_lowercase-twice c in cc

abbrev section_of : Text → Ini → Section
section_of section ini = elim (find (lowercase section) ini) [ none ↦ [] | some s ↦ s ]

-- The section after an assignment: the old one, or a new one, with the new value.
find-assign :
    (section key value : Text) (ini : Ini)
    → find (lowercase section) (assign section key value ini)
      ≡ some (put key value (section_of section ini))
unfolding assign make_section
find-assign section key value ini = made (find (lowercase section) ini)
  where
    made :
        (o : Option Section)
        → let m : Section × Ini = elim o [
          | none ↦ ([], put (lowercase section) [] ini)
          | some s ↦ (s, ini)
        ] in
          find (lowercase section) (put (lowercase section) (put key value m.0) m.1)
          ≡ some (put key value (elim o [ none ↦ [] | some s ↦ s ]))
    made none = find-put (lowercase section) (put key value []) (put (lowercase section) [] ini)
    made (some s) = find-put (lowercase section) (put key value s) ini

-- A getter finds the value of a setter under every spelling of the section and of the key, if the
-- setter's key has no capital letter.
pub value_of-assign :
    (section other key read value : Text) (ini : Ini)
    → lowercase other ≡ lowercase section
    → lowercase read ≡ key
    → value_of other read (assign section key value ini) ≡ some value
unfolding value_of get_section value_in get_value
value_of-assign section other key read value ini e d =
    ap (λ t. value_in (find t (assign section key value ini)) read) e
    ∙ ap (λ o. value_in o read) (find-assign section key value ini)
    ∙ ap (λ t. find t (put key value (section_of section ini))) d
    ∙ find-put key value (section_of section ini)

-- What a getter reads of the section of the setter, before and after, is the same for other keys.
old_value :
    (section read : Text) (ini : Ini)
    → value_in (some (section_of section ini)) read ≡ value_of section read ini
unfolding value_of get_section value_in get_value find
old_value section read ini = same (find (lowercase section) ini)
  where
    same :
        (o : Option Section)
        → find (lowercase read) (elim o [ none ↦ [] | some s ↦ s ]) ≡ value_in o read
    same none = refl
    same (some s) = refl

find-assign_other :
    (section other key value : Text) (ini : Ini)
    → same_text (lowercase other) (lowercase section) ≡ false
    → find (lowercase other) (assign section key value ini) ≡ find (lowercase other) ini
unfolding assign make_section
find-assign_other section other key value ini d = made (find (lowercase section) ini)
  where
    made :
        (o : Option Section)
        → let m : Section × Ini = elim o [
          | none ↦ ([], put (lowercase section) [] ini)
          | some s ↦ (s, ini)
        ] in
          find (lowercase other) (put (lowercase section) (put key value m.0) m.1)
          ≡ find (lowercase other) ini
    made none =
        find-put_other (lowercase other) (lowercase section) (put key value [])
          (put (lowercase section) [] ini) d
        ∙ find-put_other (lowercase other) (lowercase section) [] ini d
    made (some s) = find-put_other (lowercase other) (lowercase section) (put key value s) ini d

-- A setter changes what the getters find for no other section and for no other key.
pub value_of-assign_other :
    (section other key read value : Text) (ini : Ini)
    → (same_text (lowercase other) (lowercase section) && same_text (lowercase read) key) ≡ false
    → value_of other read (assign section key value ini) ≡ value_of other read ini
unfolding value_of get_section value_in get_value
value_of-assign_other section other key read value ini d =
    elim (Bool-cases (same_text (lowercase other) (lowercase section))) [
      | inl e ↦
          let same = same_text-eq (lowercase other) (lowercase section) e in
          let key_differs : same_text (lowercase read) key ≡ false = ground arith in
          ap (λ t. value_in (find t (assign section key value ini)) read) same
          ∙ ap (λ o. value_in o read) (find-assign section key value ini)
          ∙ at_key key_differs
          ∙ old_value section read ini
          ∙ ap (λ t. value_in (find t ini) read) (sym same)
      | inr e ↦ ap (λ o. value_in o read) (find-assign_other section other key value ini e)
    ]
  where
    at_key :
        same_text (lowercase read) key ≡ false
        → value_in (some (put key value (section_of section ini))) read
          ≡ value_in (some (section_of section ini)) read
    at_key n = find-put_other (lowercase read) key value (section_of section ini) n

-- A value that is set under a key with a capital letter changes nothing for the getters, which
-- look for the key in lower case.
pub assign-lost :
    (section other key read value : Text) (ini : Ini)
    → lowercase key ≢ key
    → value_of other read (assign section key value ini) ≡ value_of other read ini
assign-lost section other key read value ini d =
    value_of-assign_other section other key read value ini
      (never (Bool-cases (same_text (lowercase read) key)))
  where
    never :
        (same_text (lowercase read) key ≡ true) ⊎ (same_text (lowercase read) key ≡ false)
        → (same_text (lowercase other) (lowercase section) && same_text (lowercase read) key)
          ≡ false
    never (inl e) =
        let f = same_text-eq (lowercase read) key e in
        absurd (d (ap lowercase (sym f) ∙ lowercase-twice read ∙ f))
    never (inr e) = ground arith

-- `GetBool` reads what `SetBool` wrote under a key with no capital letter, whatever the default.
pub get_bool-set_bool :
    (section key : Text) (value default : Bool) (ini : Ini)
    → lowercase key ≡ key
    → get_bool section key default (set_bool section key value ini) ≡ value
unfolding get_bool set_bool get_string_lowercase lower_or
get_bool-set_bool section key value default ini e =
    ap (λ o. is_yes (lower_or o (bool_text default)))
      (value_of-assign section section key key (bool_text value) ini refl e)
    ∙ each value
  where
    is_yes : Text → Bool
    is_yes t = same_text yes_text t || same_text true_text t

    each : (b : Bool) → is_yes (lowercase (bool_text b)) ≡ b
    each true = refl
    each false = refl
