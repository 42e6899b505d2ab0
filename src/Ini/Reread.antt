-- ===== src/Ini/Reread.antt =====
-- What IniFile prints it reads back, line by line.
use exc.Common.{
  ℕ, zero, suc, ◌-◌, ◌≡◌, refl, sym, ap, ◌∙◌, arith, Bool, true, false, ◌&&◌, ◌||◌, not, ◌==◌, [],
  ◌∷◌, ◌++◌, none, some, Bool-cases, inl, inr, All, append_snoc, append_empty, length,
}
use exc.Ini.Dict.{Text, same_text}
use exc.Ini.Settings.{Ini, get_lowercase, add_a_section, add_a_value}
use exc.Ini.Parse.{
  Reading, is_blank, is_end, is_quote, scan_section, split_equals, domain_isp_map, scan_key,
  scan_value, store, analyze_at, analyze_line, spaces, print_entry,
}

-- A character that a section or key may have: no mark, no blank and no capital letter.
abbrev pub plain : ℕ → Bool
plain c =
    not (is_blank c || is_end c || is_quote c || (c == 91) || (c == 93) || (c == 61))
    && (get_lowercase c == c)

-- A character that a value may have.
abbrev pub clean : ℕ → Bool
clean c = not ((c == 32) || is_end c || is_quote c)

split_equals-key :
    (key rest : Text)
    → All (λ c. plain c ≡ true) key
    → split_equals (key ++ 61 ∷ rest) ≡ some (key, rest)
unfolding split_equals
split_equals-key [] rest h = refl
split_equals-key (c ∷ cs) rest h =
    let a : (c == 0) ≡ false = let p = h.0 in ground arith in
    let b : (c == 61) ≡ false = let p = h.0 in ground arith in
    rw (a, b, split_equals-key cs rest h.1)

split_equals-spaces :
    (n : ℕ) (rest : Text) → split_equals (spaces n ++ 61 ∷ rest) ≡ some (spaces n, rest)
unfolding split_equals
split_equals-spaces zero rest = refl
split_equals-spaces (suc n) rest = rw (split_equals-spaces n rest)

split_equals-padded :
    (key : Text) (n : ℕ) (rest : Text)
    → All (λ c. plain c ≡ true) key
    → split_equals (key ++ spaces n ++ 61 ∷ rest) ≡ some (key ++ spaces n, rest)
unfolding split_equals
split_equals-padded [] n rest h = split_equals-spaces n rest
split_equals-padded (c ∷ cs) n rest h =
    let a : (c == 0) ≡ false = let p = h.0 in ground arith in
    let b : (c == 61) ≡ false = let p = h.0 in ground arith in
    rw (a, b, split_equals-padded cs n rest h.1)

scan_key-spaces : (section made : Text) (n : ℕ) → scan_key section (spaces n) made ≡ some made
unfolding scan_key
scan_key-spaces section made zero = refl
scan_key-spaces section made (suc n) = scan_key-spaces section made n

-- The loop over the key keeps a plain key, in every section, and skips the blanks behind it.
scan_key-plain :
    (section key made : Text) (n : ℕ)
    → All (λ c. plain c ≡ true) key
    → scan_key section (key ++ spaces n) made ≡ some (made ++ key)
unfolding scan_key
scan_key-plain section [] made n h =
    scan_key-spaces section made n ∙ ap some (sym (append_empty made))
scan_key-plain section (c ∷ cs) made n h =
    let p = h.0 in
    let a : is_blank c ≡ false = ground arith in
    let b : is_end c ≡ false = ground arith in
    let d : ((c == 91) || (c == 93) || is_quote c) ≡ false = ground arith in
    let e : get_lowercase c ≡ c = ground arith in
    let ih = scan_key-plain section cs (made ++ c ∷ []) n h.1 ∙ ap some (append_snoc made c cs) in
    elim (Bool-cases (same_text section domain_isp_map)) [
      | inl s ↦ rw (a, b, d, s) ih
      | inr s ↦ rw (a, b, d, s, e) ih
    ]

scan_value-clean :
    (value made : Text)
    → All (λ c. clean c ≡ true) value
    → scan_value value false made ≡ made ++ value
unfolding scan_value
scan_value-clean [] made h = sym (append_empty made)
scan_value-clean (c ∷ cs) made h =
    let p = h.0 in
    let a : (c == 32) ≡ false = ground arith in
    let b : is_quote c ≡ false = ground arith in
    let d : is_end c ≡ false = ground arith in
    rw (a, b, d) (scan_value-clean cs (made ++ c ∷ []) h.1 ∙ append_snoc made c cs)

scan_section-plain :
    (section made : Text) (r : Reading)
    → All (λ c. plain c ≡ true) section
    → scan_section (section ++ 93 ∷ []) true made r
      ≡ scan_section (93 ∷ []) true (made ++ section) r
unfolding scan_section
scan_section-plain [] made r h = ap (λ t. scan_section (93 ∷ []) true t r) (sym (append_empty made))
scan_section-plain (c ∷ cs) made r h =
    let p = h.0 in
    let a : is_blank c ≡ false = ground arith in
    let b : is_end c ≡ false = ground arith in
    let d : (c == 91) ≡ false = ground arith in
    let f : (c == 93) ≡ false = ground arith in
    let e : get_lowercase c ≡ c = ground arith in
    rw (a, d, f, b, e)
      (scan_section-plain cs (made ++ c ∷ []) r h.1
        ∙ ap (λ t. scan_section (93 ∷ []) true t r) (append_snoc made c cs))

scan_value-blank : (t : Text) → scan_value (32 ∷ t) false [] ≡ scan_value t false []
unfolding scan_value
scan_value-blank t = refl

-- The printed line of an entry is read back as that entry of the current section, if the key is
-- plain and not empty and the value is clean.
pub analyze_line-print_entry :
    (s : ℕ) (ss : Text) (ini : Ini) (k : ℕ) (ks value : Text)
    → All (λ c. plain c ≡ true) (k ∷ ks)
    → All (λ c. clean c ≡ true) value
    → let r : Reading = record { section = s ∷ ss; ini = ini } in
      analyze_line r (print_entry (record { key = k ∷ ks; value = value }))
      ≡ record r { ini = add_a_value (s ∷ ss) (k ∷ ks) value ini }
unfolding analyze_line analyze_at print_entry store
analyze_line-print_entry s ss ini k ks value h v =
    let key = k ∷ ks in
    let pad = 21 - length key in
    let r : Reading = record { section = s ∷ ss; ini = ini } in
    ap (analyze_at r (print_entry (record { key = key; value = value })))
      (split_equals-padded key pad (32 ∷ value) h)
    ∙ ap (λ o. store o (32 ∷ value) r) (scan_key-plain (s ∷ ss) key [] pad h)
    ∙ ap (λ t. record r { ini = add_a_value (s ∷ ss) key t ini })
        (scan_value-blank value ∙ scan_value-clean value [] v)

no_equals :
    (section : Text) → All (λ c. plain c ≡ true) section → split_equals (section ++ 93 ∷ []) ≡ none
unfolding split_equals
no_equals [] h = refl
no_equals (c ∷ cs) h =
    let p = h.0 in
    let a : (c == 0) ≡ false = ground arith in
    let b : (c == 61) ≡ false = ground arith in rw (a, b, no_equals cs h.1)

after_bracket : (rest : Text) → split_equals rest ≡ none → split_equals (91 ∷ rest) ≡ none
unfolding split_equals
after_bracket rest e = rw e

-- The printed line of a section is read back as that section, which becomes the current one, if
-- its name is plain and not empty.
pub analyze_line-section :
    (r : Reading) (s : ℕ) (ss : Text)
    → All (λ c. plain c ≡ true) (s ∷ ss)
    → analyze_line r (91 ∷ (s ∷ ss) ++ 93 ∷ [])
      ≡ record { section = s ∷ ss; ini = add_a_section (s ∷ ss) r.ini }
unfolding analyze_line analyze_at scan_section
analyze_line-section r s ss h =
    ap (analyze_at r (91 ∷ (s ∷ ss) ++ 93 ∷ []))
      (after_bracket ((s ∷ ss) ++ 93 ∷ []) (no_equals (s ∷ ss) h))
    ∙ scan_section-plain (s ∷ ss) [] r h
