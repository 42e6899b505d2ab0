-- ===== src/Ini/Restore.antt =====
-- IniFile: a printed file as a whole, read back by LoadIniFile.
use exc.Common.{
  ℕ, ◌<◌, ◌≡◌, refl, sym, ap, subst, ◌∙◌, arith, Bool, true, false, not, ◌&&◌, leb, ◌==◌, List, [],
  ◌∷◌, ◌++◌, some, All, append_snoc, append_empty, length,
}
use exc.Ini.Dict.{Text, Entry, put, less_text}
use exc.Ini.Dict.Order.{Above, Below, IsMap, find-Below, put-Below, find-last, put-last}
use exc.Ini.Settings.{Section, Ini, add_a_section, add_a_value}
use exc.Ini.Parse.{
  Reading, analyze_line, load_lines, print_entry, print_entries, print_sections, header_lines,
  file_header_lines, flush_to_file, analyze_at, split_equals, scan_section, lines_of, all_fit,
  load_all, load_ini_file, join_lines, flush_to_string,
}
use exc.Ini.Reread.{plain, clean, analyze_line-print_entry, analyze_line-section}

-- A name that the reader takes as it is.
abbrev pub IsName : Text → Type 0
IsName t = (0 < length t) × All (λ c. plain c ≡ true) t

abbrev pub IsPlainSection : Section → Type 0
IsPlainSection s = IsMap s × All (λ e. IsName e.key × All (λ c. clean c ≡ true) e.value) s

-- Settings that the text can hold: `std::map`s with plain names and clean values.
abbrev pub IsPlain : Ini → Type 0
IsPlain ini = IsMap ini × All (λ e. IsName e.key × IsPlainSection e.value) ini

module _ {V : Type 0} where
  Above-middle :
      (j : Text) (m : List (Entry V)) (e : Entry V) (es : List (Entry V))
      → Above j (m ++ e ∷ es)
      → less_text j e.key ≡ true
  Above-middle j [] e es a = a.0
  Above-middle j (x ∷ m) e es a = Above-middle j m e es a.1

  -- In a map, the entries before one have smaller keys.
  IsMap-Below :
      (m : List (Entry V)) (e : Entry V) (es : List (Entry V)) → IsMap (m ++ e ∷ es) → Below e.key m
  IsMap-Below [] e es h = tt
  IsMap-Below (x ∷ m) e es h = (Above-middle x.key m e es h.0, IsMap-Below m e es h.1)

-- A new section at the end, and a new value at the end of the last section.
add_a_section-Below :
    (k : Text) (m : Ini) → Below k m → add_a_section k m ≡ m ++ record { key = k; value = [] } ∷ []
unfolding add_a_section
add_a_section-Below k m b = rw (add_a_section, find-Below k m b) (put-Below k [] m b)

add_a_value-last :
    (s k v : Text) (m : Ini) (done : Section)
    → Below s m
    → Below k done
    → add_a_value s k v (m ++ record { key = s; value = done } ∷ [])
      ≡ m ++ record { key = s; value = done ++ record { key = k; value = v } ∷ [] } ∷ []
unfolding add_a_value
add_a_value-last s k v m done b c =
    rw (add_a_value, find-last s done m b, find-Below k done c)
      (put-last s (put k v done) done m b
        ∙ ap (λ t. m ++ record { key = s; value = t } ∷ []) (put-Below k v done c))

load_lines-entry :
    (s : ℕ) (ss key value : Text) (ini : Ini) (rest : List Text)
    → IsName key
    → All (λ c. clean c ≡ true) value
    → let r : Reading = record { section = s ∷ ss; ini = ini } in
      load_lines r (print_entry (record { key = key; value = value }) ∷ rest)
      ≡ load_lines (record r { ini = add_a_value (s ∷ ss) key value ini }) rest
unfolding load_lines print_entry
load_lines-entry s ss [] value ini rest n v = absurd (omega (arith, n.0))
load_lines-entry s ss (k ∷ ks) value ini rest n v =
    ap (λ r. load_lines r rest) (analyze_line-print_entry s ss ini k ks value n.1 v)

load_lines-section :
    (r : Reading) (section : Text) (rest : List Text)
    → IsName section
    → load_lines r ((91 ∷ section ++ 93 ∷ []) ∷ rest)
      ≡ load_lines (record { section = section; ini = add_a_section section r.ini }) rest
unfolding load_lines
load_lines-section r [] rest n = absurd (omega (arith, n.0))
load_lines-section r (s ∷ ss) rest n = ap (λ r. load_lines r rest) (analyze_line-section r s ss n.1)

-- The settings `m`, and behind them the section that is being read.
abbrev ending : Ini → Text → Section → Reading
ending m s done = record { section = s; ini = m ++ record { key = s; value = done } ∷ [] }

load_lines-print_entries :
    (m : Ini) (s : ℕ) (ss : Text) (done es : Section) (rest : List Text)
    → Below (s ∷ ss) m
    → IsMap (done ++ es)
    → All (λ e. IsName e.key × All (λ c. clean c ≡ true) e.value) es
    → load_lines (ending m (s ∷ ss) done) (print_entries es ++ rest)
      ≡ load_lines (ending m (s ∷ ss) (done ++ es)) rest
unfolding load_lines print_entries
load_lines-print_entries m s ss done [] rest b h p =
    ap (λ t. load_lines (ending m (s ∷ ss) t) rest) (sym (append_empty done))
load_lines-print_entries m s ss done (e ∷ es) rest b h p =
    let r = ending m (s ∷ ss) done in
    let lines = print_entries es ++ rest in
    load_lines-entry s ss e.key e.value r.ini lines p.0.0 p.0.1
    ∙ ap (λ i. load_lines (record { section = s ∷ ss; ini = i }) lines)
        (add_a_value-last (s ∷ ss) e.key e.value m done b (IsMap-Below done e es h))
    ∙ load_lines-print_entries m s ss (done ++ e ∷ []) es rest b
        (subst IsMap (sym (append_snoc done e es)) h) p.1
    ∙ ap (λ t. load_lines (ending m (s ∷ ss) t) rest) (append_snoc done e es)

load_lines-print_section :
    (current : Text) (m : Ini) (s : Text) (es : Section) (rest : List Text)
    → IsName s
    → IsPlainSection es
    → Below s m
    → load_lines
        (record { section = current; ini = m })
        ((91 ∷ s ++ 93 ∷ []) ∷ print_entries es ++ rest)
      ≡ load_lines (ending m s es) rest
load_lines-print_section current m [] es rest n p b = absurd (omega (arith, n.0))
load_lines-print_section current m (s ∷ ss) es rest n p b =
    load_lines-section (record { section = current; ini = m }) (s ∷ ss) (print_entries es ++ rest) n
    ∙ ap (λ i. load_lines (record { section = s ∷ ss; ini = i }) (print_entries es ++ rest))
        (add_a_section-Below (s ∷ ss) m b)
    ∙ load_lines-print_entries m s ss [] es rest b p.0 p.1

load_lines-print_sections :
    (current : Text) (m es : Ini)
    → IsMap (m ++ es)
    → All (λ e. IsName e.key × IsPlainSection e.value) es
    → (load_lines (record { section = current; ini = m }) (print_sections es)).ini ≡ m ++ es
unfolding load_lines print_sections
load_lines-print_sections current m [] h p = sym (append_empty m)
load_lines-print_sections current m (e ∷ es) h p =
    ap (λ r. r.ini)
      (load_lines-print_section current m e.key e.value (print_sections es) p.0.0 p.0.1
        (IsMap-Below m e es h))
    ∙ load_lines-print_sections e.key (m ++ e ∷ []) es (subst IsMap (sym (append_snoc m e es)) h)
        p.1
    ∙ append_snoc m e es

abbrev no_newline : Text → Bool
no_newline [] = true
no_newline (c ∷ cs) = not (c == 10) && no_newline cs

-- A line that getline reads as a whole.
abbrev pub IsLine : Text → Type 0
IsLine l = (leb (length l) 1023 && no_newline l) ≡ true

lines_of-line :
    (line rest : Text)
    → no_newline line ≡ true
    → lines_of (line ++ 10 ∷ rest) ≡ line ∷ lines_of rest
unfolding lines_of
lines_of-line [] rest h = refl
lines_of-line (c ∷ cs) rest h =
    let e : (c == 10) ≡ false = ground arith in
    let f : no_newline cs ≡ true = ground arith in rw (e, lines_of-line cs rest f)

lines_of-join_lines :
    (lines : List Text) → All IsLine lines → lines_of (join_lines lines) ≡ lines ++ [] ∷ []
unfolding join_lines lines_of
lines_of-join_lines [] h = refl
lines_of-join_lines (l ∷ ls) h =
    let p = h.0 in
    let f : no_newline l ≡ true = ground arith in
    lines_of-line l (join_lines ls) f ∙ ap (λ t. l ∷ t) (lines_of-join_lines ls h.1)

all_fit-IsLine : (lines : List Text) → All IsLine lines → all_fit (lines ++ [] ∷ []) ≡ true
unfolding all_fit
all_fit-IsLine [] h = refl
all_fit-IsLine (l ∷ ls) h = let p = h.0 in ground (arith, all_fit-IsLine ls h.1)

load_lines-empty :
    (r : Reading) (lines : List Text) → load_lines r (lines ++ [] ∷ []) ≡ load_lines r lines
unfolding load_lines
load_lines-empty r [] = refl
load_lines-empty r ([] ∷ ls) = load_lines-empty r ls
load_lines-empty r ((c ∷ cs) ∷ ls) = load_lines-empty (analyze_line r (c ∷ cs)) ls

load_ini_file-join_lines :
    (lines : List Text)
    → All IsLine lines
    → load_ini_file (join_lines lines)
      ≡ some (load_lines (record { section = []; ini = [] }) lines).ini
unfolding load_ini_file load_all
load_ini_file-join_lines lines h =
    ap load_all (lines_of-join_lines lines h)
    ∙ rw (all_fit-IsLine lines h)
        (ap (λ r. some r.ini) (load_lines-empty (record { section = []; ini = [] }) lines))

-- LoadIniFile on the text that flush_to_string or flush_to_file writes, the comments on top
-- included, ends and restores all the settings: every section with every key and value, and nothing
-- else. The sections and keys are those of a `std::map`, with plain names that are not empty, the
-- values are clean, and no printed line is longer than 1023 characters or has a newline in it.
pub load_ini_file-flush :
    (ini : Ini)
    → IsPlain ini
    → All IsLine (print_sections ini)
    → (load_ini_file (flush_to_string [] ini) ≡ some ini)
      × (load_ini_file (flush_to_file ini) ≡ some ini)
unfolding flush_to_string flush_to_file load_lines analyze_line analyze_at split_equals scan_section
load_ini_file-flush ini h fit =
    let lines = print_sections ini in
    let restored = ap some (load_lines-print_sections [] [] ini h.0 h.1) in
    (
      load_ini_file-join_lines (header_lines ++ lines) (refl, (refl, (refl, fit))) ∙ restored,
      load_ini_file-join_lines (file_header_lines ++ lines) (refl, (refl, fit)) ∙ restored,
    )
