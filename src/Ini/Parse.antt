-- ===== src/Ini/Parse.antt =====
-- IniFile: how a file is read, line by line, and how the settings are printed.
use exc.Common.{
  ℕ, suc, zero, ◌-◌, Bool, true, false, ◌&&◌, ◌||◌, if◌then◌else◌, leb, ◌==◌, List, [], ◌∷◌, ◌++◌,
  Option, none, some, length,
}
use exc.Ini.Dict.{Text, same_text, Entry}
use exc.Ini.Settings.{Section, Ini, get_lowercase, add_a_section, add_a_value}

-- The current section and the settings so far.
pub record Reading : Type 0 where
  pub section : Text
  pub ini : Ini

-- A space or a tab.
abbrev pub is_blank : ℕ → Bool
is_blank c = (c == 32) || (c == 9)

-- `#`, `;`, `\r` and the end of the string.
abbrev pub is_end : ℕ → Bool
is_end c = (c == 35) || (c == 59) || (c == 13) || (c == 0)

-- The two quotes.
abbrev pub is_quote : ℕ → Bool
is_quote c = (c == 39) || (c == 34)

-- A line without `=`: `opened` is bSection, `made` is strSec.
unfoldable pub scan_section : Text → Bool → Text → Reading → Reading
scan_section [] opened made r = r
scan_section (c ∷ cs) opened made r =
    let skip = scan_section cs opened made r in
    let begin = scan_section cs true made r in
    let take = scan_section cs opened (made ++ get_lowercase c ∷ []) r in
    if is_blank c
    then skip
    else if c == 91
    then (if opened then r else begin)
    else if c == 93
    then elim made [
      | [] ↦ r
      | m ∷ ms ↦ record { section = m ∷ ms; ini = add_a_section (m ∷ ms) r.ini }
    ]
    else if is_end c
    then r
    else if opened
    then take
    else r

-- strchr(line, '='): what stands before the first `=`, and what behind it.
unfoldable pub split_equals : Text → Option (Text × Text)
split_equals [] = none
split_equals (c ∷ cs) =
    let rest = split_equals cs in
    if c == 0
    then none
    else if c == 61
    then some ([], cs)
    else elim rest [ none ↦ none | some r ↦ some (c ∷ r.0, r.1) ]

-- "domain_isp_map"
abbrev pub domain_isp_map : Text
domain_isp_map = 100 ∷ 111 ∷ 109 ∷ 97 ∷ 105 ∷ 110 ∷ 95 ∷ 105 ∷ 115 ∷ 112 ∷ 95 ∷ 109 ∷ 97 ∷ 112 ∷ []

-- The loop over the key; none where the line is left.
unfoldable pub scan_key : Text → Text → Text → Option Text
scan_key section [] made = some made
scan_key section (c ∷ cs) made =
    let skip = scan_key section cs made in
    let kept = scan_key section cs (made ++ c ∷ []) in
    let lowered = scan_key section cs (made ++ get_lowercase c ∷ []) in
    if is_blank c
    then skip
    else if is_end c
    then none
    else if (c == 91) || (c == 93) || is_quote c
    then none
    else if same_text section domain_isp_map
    then kept
    else lowered

-- The loop over the value: `quoted` is bInBarcket.
unfoldable pub scan_value : Text → Bool → Text → Text
scan_value [] quoted made = made
scan_value (c ∷ cs) quoted made =
    let skip = scan_value cs quoted made in
    let take = scan_value cs quoted (made ++ c ∷ []) in
    let begin = scan_value cs true made in
    if c == 32
    then (if quoted then take else skip)
    else if is_quote c
    then (if quoted then made else begin)
    else if is_end c
    then made
    else take

-- The end of a line with `=`, from the key on.
unfoldable pub store : Option Text → Text → Reading → Reading
store none rest r = r
store (some []) rest r = r
store (some (k ∷ ks)) rest r = record r {
  ini = add_a_value r.section (k ∷ ks) (scan_value rest false []) r.ini;
}

-- The two branches of analyzeLine, on the place of the `=`.
unfoldable pub analyze_at : Reading → Text → Option (Text × Text) → Reading
unfolding scan_section store scan_key
analyze_at r line none = scan_section line false [] r
analyze_at r line (some p) = elim r.section [
  | [] ↦ r
  | s ∷ ss ↦ store (scan_key r.section p.0 []) p.1 r
]

-- analyzeLine, which always returns true.
unfoldable pub analyze_line : Reading → Text → Reading
unfolding analyze_at split_equals
analyze_line r line = analyze_at r line (split_equals line)

-- The loop of LoadIniFile, over lines that fit the buffer. An empty line is skipped.
unfoldable pub load_lines : Reading → List Text → Reading
load_lines r [] = r
load_lines r ([] ∷ lines) = load_lines r lines
load_lines r ((c ∷ cs) ∷ lines) = load_lines (analyze_line r (c ∷ cs)) lines

-- The lines that getline finds in a file, the last one up to the end of the file.
unfoldable pub lines_of : Text → List Text
lines_of [] = [] ∷ []
lines_of (c ∷ cs) =
    let rest = lines_of cs in
    if c == 10 then [] ∷ rest else elim rest [ [] ↦ (c ∷ []) ∷ [] | l ∷ ls ↦ (c ∷ l) ∷ ls ]

-- Does every line fit the buffer of CFG_LINE_LEN characters, with a zero behind it?
unfoldable pub all_fit : List Text → Bool
all_fit [] = true
all_fit (l ∷ ls) = leb (length l) 1023 && all_fit ls

-- LoadIniFile on the lines of the file. A line that is too long puts the stream into the state of
-- failure, in which it never comes to its end: none, the loop does not end.
unfoldable pub load_all : List Text → Option Ini
unfolding load_lines all_fit
load_all lines =
    if all_fit lines then some (load_lines (record { section = []; ini = [] }) lines).ini else none

unfoldable pub load_ini_file : Text → Option Ini
unfolding load_all lines_of
load_ini_file text = load_all (lines_of text)

abbrev pub spaces : ℕ → Text
spaces zero = []
spaces (suc n) = 32 ∷ spaces n

-- A line of flush_to_string, its end left out: the key, padded to 21 characters, and the value.
unfoldable pub print_entry : Entry Text → Text
print_entry e = e.key ++ spaces (21 - length e.key) ++ 61 ∷ 32 ∷ e.value

unfoldable pub print_entries : Section → List Text
print_entries [] = [] ∷ []
print_entries (e ∷ es) = print_entry e ∷ print_entries es

-- The lines of the sections, each with an empty line at its end.
unfoldable pub print_sections : Ini → List Text
print_sections [] = []
print_sections (e ∷ es) = (91 ∷ e.key ++ 93 ∷ []) ∷ print_entries e.value ++ print_sections es

-- "#Host version 1.0.0.1", "#2014.04.18" and an empty line.
abbrev pub header_lines : List Text
header_lines =
    (35 ∷ 72 ∷ 111 ∷ 115 ∷ 116 ∷ 32 ∷ 118 ∷ 101 ∷ 114 ∷ 115 ∷ 105 ∷ 111 ∷ 110 ∷ 32 ∷ 49 ∷ 46 ∷ 48
      ∷ 46 ∷ 48 ∷ 46 ∷ 49 ∷ [])
    ∷ (35 ∷ 50 ∷ 48 ∷ 49 ∷ 52 ∷ 46 ∷ 48 ∷ 52 ∷ 46 ∷ 49 ∷ 56 ∷ [])
    ∷ []
    ∷ []

unfoldable pub join_lines : List Text → Text
join_lines [] = []
join_lines (line ∷ lines) = line ++ 10 ∷ join_lines lines

-- flush_to_string appends to what the string has.
unfoldable pub flush_to_string : Text → Ini → Text
unfolding join_lines print_sections
flush_to_string text ini = text ++ join_lines (header_lines ++ print_sections ini)

-- "#Host configure file" and an empty line.
abbrev pub file_header_lines : List Text
file_header_lines =
    (35 ∷ 72 ∷ 111 ∷ 115 ∷ 116 ∷ 32 ∷ 99 ∷ 111 ∷ 110 ∷ 102 ∷ 105 ∷ 103 ∷ 117 ∷ 114 ∷ 101 ∷ 32 ∷ 102
      ∷ 105 ∷ 108 ∷ 101 ∷ [])
    ∷ []
    ∷ []

-- flush_to_file: what the file has then; the lines of the sections are those of flush_to_string.
unfoldable pub flush_to_file : Ini → Text
unfolding join_lines print_sections
flush_to_file ini = join_lines (file_header_lines ++ print_sections ini)
