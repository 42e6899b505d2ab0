-- ===== src/Tests/Configuration.antt =====
-- IniFile on the section `net` with the key `port`.
use exc.Common.{◌≡◌, refl, ap, ltb, Bool, true, [], ◌∷◌, some, All, arith}
use exc.Ini.Dict.{Text, put, find}
use exc.Ini.Settings.{Ini, value_of, assign, make_section, set_string, add_a_section, add_a_value}
use exc.Ini.Parse.{
  analyze_line, print_entry, load_lines, print_sections, analyze_at, split_equals, scan_section,
  scan_key, scan_value, store, print_entries, load_ini_file, flush_to_string, flush_to_file,
}
use exc.Ini.Lookup.{assign-lost}
use exc.Ini.Restore.{IsPlainSection, IsLine, load_ini_file-flush}

-- "net" and "NET"
abbrev net : Text
net = 110 ∷ 101 ∷ 116 ∷ []

abbrev net_capital : Text
net_capital = 78 ∷ 69 ∷ 84 ∷ []

-- "port" and "Port"
abbrev port : Text
port = 112 ∷ 111 ∷ 114 ∷ 116 ∷ []

abbrev port_capital : Text
port_capital = 80 ∷ 111 ∷ 114 ∷ 116 ∷ []

-- "80"
abbrev eighty : Text
eighty = 56 ∷ 48 ∷ []

-- [net] with port = 80
abbrev settings : Ini
settings = record { key = net; value = record { key = port; value = eighty } ∷ [] } ∷ []

set_test : set_string net_capital port eighty [] ≡ settings
unfolding set_string assign make_section find put
set_test = refl

reread_test :
    (load_lines (record { section = []; ini = [] }) (print_sections settings)).ini ≡ settings
unfolding load_lines print_sections print_entries print_entry analyze_line analyze_at split_equals
    scan_section scan_key scan_value store add_a_section add_a_value find put
reread_test = refl

lost_example :
    value_of net port_capital (assign net port_capital (49 ∷ []) settings)
    ≡ value_of net port_capital settings
lost_example =
    assign-lost net net port_capital port_capital (49 ∷ []) settings (λ e. let q = ap first e in cc)
  where
    first : Text → Bool
    first [] = true
    first (c ∷ cs) = ltb c 97

printed_test : All IsLine (print_sections settings)
unfolding print_sections print_entries print_entry
printed_test = (refl, (refl, (refl, tt)))

restore_example :
    (load_ini_file (flush_to_string [] settings) ≡ some settings)
    × (load_ini_file (flush_to_file settings) ≡ some settings)
restore_example =
    load_ini_file-flush settings
      ((tt, tt), (((omega arith, (refl, (refl, (refl, tt)))), port_entry), tt)) printed_test
  where
    port_entry : IsPlainSection (record { key = port; value = eighty } ∷ [])
    port_entry =
        ((tt, tt), (((omega arith, (refl, (refl, (refl, (refl, tt))))), (refl, (refl, tt))), tt))
