-- ===== src/Ini/Settings.antt =====
-- IniFile: the sections, the values in them, and what reads and writes them. `m_mutex` is
-- recursive and held through each operation. `atoi`, `sscanf` and `snprintf` are parameters.
use exc.Common.{
  ℕ, ◌+◌, ◌-◌, Bool, true, false, ◌&&◌, ◌||◌, if◌then◌else◌, leb, ◌==◌, List, [], ◌∷◌, ◌++◌, Option,
  none, some, ℤ,
}
use exc.Ini.Dict.{Text, same_text, Entry, find, put, erase}

abbrev pub Section : Type 0
Section = List (Entry Text)

abbrev pub Ini : Type 0
Ini = List (Entry Section)

abbrev pub get_lowercase : ℕ → ℕ
get_lowercase c = if leb 65 c && leb c 90 then c - 65 + 97 else c

abbrev pub lowercase : Text → Text
lowercase [] = []
lowercase (c ∷ cs) = get_lowercase c ∷ lowercase cs

-- getSection with `is_need_create` false
unfoldable pub get_section : Text → Ini → Option Section
get_section section ini = find (lowercase section) ini

-- getSection with `is_need_create` true: the section, and the map with it.
unfoldable pub make_section : Text → Ini → Section × Ini
make_section section ini = elim (find (lowercase section) ini) [
  | none ↦ ([], put (lowercase section) [] ini)
  | some s ↦ (s, ini)
]

unfoldable pub get_value : Section → Text → Option Text
get_value s key = find (lowercase key) s

unfoldable pub value_in : Option Section → Text → Option Text
unfolding get_value
value_in none key = none
value_in (some s) key = get_value s key

-- The value that the getters look for.
unfoldable pub value_of : Text → Text → Ini → Option Text
unfolding get_section value_in
value_of section key ini = value_in (get_section section ini) key

unfoldable pub or_default : Option Text → Text → Text
or_default none default = default
or_default (some v) default = v

unfoldable pub lower_or : Option Text → Text → Text
lower_or none default = default
lower_or (some v) default = lowercase v

unfoldable pub get_string : Text → Text → Text → Ini → Text
unfolding value_of or_default
get_string section key default ini = or_default (value_of section key ini) default

unfoldable pub get_string_lowercase : Text → Text → Text → Ini → Text
unfolding value_of lower_or
get_string_lowercase section key default ini = lower_or (value_of section key ini) default

abbrev pub yes_text : Text
yes_text = 121 ∷ 101 ∷ 115 ∷ []

abbrev pub no_text : Text
no_text = 110 ∷ 111 ∷ []

abbrev pub true_text : Text
true_text = 116 ∷ 114 ∷ 117 ∷ 101 ∷ []

abbrev pub bool_text : Bool → Text
bool_text b = if b then yes_text else no_text

unfoldable pub get_bool : Text → Text → Bool → Ini → Bool
unfolding get_string_lowercase
get_bool section key default ini =
    let s = get_string_lowercase section key (bool_text default) ini in
    same_text yes_text s || same_text true_text s

-- Does the value start with `0x`?
unfoldable pub is_hex : Text → Bool
is_hex (a ∷ b ∷ cs) = (a == 48) && ((b == 120) || (b == 88))
is_hex v = false

-- The assignment of the setters, `(*p)[szKey] = value`.
unfoldable pub assign : Text → Text → Text → Ini → Ini
unfolding make_section
assign section key value ini =
    let made = make_section section ini in put (lowercase section) (put key value made.0) made.1

unfoldable pub set_string : Text → Text → Text → Ini → Ini
unfolding assign
set_string section key [] ini = ini
set_string section key (c ∷ cs) ini = assign section key (c ∷ cs) ini

unfoldable pub set_bool : Text → Text → Bool → Ini → Ini
unfolding assign
set_bool section key value ini = assign section key (bool_text value) ini

module _ (atoi : Text → ℤ) (scan_hex : Text → ℤ) (print_int : ℤ → Text) where
  unfoldable pub get_integer : Text → Text → ℤ → Ini → ℤ
  unfolding value_of is_hex
  get_integer section key default ini = elim (value_of section key ini) [
    | none ↦ default
    | some v ↦ if is_hex v then scan_hex v else atoi v
  ]

  unfoldable pub set_integer : Text → Text → ℤ → Ini → Ini
  unfolding assign
  set_integer section key value ini = assign section key (print_int value) ini

-- addASection
unfoldable pub add_a_section : Text → Ini → Ini
add_a_section section ini = elim (find section ini) [ none ↦ put section [] ini | some s ↦ ini ]

-- addAValue: only the first value of a key counts.
unfoldable pub add_a_value : Text → Text → Text → Ini → Ini
add_a_value section key value ini = elim (find section ini) [
  | none ↦ ini
  | some s ↦ elim (find key s) [ none ↦ put section (put key value s) ini | some v ↦ ini ]
]

unfoldable pub add_a_key_value : Text → Text → Text → Ini → Bool × Ini
add_a_key_value section key value ini = elim (find section ini) [
  | none ↦ (false, ini)
  | some s ↦ (true, put section (put key value s) ini)
]

unfoldable pub delete_a_key_value : Text → Text → Ini → Bool × Ini
delete_a_key_value section key ini = elim (find section ini) [
  | none ↦ (false, ini)
  | some s ↦ (true, put section (erase key s) ini)
]

-- The key is looked up as it is.
unfoldable pub is_section_key_exist : Text → Text → Ini → Bool
unfolding get_section
is_section_key_exist section key ini = elim (get_section section ini) [
  | none ↦ false
  | some s ↦ elim (find key s) [ none ↦ false | some v ↦ true ]
]

-- clear
abbrev pub clear : Ini → Ini
clear ini = []

-- get_a_section
unfoldable pub get_a_section : Text → Ini → Option Section
unfolding get_section
get_a_section section ini = get_section section ini

-- The getters with an index: `print_int` is the output of a number to a stream.
module _ (print_int : ℤ → Text) where
  unfoldable pub make_sec : Text → ℤ → Text
  make_sec prefix index = prefix ++ print_int index

  unfoldable pub get_string_ex : Text → Text → ℤ → Text → Ini → Text
  unfolding get_string make_sec
  get_string_ex section prefix index default ini =
      get_string section (make_sec prefix index) default ini

  unfoldable pub get_string_lowercase_ex : Text → Text → ℤ → Text → Ini → Text
  unfolding get_string_lowercase make_sec
  get_string_lowercase_ex section prefix index default ini =
      get_string_lowercase section (make_sec prefix index) default ini

  unfoldable pub get_bool_ex : Text → Text → ℤ → Bool → Ini → Bool
  unfolding get_bool make_sec
  get_bool_ex section prefix index default ini =
      get_bool section (make_sec prefix index) default ini

  unfoldable pub get_integer_ex : (Text → ℤ) → (Text → ℤ) → Text → Text → ℤ → ℤ → Ini → ℤ
  unfolding get_integer make_sec
  get_integer_ex atoi scan_hex section prefix index default ini =
      get_integer atoi scan_hex print_int section (make_sec prefix index) default ini
