-- ===== src/Config/Load.antt =====
-- `LoadFile` of common/Config.cpp: the lines that `getline` gives, each without its end of line.
pub mod Lines
pub mod Whole
pub mod RoundTrip
use websocket_test.Base.{
  length, assign, ℕ, ◌+◌, ◌-◌, Bool, true, false, ◌||◌, Option, none, some, List, [], ◌∷◌, ◌++◌,
  ◌==◌, ltb, if◌then◌else◌, take, drop,
}
use websocket_test.Config.{ConfigType, Sections, find_first, find_last, trim_string}

-- The loop's variables.
pub record Loading : Type 0 where
  pub sections : Sections
  pub section : List ℕ
  pub getsection : Bool
  pub keyvalue : ConfigType

-- `LoadFile` returns 0 with the sections, or -1, or an exception leaves it.
pub data Loaded : Type 0 where
  loaded : Sections → Loaded
  bad_line thrown : Loaded

-- What is in the buffer up to the first NUL.
unfoldable pub c_string : List ℕ → List ℕ
c_string [] = []
c_string (c ∷ s) = let rest = c_string s in if c == 0 then [] else c ∷ rest

unfoldable pub strip_cr : List ℕ → List ℕ
strip_cr [] = []
strip_cr (c ∷ []) = if c == 13 then [] else c ∷ []
strip_cr (c ∷ (d ∷ s)) = c ∷ strip_cr (d ∷ s)

-- What a line says: nothing, a section's name, an item, a `[` without a `]`, or an exception.
pub data Line : Type 0 where
  nothing : Line
  header : List ℕ → Line
  item : List ℕ → List ℕ → Line
  unclosed throws : Line

unfoldable pub starts_with : ℕ → List ℕ → Bool
starts_with c [] = false
starts_with c (x ∷ xs) = x == c

-- `substr(pos + 1, endpos - pos - 1)`, whose count is huge where `endpos` is the smaller.
unfoldable pub between : List ℕ → ℕ → ℕ → List ℕ
between s pos endpos =
    if ltb endpos pos then drop (pos + 1) s else take (endpos - pos - 1) (drop (pos + 1) s)

unfoldable pub trimmed_item : Option (List ℕ) → Option (List ℕ) → Line
trimmed_item none value = throws
trimmed_item (some key) none = throws
trimmed_item (some key) (some value) = item key value

unfoldable pub item_line : List ℕ → Option ℕ → Line
item_line s none = nothing
item_line s (some keypos) =
    trimmed_item (trim_string (take keypos s)) (trim_string (drop (keypos + 1) s))

unfoldable pub section_line : List ℕ → ℕ → Option ℕ → Line
section_line s pos none = unclosed
section_line s pos (some endpos) = header (between s pos endpos)

unfoldable pub plain_line : List ℕ → Line
plain_line s =
    if starts_with 59 s || starts_with 35 s
    then nothing
    else item_line s (find_first (λ c. c == 61) 0 s)

unfoldable pub bracket_line : List ℕ → Option ℕ → Line
bracket_line s none = plain_line s
bracket_line s (some pos) = section_line s pos (find_last (λ c. c == 93) 0 s)

unfoldable pub trimmed_line : Option (List ℕ) → Line
trimmed_line none = throws
trimmed_line (some s) = bracket_line s (find_first (λ c. c == 91) 0 s)

unfoldable pub read_text : List ℕ → Line
read_text [] = nothing
read_text (c ∷ s) = trimmed_line (trim_string (c ∷ s))

unfoldable pub read_line : List ℕ → Line
read_line buf = read_text (strip_cr (c_string buf))

-- What a new section makes of the variables.
unfoldable pub enter : List ℕ → Loading → Loading
enter name l = record {
  sections = if l.getsection then assign l.section l.keyvalue l.sections else l.sections;
  section = name;
  getsection = true;
  keyvalue = [];
}

unfoldable pub close_section : List ℕ → Loading → Loaded
close_section [] l = loaded l.sections
close_section (c ∷ s) l = loaded (assign (c ∷ s) l.keyvalue l.sections)

unfoldable pub load_line : Line → (Loading → Loaded) → Loading → Loaded
load_line nothing next l = next l
load_line (header name) next l = next (enter name l)
load_line (item key value) next l = next (record l { keyvalue = assign key value l.keyvalue })
load_line unclosed next l = bad_line
load_line throws next l = thrown

-- The loop and what follows it.
unfoldable pub load_lines : List (List ℕ) → Loading → Loaded
load_lines [] l = close_section l.section l
load_lines (line ∷ rest) l = load_line (read_line line) (load_lines rest) l

unfoldable pub load_file : List (List ℕ) → Sections → Loaded
load_file lines sections =
    load_lines lines
      (record { sections = sections; section = []; getsection = false; keyvalue = [] })

-- `MAX_LINE_LEN`.
abbrev pub max_line_len : ℕ
max_line_len = 10240

-- What `getline` gives, one line after the other: the end of a line is dropped, a last line may have none,
-- and a line that the buffer cannot hold with its NUL ends the loop.
unfoldable pub end_line : List ℕ → List (List ℕ) → List (List ℕ)
end_line line rest = if ltb (length line) max_line_len then line ∷ rest else []

unfoldable pub last_line : List ℕ → List (List ℕ)
last_line [] = []
last_line (c ∷ s) = end_line (c ∷ s) []

unfoldable pub lines_from : List ℕ → List ℕ → List (List ℕ)
lines_from line [] = last_line line
lines_from line (c ∷ s) =
    let rest = lines_from [] s in
    let more = lines_from (line ++ (c ∷ [])) s in if c == 10 then end_line line rest else more

-- `Init` on a file's bytes.
unfoldable pub init : List ℕ → Sections → Loaded
init bytes sections = load_file (lines_from [] bytes) sections
