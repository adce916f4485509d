-- ===== src/Config.antt =====
-- `Magic_Config`, the ini file of common/Config.h and common/Config.cpp. A string is the list of its
-- bytes, a `std::map` the list of its entries in the order of their keys. What the streams do is outside:
-- a file is the list of lines that `getline` gives, or the bytes written, and a stream that fails to open
-- or to write is an argument.
pub mod Items
pub mod Trim
pub mod Load
pub mod Store
use websocket_test.Base.{
  lookup, assign, ℕ, ◌+◌, ◌-◌, Bool, true, false, not, ◌&&◌, ◌||◌, Option, none, some, List, [],
  ◌∷◌, ◌++◌, ◌==◌, ltb, if◌then◌else◌, length, take, drop, map,
}

-- `ConfigType`, and `m_section`.
abbrev pub ConfigType : Type 0
ConfigType = List (List ℕ × List ℕ)

abbrev pub Sections : Type 0
Sections = List (List ℕ × ConfigType)

abbrev pub space : ℕ
space = 32

-- `getSection`: what is assigned to its argument, or none for -1.
unfoldable pub get_section : List ℕ → Sections → Option ConfigType
unfolding lookup
get_section name s = lookup name s

unfoldable pub find_first : (ℕ → Bool) → ℕ → List ℕ → Option ℕ
find_first p i [] = none
find_first p i (c ∷ s) = let rest = find_first p (i + 1) s in if p c then some i else rest

unfoldable pub find_last : (ℕ → Bool) → ℕ → List ℕ → Option ℕ
find_last p i [] = none
find_last p i (c ∷ s) = elim (find_last p (i + 1) s) [
  | some j ↦ some j
  | none ↦ if p c then some i else none
]

-- `TrimString`; where no byte is other than a blank, `substr` throws, and there is no result.
unfoldable pub trim_found : List ℕ → Option ℕ → Option ℕ → Option (List ℕ)
trim_found s none last = none
trim_found s (some pos) none = none
trim_found s (some pos) (some endpos) = some (take (endpos + 1 - pos) (drop pos s))

unfoldable pub trim_string : List ℕ → Option (List ℕ)
trim_string [] = some []
trim_string (c ∷ s) =
    trim_found (c ∷ s) (find_first (λ x. not (x == space)) 0 (c ∷ s))
      (find_last (λ x. not (x == space)) 0 (c ∷ s))

-- `ReadItem`: -1, or 0 with what is assigned to `itemvalue`.
unfoldable pub read_in : List ℕ → List ℕ → Option ConfigType → Option (List ℕ)
unfolding lookup
read_in key default none = none
read_in key default (some config) = elim (lookup key config) [
  | none ↦ some default
  | some value ↦ some value
]

unfoldable pub read_item : List ℕ → List ℕ → List ℕ → Sections → Option (List ℕ)
read_item section key default s = read_in key default (lookup section s)

-- What `WriteItem` makes of the sections, in front of `WriteFile`.
unfoldable pub write_in : List ℕ → List ℕ → List ℕ → Sections → Option ConfigType → Sections
write_in section key value s none = assign section ((key, value) ∷ []) s
write_in section key value s (some config) = assign section (assign key value config) s

unfoldable pub write_item : List ℕ → List ℕ → List ℕ → Sections → Sections
write_item section key value s = write_in section key value s (lookup section s)

-- `getSectionList`, which appends to the caller's list.
unfoldable pub get_section_list : List (List ℕ) → Sections → List (List ℕ)
get_section_list list s = list ++ map (λ e. e.0) s

-- The bytes of `WriteFile`.
unfoldable pub item_lines : ConfigType → List ℕ
item_lines [] = []
item_lines ((key, value) ∷ rest) = key ++ (61 ∷ value ++ (10 ∷ item_lines rest))

unfoldable pub write_file : Sections → List ℕ
unfolding item_lines
write_file [] = []
write_file ((section, config) ∷ rest) =
    (91 ∷ section ++ (93 ∷ (10 ∷ []))) ++ (item_lines config ++ write_file rest)
