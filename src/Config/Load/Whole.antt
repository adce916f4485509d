-- ===== src/Config/Load/Whole.antt =====
-- `LoadFile` of common/Config.cpp on a whole file of sections.
use websocket_test.Base.{
  assign, ℕ, ◌≡◌, ◌≢◌, refl, ap, ◌∙◌, true, false, List, [], ◌∷◌, ◌++◌, if◌then◌else◌,
}
use websocket_test.Config.{ConfigType, Sections}
use websocket_test.Config.Load.{
  Loading, loaded, enter, close_section, load_line, load_lines, load_file,
}
use websocket_test.Config.Load.Lines.{
  item_text, header_text, IsText, IsItem, read_item_line, read_header_line,
}

abbrev pub item_texts : ConfigType → List (List ℕ)
item_texts [] = []
item_texts ((key, value) ∷ rest) = item_text key value ∷ item_texts rest

-- The lines of a file with these sections.
abbrev pub file_texts : Sections → List (List ℕ)
file_texts [] = []
file_texts ((name, config) ∷ rest) = header_text name ∷ (item_texts config ++ file_texts rest)

abbrev pub assign_items : ConfigType → ConfigType → ConfigType
assign_items [] m = m
assign_items ((key, value) ∷ rest) m = assign_items rest (assign key value m)

abbrev pub assign_sections : Sections → Sections → Sections
assign_sections [] s = s
assign_sections ((name, config) ∷ rest) s =
    assign_sections rest (assign name (assign_items config []) s)

abbrev pub AreItems : ConfigType → Type 0
AreItems [] = Unit {0}
AreItems ((key, value) ∷ rest) = IsItem key value × AreItems rest

abbrev pub AreSections : Sections → Type 0
AreSections [] = Unit {0}
AreSections ((name, config) ∷ rest) =
    (name ≢ []) × IsText (header_text name) × AreItems config × AreSections rest

load_items :
    (config : ConfigType) (rest : List (List ℕ)) (l : Loading)
    → AreItems config
    → load_lines (item_texts config ++ rest) l
      ≡ load_lines rest (record l { keyvalue = assign_items config l.keyvalue })
unfolding load_lines load_line
load_items [] rest l h = refl
load_items ((key, value) ∷ config) rest l (h, hs) =
    ap (λ line. load_line line (load_lines (item_texts config ++ rest)) l)
      (read_item_line key value h)
    ∙ load_items config rest (record l { keyvalue = assign key value l.keyvalue }) hs

close-nonempty :
    (name : List ℕ) (l : Loading)
    → name ≢ []
    → close_section name l ≡ loaded (assign name l.keyvalue l.sections)
unfolding close_section
close-nonempty [] l h = absurd (h refl)
close-nonempty (c ∷ name) l h = refl

-- Within a section: it is assigned when the next begins, or at the end.
load_sections :
    (secs : Sections) (l : Loading)
    → l.getsection ≡ true
    → l.section ≢ []
    → AreSections secs
    → load_lines (file_texts secs) l
      ≡ loaded (assign_sections secs (assign l.section l.keyvalue l.sections))
unfolding load_lines load_line enter
load_sections [] l g ne h = close-nonempty l.section l ne
load_sections ((name, config) ∷ secs) l g ne (nn, t, items, hs) =
    ap (λ line. load_line line (load_lines (item_texts config ++ file_texts secs)) l)
      (read_header_line name t)
    ∙ load_items config (file_texts secs) (enter name l) items
    ∙ load_sections secs (record (enter name l) { keyvalue = assign_items config [] }) refl nn hs
    ∙ ap
        (λ b. loaded (
          assign_sections secs (
            assign name (assign_items config [])
              (if b then assign l.section l.keyvalue l.sections else l.sections))))
        g

-- LoadFile of the lines of sections and their items (a name in brackets, then key=value) ends with
-- the sections assigned in the order of the file, each with its items assigned in their order,
-- where no name is empty, each line has no NUL, no carriage return at its end and no blanks around
-- it, and each item has no [ in its line, does not start a comment, has no = in its key and no
-- blanks around key or value.
pub load_file-file_texts :
    (secs : Sections) (before : Sections)
    → AreSections secs
    → load_file (file_texts secs) before ≡ loaded (assign_sections secs before)
unfolding load_file load_lines load_line enter close_section
load_file-file_texts [] before h = refl
load_file-file_texts ((name, config) ∷ secs) before (nn, t, items, hs) =
    let l : Loading = record {
      sections = before;
      section = [];
      getsection = false;
      keyvalue = [];
    } in
    ap (λ line. load_line line (load_lines (item_texts config ++ file_texts secs)) l)
      (read_header_line name t)
    ∙ load_items config (file_texts secs) (enter name l) items
    ∙ load_sections secs (record (enter name l) { keyvalue = assign_items config [] }) refl nn hs
