-- ===== src/Config/Load/Lines.antt =====
-- `LoadFile` of common/Config.cpp: one line, a section's or an item's.
use websocket_test.Base.{
  ℕ, ◌+◌, ◌-◌, ◌≡◌, ◌≢◌, refl, sym, ap, ap₂, ◌∙◌, arith, Bool, true, false, ◌||◌, none, some, List,
  [], ◌∷◌, ◌++◌, ◌==◌, if◌then◌else◌, drop, length, take-append, drop-append, drop-drop, suc,
  le→ltb,
}
use websocket_test.Config.{find_first, find_last, trim_string}
use websocket_test.Config.Load.{
  c_string, strip_cr, Line, header, item, starts_with, between, trimmed_item, item_line,
  section_line, plain_line, bracket_line, trimmed_line, read_text, read_line,
}

abbrev pub item_text : List ℕ → List ℕ → List ℕ
item_text key value = key ++ (61 ∷ value)

abbrev pub header_text : List ℕ → List ℕ
header_text name = 91 ∷ (name ++ (93 ∷ []))

-- A line that is read as it is: no NUL in it, no carriage return at its end, no blanks around it.
pub record IsText (s : List ℕ) : Type 0 where
  pub whole : c_string s ≡ s
  pub uncut : strip_cr s ≡ s
  pub tight : trim_string s ≡ some s

-- An item whose line is no comment and has no `[`, whose key has no `=`, and no blanks around its parts.
pub record IsItem (key value : List ℕ) : Type 0 where
  pub text : IsText (item_text key value)
  pub no_bracket : find_first (λ c. c == 91) 0 (item_text key value) ≡ none
  pub no_comment :
      (starts_with 59 (item_text key value) || starts_with 35 (item_text key value)) ≡ false
  pub no_equals : find_first (λ c. c == 61) 0 key ≡ none
  pub tight_key : trim_string key ≡ some key
  pub tight_value : trim_string value ≡ some value

behind-ne_nil : (xs : List ℕ) (c : ℕ) (ys : List ℕ) → xs ++ (c ∷ ys) ≢ []
behind-ne_nil [] c ys = λ e. ground (arith, e)
behind-ne_nil (x ∷ xs) c ys = λ e. ground (arith, e)

drop_behind :
    (n : ℕ) (xs : List ℕ) (c : ℕ) (ys : List ℕ) → n ≡ length xs → drop (n + 1) (xs ++ (c ∷ ys)) ≡ ys
drop_behind n xs c ys e =
    sym (drop-drop n 1 (xs ++ (c ∷ ys))) ∙ ap (drop 1) (drop-append n xs (c ∷ ys) e)

find_first_behind :
    (p : ℕ → Bool) (i : ℕ) (xs : List ℕ) (c : ℕ) (ys : List ℕ)
    → find_first p i xs ≡ none
    → p c ≡ true
    → find_first p i (xs ++ (c ∷ ys)) ≡ some (i + length xs)
unfolding find_first
find_first_behind p i [] c ys h e = ground (arith, e)
find_first_behind p i (x ∷ xs) c ys h e = ground (arith, find_first_behind p (i + 1) xs c ys)

find_last_end :
    (p : ℕ → Bool) (i : ℕ) (xs : List ℕ) (c : ℕ)
    → p c ≡ true
    → find_last p i (xs ++ (c ∷ [])) ≡ some (i + length xs)
unfolding find_last
find_last_end p i [] c e = ground (arith, e)
find_last_end p i (x ∷ xs) c e =
    rw (find_last_end p (i + 1) xs c e)
      (ap some {x = i + 1 + length xs} {y = i + suc (length xs)} (omega arith))

read_text-nonempty : (s : List ℕ) → s ≢ [] → read_text s ≡ trimmed_line (trim_string s)
unfolding read_text
read_text-nonempty [] h = absurd (h refl)
read_text-nonempty (c ∷ s) h = refl

read-IsText :
    (s : List ℕ) → s ≢ [] → IsText s → read_line s ≡ bracket_line s (find_first (λ c. c == 91) 0 s)
unfolding read_line trimmed_line
read-IsText s ne t =
    ap read_text (ap strip_cr t.whole ∙ t.uncut) ∙ read_text-nonempty s ne ∙ ap trimmed_line t.tight

pub read_item_line :
    (key value : List ℕ) → IsItem key value → read_line (item_text key value) ≡ item key value
unfolding bracket_line plain_line item_line trimmed_item
read_item_line key value h =
    read-IsText (item_text key value) (behind-ne_nil key 61 value) h.text
    ∙ ap (bracket_line (item_text key value)) h.no_bracket
    ∙ ap
        (λ b.
          if b
          then Line.nothing
          else item_line (item_text key value) (find_first (λ c. c == 61) 0 (item_text key value)))
        h.no_comment
    ∙ ap (item_line (item_text key value))
        (find_first_behind (λ c. c == 61) 0 key 61 value h.no_equals refl)
    ∙ ap₂ trimmed_item
        (ap trim_string (take-append (0 + length key) key (61 ∷ value) (omega arith)) ∙ h.tight_key)
        (ap trim_string (drop_behind (0 + length key) key 61 value (omega arith)) ∙ h.tight_value)

bracket_found : (name : List ℕ) → find_first (λ c. c == 91) 0 (header_text name) ≡ some 0
unfolding find_first
bracket_found name = refl

between_name : (name : List ℕ) → between (header_text name) 0 (0 + length (91 ∷ name)) ≡ name
unfolding between
between_name name =
    rw (le→ltb (0 + length (91 ∷ name)) 0 (omega arith))
      (take-append (0 + length (91 ∷ name) - 0 - 1) name (93 ∷ []) (omega arith))

pub read_header_line :
    (name : List ℕ) → IsText (header_text name) → read_line (header_text name) ≡ header name
unfolding bracket_line section_line
read_header_line name t =
    read-IsText (header_text name) (λ e. ground (arith, e)) t
    ∙ ap (bracket_line (header_text name)) (bracket_found name)
    ∙ ap (section_line (header_text name) 0) (find_last_end (λ c. c == 93) 0 (91 ∷ name) 93 refl)
    ∙ ap header (between_name name)
