-- ===== src/Config/Load/RoundTrip.antt =====
-- `WriteFile` of common/Config.cpp, and `LoadFile` of what it wrote.
use websocket_test.Base.{
  ℕ, ◌<◌, ◌≡◌, ◌≢◌, refl, sym, ap, ap₂, ◌∙◌, arith, List, [], ◌∷◌, ◌++◌, All, append_assoc,
  append-nil, length, lt→ltb, assign, IsSorted, assign-AllBelow, IsSorted-AllBelow,
}
use websocket_test.Config.{ConfigType, Sections, write_file, item_lines}
use websocket_test.Config.Load.{
  loaded, load_file, max_line_len, end_line, last_line, lines_from, init,
}
use websocket_test.Config.Load.Whole.{
  item_texts, file_texts, assign_items, assign_sections, AreSections, load_file-file_texts,
}

-- A line that `getline` gives back: no end of line in it, and short enough for the buffer.
abbrev pub IsLine : List ℕ → Type 0
IsLine s = All (λ c. c ≢ 10) s × (length s < max_line_len)

abbrev pub with_ends : List (List ℕ) → List ℕ
with_ends [] = []
with_ends (line ∷ rest) = line ++ (10 ∷ with_ends rest)

lines_from_plain :
    (line xs ys : List ℕ)
    → All (λ c. c ≢ 10) xs
    → lines_from line (xs ++ ys) ≡ lines_from (line ++ xs) ys
unfolding lines_from
lines_from_plain line [] ys h = ap (λ l. lines_from l ys) (sym (append-nil line))
lines_from_plain line (x ∷ xs) ys h =
    ground (arith, lines_from_plain (line ++ (x ∷ [])) xs ys h.1, append_assoc line (x ∷ []) xs)

lines_from-with_ends :
    (lines : List (List ℕ)) → All IsLine lines → lines_from [] (with_ends lines) ≡ lines
unfolding lines_from last_line end_line
lines_from-with_ends [] h = refl
lines_from-with_ends (line ∷ rest) ((plain, short), hs) =
    lines_from_plain [] line (10 ∷ with_ends rest) plain
    ∙ rw (lt→ltb (length line) max_line_len short) (ap (◌∷◌ line) (lines_from-with_ends rest hs))

with_ends-append : (xs ys : List (List ℕ)) → with_ends (xs ++ ys) ≡ with_ends xs ++ with_ends ys
with_ends-append [] ys = refl
with_ends-append (x ∷ xs) ys =
    ap (λ r. x ++ (10 ∷ r)) (with_ends-append xs ys)
    ∙ sym (append_assoc x (10 ∷ with_ends xs) (with_ends ys))

item_lines_lem : (config : ConfigType) → item_lines config ≡ with_ends (item_texts config)
unfolding item_lines
item_lines_lem [] = refl
item_lines_lem ((key, value) ∷ config) =
    ap (λ r. key ++ (61 ∷ value ++ (10 ∷ r))) (item_lines_lem config)
    ∙ sym (append_assoc key (61 ∷ value) (10 ∷ with_ends (item_texts config)))

-- What `WriteFile` writes is its lines, each with its end.
write_file_lem : (s : Sections) → write_file s ≡ with_ends (file_texts s)
unfolding write_file
write_file_lem [] = refl
write_file_lem ((name, config) ∷ s) = ap (◌∷◌ 91) (
    append_assoc name (93 ∷ (10 ∷ [])) (item_lines config ++ write_file s)
    ∙ ap (λ r. name ++ (93 ∷ (10 ∷ r)))
        (ap₂ ◌++◌ (item_lines_lem config) (write_file_lem s)
          ∙ sym (with_ends-append (item_texts config) (file_texts s)))
    ∙ sym (append_assoc name (93 ∷ []) (10 ∷ with_ends (item_texts config ++ file_texts s))))

module _ {V : Type 0} (m : List (List ℕ × V)) (key : List ℕ) (value : V) (rest : List (List ℕ × V))
    (s : IsSorted (m ++ ((key, value) ∷ rest))) where
  -- The next entry in the order of the keys goes to the end, and the rest is still in order.
  assign_next : assign key value m ≡ m ++ ((key, value) ∷ [])
  assign_next = assign-AllBelow key value m (IsSorted-AllBelow m key value rest s)

  regrouped : (m ++ ((key, value) ∷ [])) ++ rest ≡ m ++ ((key, value) ∷ rest)
  regrouped = append_assoc m ((key, value) ∷ []) rest

  next-IsSorted : IsSorted ((m ++ ((key, value) ∷ [])) ++ rest)
  next-IsSorted = rw regrouped s

-- Assignments in the order of the keys rebuild the map.
assign_items-IsSorted :
    (config m : ConfigType) → IsSorted (m ++ config) → assign_items config m ≡ m ++ config
assign_items-IsSorted [] m s = sym (append-nil m)
assign_items-IsSorted ((key, value) ∷ config) m s =
    ap (assign_items config) (assign_next m key value config s)
    ∙ assign_items-IsSorted config (m ++ ((key, value) ∷ [])) (next-IsSorted m key value config s)
    ∙ regrouped m key value config s

-- A map of maps, all in the order of their keys.
abbrev pub AreSorted : Sections → Type 0
AreSorted [] = Unit {0}
AreSorted ((name, config) ∷ rest) = IsSorted config × AreSorted rest

assign_sections-IsSorted :
    (secs m : Sections) → AreSorted secs → IsSorted (m ++ secs) → assign_sections secs m ≡ m ++ secs
assign_sections-IsSorted [] m a s = sym (append-nil m)
assign_sections-IsSorted ((name, config) ∷ secs) m (c, a) s =
    ap (λ i. assign_sections secs (assign name i m)) (assign_items-IsSorted config [] c)
    ∙ ap (assign_sections secs) (assign_next m name config secs s)
    ∙ assign_sections-IsSorted secs (m ++ ((name, config) ∷ [])) a
        (next-IsSorted m name config secs s)
    ∙ regrouped m name config secs s

-- Init on the bytes of a file that WriteFile wrote ends with the sections that were written:
-- sections in the order of their names, each with its items in the order of their keys, where no
-- section name is empty, each line has no end of line, no NUL, no carriage return at its end, no
-- blanks around it and fewer than 10240 bytes, and each item has no [ in its line, does not start a
-- comment, has no = in its key and no blanks around key or value.
pub init-write_file :
    (s : Sections)
    → IsSorted s
    → AreSorted s
    → AreSections s
    → All IsLine (file_texts s)
    → init (write_file s) [] ≡ loaded s
unfolding init
init-write_file s sorted items texts lines =
    ap (λ b. load_file (lines_from [] b) []) (write_file_lem s)
    ∙ ap (λ l. load_file l []) (lines_from-with_ends (file_texts s) lines)
    ∙ load_file-file_texts s [] texts
    ∙ ap loaded (assign_sections-IsSorted s [] items sorted)
