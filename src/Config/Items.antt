-- ===== src/Config/Items.antt =====
-- `ReadItem` and `WriteItem` of common/Config.cpp, one after the other.
use websocket_test.Base.{
  same_bytes, same_bytes_iff, lookup, assign, lookup-assign, ℕ, ◌≡◌, refl, sym, ap, ◌∙◌, Bool, true,
  false, Option, none, some, List, [], ◌∷◌, if◌then◌else◌, map, ◌++◌, ◌||◌, arith,
}
use websocket_test.Config.{
  ConfigType, Sections, read_in, read_item, write_in, write_item, get_section_list,
}

module _ (section key value : List ℕ) (s : Sections) (section' key' default : List ℕ) where
  expected : Option ConfigType → Bool → Option (List ℕ)
  expected o b =
      if b
      then (if same_bytes key key'
          then some value
          else (elim o [ none ↦ some default | some config ↦ read_item section' key' default s ]))
      else read_item section' key' default s

  assigned-read :
      (c : ConfigType) (b : Bool)
      → same_bytes section section' ≡ b
      → read_in key' default (lookup section' (assign section c s))
        ≡ (if b then read_in key' default (some c) else read_item section' key' default s)
  unfolding read_item
  assigned-read c true t =
      ap (read_in key' default) (lookup-assign section section' c s ∙ rw t refl)
  assigned-read c false t =
      ap (read_in key' default) (lookup-assign section section' c s ∙ rw t refl)

  pick :
      (b : Bool) (o r : Option (List ℕ))
      → (elim o [ none ↦ some default | some v ↦ some v ]) ≡ r
      → (elim (if b then some value else o) [ none ↦ some default | some v ↦ some v ])
        ≡ (if b then some value else r)
  pick true o r e = refl
  pick false o r e = e

  -- The section's own items, where it was there.
  in_section :
      (config : ConfigType)
      → lookup section s ≡ some config
      → same_bytes section section' ≡ true
      → read_in key' default (some (assign key value config)) ≡ expected (some config) true
  unfolding expected read_item read_in
  in_section config e t =
      ap (λ o. elim o [ none ↦ some default | some v ↦ some v ])
        (lookup-assign key key' value config)
      ∙ pick (same_bytes key key') (lookup key' config) (read_item section' key' default s) (
          sym (
            ap (read_in key' default)
              (ap (λ q. lookup q s) (sym ((same_bytes_iff section section').0 t)) ∙ e)))

  written :
      (o : Option ConfigType) (b : Bool)
      → lookup section s ≡ o
      → same_bytes section section' ≡ b
      → read_in key' default (lookup section' (write_in section key value s o)) ≡ expected o b
  unfolding expected write_in read_in lookup
  written none true e t =
      assigned-read ((key, value) ∷ []) true t ∙ pick (same_bytes key key') none (some default) refl
  written none false e t = assigned-read ((key, value) ∷ []) false t
  written (some config) true e t =
      assigned-read (assign key value config) true t ∙ in_section config e t
  written (some config) false e t = assigned-read (assign key value config) false t

-- After WriteItem, ReadItem answers the value written for that item; for another item of that
-- section what it answered before, or the default where the section is new; and for the items of
-- other sections what it answered before.
pub read_item-write_item :
    (section key value : List ℕ) (s : Sections) (section' key' default : List ℕ)
    → read_item section' key' default (write_item section key value s) ≡ (
        if same_bytes section section'
        then (if same_bytes key key' then some value else (elim (lookup section s) [
          | none ↦ some default
          | some config ↦ read_item section' key' default s
        ]))
        else read_item section' key' default s)
unfolding read_item write_item expected
read_item-write_item section key value s section' key' default =
    written section key value s section' key' default (lookup section s)
      (same_bytes section section') refl refl

-- Whether a name is in a list.
unfoldable pub is_listed : List ℕ → List (List ℕ) → Bool
is_listed name [] = false
is_listed name (n ∷ ns) = same_bytes n name || is_listed name ns

is_listed-append :
    (name : List ℕ) (ms ns : List (List ℕ))
    → is_listed name ns ≡ true
    → is_listed name (ms ++ ns) ≡ true
unfolding is_listed
is_listed-append name [] ns e = e
is_listed-append name (m ∷ ms) ns e = ground (arith, is_listed-append name ms ns e)

is_listed-assign :
    (name : List ℕ) (c : ConfigType) (s : Sections)
    → is_listed name (map (λ e. e.0) (assign name c s)) ≡ true
unfolding is_listed assign
is_listed-assign name c [] = ground (arith, same_bytes_iff name name)
is_listed-assign name c ((n, d) ∷ s) =
    ground (arith, is_listed-assign name c s, same_bytes_iff name name, same_bytes_iff n name)

-- A section that an item has been written to is listed.
pub get_section_list-write_item :
    (section key value : List ℕ) (s : Sections) (list : List (List ℕ))
    → is_listed section (get_section_list list (write_item section key value s)) ≡ true
unfolding get_section_list write_item
get_section_list-write_item section key value s list =
    is_listed-append section list _ (names (lookup section s))
  where
    names :
        (o : Option ConfigType)
        → is_listed section (map (λ e. e.0) (write_in section key value s o)) ≡ true
    names none = unfold write_in in is_listed-assign section ((key, value) ∷ []) s
    names (some config) = unfold write_in in is_listed-assign section (assign key value config) s
