-- ===== src/Config/Store/Durable.antt =====
-- What `WriteItem` of common/Config.cpp has stored when it returns 0, whatever failed before.
use websocket_test.Base.{
  ℕ, ◌≡◌, ◌≢◌, refl, sym, subst, ap, ◌∙◌, Bool, true, false, Option, none, some, List, [], ◌∷◌, All,
  All-append, Status, code, lookup, assign, IsSorted, assign-IsSorted, AllEntries,
  assign-AllEntries, lookup-AllEntries, same_bytes_iff,
}
use websocket_test.Config.{
  ConfigType, Sections, write_file, write_in, write_item, read_item, get_section_list,
}
use websocket_test.Config.Items.{read_item-write_item, is_listed, get_section_list-write_item}
use websocket_test.Config.Load.{loaded, init}
use websocket_test.Config.Load.Lines.{item_text, header_text, IsText, IsItem}
use websocket_test.Config.Load.Whole.{item_texts, file_texts, AreItems, AreSections}
use websocket_test.Config.Load.RoundTrip.{IsLine, AreSorted, init-write_file}
use websocket_test.Config.Store.{
  Stored, Stream, no_stream, writes_all, fails_after, fails_at_close, file_writes, written, closed,
  write_file_to, store_item, restart,
}
use websocket_test.Config.Store.Written.{Closes, write_file_to-whole}

-- Items and sections that `LoadFile` reads as they were written.
abbrev pub IsStorable : List ℕ → List ℕ → Type 0
IsStorable key value = IsItem key value × IsLine (item_text key value)

abbrev pub IsSection : List ℕ → Type 0
IsSection name = (name ≢ []) × IsText (header_text name) × IsLine (header_text name)

abbrev pub IsStoredSection : List ℕ → ConfigType → Type 0
IsStoredSection name config = IsSection name × IsSorted config × AllEntries IsStorable config

abbrev pub AreStored : Sections → Type 0
AreStored s = IsSorted s × AllEntries IsStoredSection s

items-AreItems : (config : ConfigType) → AllEntries IsStorable config → AreItems config
items-AreItems [] a = tt
items-AreItems ((key, value) ∷ config) (p, a) = (p.0, items-AreItems config a)

items-IsLine : (config : ConfigType) → AllEntries IsStorable config → All IsLine (item_texts config)
items-IsLine [] a = tt
items-IsLine ((key, value) ∷ config) (p, a) = (p.1, items-IsLine config a)

stored-AreSorted : (s : Sections) → AllEntries IsStoredSection s → AreSorted s
stored-AreSorted [] a = tt
stored-AreSorted ((name, config) ∷ s) ((n, sorted, items), a) = (sorted, stored-AreSorted s a)

stored-AreSections : (s : Sections) → AllEntries IsStoredSection s → AreSections s
stored-AreSections [] a = tt
stored-AreSections ((name, config) ∷ s) (((ne, text, line), sorted, items), a) =
    (ne, text, items-AreItems config items, stored-AreSections s a)

stored-IsLine : (s : Sections) → AllEntries IsStoredSection s → All IsLine (file_texts s)
stored-IsLine [] a = tt
stored-IsLine ((name, config) ∷ s) (((ne, text, line), sorted, items), a) = (
  line,
  All-append IsLine (item_texts config) (file_texts s) (items-IsLine config items)
      (stored-IsLine s a),
)

restart-write_file : (s : Sections) → AreStored s → init (write_file s) [] ≡ loaded s
restart-write_file s (sorted, a) =
    init-write_file s sorted (stored-AreSorted s a) (stored-AreSections s a) (stored-IsLine s a)

-- An item with its section.
pub record Item : Type 0 where
  pub section : List ℕ
  pub key : List ℕ
  pub value : List ℕ

abbrev pub IsStorableItem : Item → Type 0
IsStorableItem i = IsSection i.section × IsStorable i.key i.value

write_in-AreStored :
    (i : Item) (s : Sections) (o : Option ConfigType)
    → IsStorableItem i
    → AreStored s
    → lookup i.section s ≡ o
    → AreStored (write_in i.section i.key i.value s o)
unfolding write_in
write_in-AreStored i s none (sec, item) (sorted, a) e = (
  assign-IsSorted i.section ((i.key, i.value) ∷ []) s sorted,
  assign-AllEntries IsStoredSection i.section ((i.key, i.value) ∷ []) s (sec, (tt, tt), (item, tt))
      a,
)
write_in-AreStored i s (some config) (sec, item) (sorted, a) e =
    let (sec', sorted', items) = lookup-AllEntries IsStoredSection i.section config s e a in
    let config' = assign i.key i.value config in
    (
      assign-IsSorted i.section config' s sorted,
      assign-AllEntries IsStoredSection i.section config' s
          (
            sec,
            assign-IsSorted i.key i.value config sorted',
            assign-AllEntries IsStorable i.key i.value config item items,
          )
          a,
    )

write_item-AreStored :
    (i : Item) (s : Sections)
    → IsStorableItem i
    → AreStored s
    → AreStored (write_item i.section i.key i.value s)
unfolding write_item
write_item-AreStored i s h a = write_in-AreStored i s (lookup i.section s) h a refl

abbrev pub store : Stream → Item → Stored → Stored × Status
store stream i m = store_item stream i.section i.key i.value m

-- Calls of WriteItem one after another, whatever they return.
unfoldable pub stores : List (Stream × Item) → Stored → Stored
stores [] m = m
stores ((stream, i) ∷ is) m = stores is (store stream i m).0

closed-sections :
    (kept : ℕ) (m : Stored) (r : List ℕ × Bool) → (closed kept m r).0.sections ≡ m.sections
unfolding closed
closed-sections kept m (bytes, true) = refl
closed-sections kept m (bytes, false) = refl

write_file_to-sections :
    (stream : Stream) (m : Stored) → (write_file_to stream m).0.sections ≡ m.sections
unfolding write_file_to
write_file_to-sections no_stream m = refl
write_file_to-sections writes_all m = refl
write_file_to-sections (fails_at_close kept) m = refl
write_file_to-sections (fails_after n kept) m =
    closed-sections kept m (written n (file_writes m.sections))

store-AreStored :
    (stream : Stream) (i : Item) (m : Stored)
    → IsStorableItem i
    → AreStored m.sections
    → AreStored (store stream i m).0.sections
unfolding store_item
store-AreStored stream i m h a =
    let s = write_item i.section i.key i.value m.sections in
    subst AreStored (sym (write_file_to-sections stream (record m { sections = s })))
      (write_item-AreStored i m.sections h a)

stores-AreStored :
    (is : List (Stream × Item)) (m : Stored)
    → All (λ i. IsStorableItem i.1) is
    → AreStored m.sections
    → AreStored (stores is m).sections
unfolding stores
stores-AreStored [] m h a = a
stores-AreStored ((stream, i) ∷ is) m (h, hs) a =
    stores-AreStored is (store stream i m).0 hs (store-AreStored stream i m h a)

-- From sections in the order of their names, with items in the order of their keys, that LoadFile
-- reads as they are written, and over any WriteItems of items that it reads so, whatever their
-- streams did: when one more WriteItem of such an item returns 0, on a stream that does not fail at
-- its close, Init of a new object on the file ends with the sections in memory, ReadItem answers
-- the value written, and getSectionList names its section.
pub store_item-durable :
    (is : List (Stream × Item)) (stream : Stream) (i : Item) (m : Stored) (default : List ℕ)
    (list : List (List ℕ))
    → AreStored m.sections
    → All (λ j. IsStorableItem j.1) is
    → IsStorableItem i
    → Closes stream
    → (store stream i (stores is m)).1 ≡ code 0
    → (restart (store stream i (stores is m)).0 ≡ loaded (store stream i (stores is m)).0.sections)
      × (read_item i.section i.key default (store stream i (stores is m)).0.sections ≡ some i.value)
      × (is_listed i.section (get_section_list list (store stream i (stores is m)).0.sections)
          ≡ true)
unfolding store_item restart
store_item-durable is stream i m default list a hs h c e =
    let m' = stores is m in
    let s = write_item i.section i.key i.value m'.sections in
    let whole = write_file_to-whole stream (record m' { sections = s }) c e in
    let kept = stores-AreStored is m hs a in
    (
      ap (λ n. init n.file []) whole
          ∙ restart-write_file s (write_item-AreStored i m'.sections h kept)
          ∙ ap (λ n. loaded n.sections) (sym whole),
      ap (λ n. read_item i.section i.key default n.sections) whole
          ∙ read_item-write_item i.section i.key i.value m'.sections i.section i.key default
          ∙ rw ((same_bytes_iff i.section i.section).1 refl, (same_bytes_iff i.key i.key).1 refl)
              refl,
      ap (λ n. is_listed i.section (get_section_list list n.sections)) whole
          ∙ get_section_list-write_item i.section i.key i.value m'.sections list,
    )
