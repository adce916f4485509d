-- ===== src/Tests/Files.antt =====
-- The theorems on the configuration, the sockets and the timed wait, at small inputs.
use websocket_test.Base.{
  ◌<◌, ◌+◌, ◌*◌, ◌≡◌, refl, arith, true, false, none, some, List, [], ◌∷◌, code,
}
use websocket_test.Tests.{task_with}
use websocket_test.Cond.{deadline, deadline-exact}
use websocket_test.Registry.{}
use websocket_test.Discovery.{}
use websocket_test.Config.{Sections, read_item, write_file, trim_string}
use websocket_test.Config.{find_first, find_last, trim_found}
use websocket_test.Config.Load.{loaded, init, c_string, strip_cr, starts_with}
use websocket_test.Config.Load.Lines.{IsText, IsItem, header_text}
use websocket_test.Config.Load.Whole.{}
use websocket_test.Config.{get_section_list}
use websocket_test.Config.Items.{is_listed}
use websocket_test.Config.Store.{
  Stored, Stream, fails_after, writes_all, restart, store_item, write_file_to,
}
use websocket_test.Config.Store.Durable.{
  Item, IsSection, IsStorableItem, store, stores, store_item-durable,
}
use websocket_test.Config.Load.RoundTrip.{init-write_file}
use websocket_test.Epoll.{Interest, reading}
use websocket_test.Sockets.{
  Endpoint, create_bind_socket, is_open, wait_writable, writable, accept_one,
}
use websocket_test.Sockets.Setup.{Bound, create_bind_socket-Bound}
use websocket_test.Sockets.Accepted.{waits_on, first_accepted}

abbrev fresh : Endpoint
fresh = record { task = task_with []; epoll = []; fds = 3 ∷ [] }

create_bind_socket-Bound_example : Bound 7 true fresh (create_bind_socket (some 7) true fresh)
unfolding is_open websocket_test.Epoll.find
create_bind_socket-Bound_example =
    create_bind_socket-Bound 7 true fresh (λ e. omega arith) (refl, refl) (refl, refl)

first_accepted_example :
    (waits_on 7 (
        accept_one
          (record { fd = 7; negative = false; socket = some 8; selects = writable ∷ [] })
          (record { current = none; epoll = []; fds = [] }))
      ≡ none)
    × (waits_on 8 (
          accept_one
            (record { fd = 7; negative = false; socket = some 8; selects = writable ∷ [] })
            (record { current = none; epoll = []; fds = [] }))
        ≡ some reading)
unfolding wait_writable websocket_test.Epoll.find
first_accepted_example =
    first_accepted 7 8 false (writable ∷ []) [] [] (code 0) (λ e. omega arith) refl refl refl

deadline-exact_example :
    ((deadline 1000 5 250).1 < 1000000000)
    × ((deadline 1000 5 250).0 * 1000000000 + (deadline 1000 5 250).1
        ≡ 1000 * 1000000000 + 5 * 1000 + 250 * 1000000)
deadline-exact_example = deadline-exact 1000 5 250 (omega arith) (omega arith) (omega arith)

-- A section `a` with the item `k=v`.
abbrev written : Sections
written = (97 ∷ [], (107 ∷ [], 118 ∷ []) ∷ []) ∷ []

header-IsText : IsText (header_text (97 ∷ []))
unfolding c_string strip_cr trim_string trim_found find_first find_last
header-IsText = record { whole = refl; uncut = refl; tight = refl }

pair-IsItem : IsItem (107 ∷ []) (118 ∷ [])
unfolding c_string strip_cr trim_string trim_found find_first find_last starts_with
pair-IsItem = record {
  text = record { whole = refl; uncut = refl; tight = refl };
  no_bracket = refl;
  no_comment = refl;
  no_equals = refl;
  tight_key = refl;
  tight_value = refl;
}

init-write_file_example : init (write_file written) [] ≡ loaded written
init-write_file_example =
    init-write_file written (tt, tt) ((tt, tt), tt)
      ((λ e. ground (arith, e)), header-IsText, (pair-IsItem, tt), tt)
      (
        (
          ((λ e. omega (arith, e)), ((λ e. omega (arith, e)), ((λ e. omega (arith, e)), tt))),
          omega arith,
        ),
        (
          (
            ((λ e. omega (arith, e)), ((λ e. omega (arith, e)), ((λ e. omega (arith, e)), tt))),
            omega arith,
          ),
          tt,
        ),
      )

-- The item `c=d` of the section `b`, and the item `k=v` of the section `a`.
abbrev first_item : Item
first_item = record { section = 97 ∷ []; key = 107 ∷ []; value = 118 ∷ [] }

-- No items yet.
abbrev unwritten : Stored
unwritten = record { sections = []; file = [] }

-- The first WriteItem fails at its second write.
abbrev failed_store : List (Stream × Item)
failed_store = (fails_after 1 2, first_item) ∷ []

written_name-IsSection : IsSection (97 ∷ [])
written_name-IsSection = (
  (λ e. ground (arith, e)),
  header-IsText,
  (
    ((λ e. omega (arith, e)), ((λ e. omega (arith, e)), ((λ e. omega (arith, e)), tt))),
    omega arith,
  ),
)

first_item-IsStorableItem : IsStorableItem first_item
first_item-IsStorableItem = (
  written_name-IsSection,
  (
    pair-IsItem,
    (
      ((λ e. omega (arith, e)), ((λ e. omega (arith, e)), ((λ e. omega (arith, e)), tt))),
      omega arith,
    ),
  ),
)

store_item-durable_example :
    (restart (store writes_all first_item (stores failed_store unwritten)).0
      ≡ loaded (store writes_all first_item (stores failed_store unwritten)).0.sections)
    × (read_item
          (97 ∷ [])
          (107 ∷ [])
          []
          (store writes_all first_item (stores failed_store unwritten)).0.sections
        ≡ some (118 ∷ []))
    × (is_listed (97 ∷ []) (
          get_section_list []
            (store writes_all first_item (stores failed_store unwritten)).0.sections)
        ≡ true)
unfolding store_item write_file_to
store_item-durable_example =
    store_item-durable failed_store writes_all first_item unwritten [] [] (tt, tt)
      (first_item-IsStorableItem, tt) first_item-IsStorableItem tt refl
