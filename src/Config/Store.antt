-- ===== src/Config/Store.antt =====
-- `Magic_Config` of common/Config.cpp with its file: `WriteItem`, `WriteFile` and what the stream does, and a new
-- object on the same file.
pub mod Written
pub mod Durable
use websocket_test.Base.{
  ℕ, zero, suc, Bool, true, false, Option, none, some, List, [], ◌∷◌, ◌++◌, take, Status, failed,
  code,
}
use websocket_test.Config.{ConfigType, Sections, write_item, item_lines}
use websocket_test.Config.Load.{Loaded, init}

-- `m_section`, and the bytes of the file.
pub record Stored : Type 0 where
  pub sections : Sections
  pub file : List ℕ

-- The stream: it does not open; or it opens, and nothing fails; or the write behind a number of others fails, or
-- what is buffered cannot be written at the `close`, and of what was written a number of bytes has reached the file.
pub data Stream : Type 0 where
  no_stream writes_all : Stream
  fails_after : ℕ → ℕ → Stream
  fails_at_close : ℕ → Stream

-- The writes of `WriteFile`: one for each section's name and each item.
unfoldable pub item_writes : ConfigType → List (List ℕ)
item_writes [] = []
item_writes ((key, value) ∷ rest) = (key ++ (61 ∷ value ++ (10 ∷ []))) ∷ item_writes rest

unfoldable pub file_writes : Sections → List (List ℕ)
file_writes [] = []
file_writes ((section, config) ∷ rest) =
    (91 ∷ section ++ (93 ∷ (10 ∷ []))) ∷ (item_writes config ++ file_writes rest)

-- What has been written when the loop ends, and whether a write has failed.
unfoldable pub written : ℕ → List (List ℕ) → List ℕ × Bool
written n [] = ([], false)
written zero (w ∷ ws) = (w, true)
written (suc n) (w ∷ ws) = let (bytes, fails) = written n ws in (w ++ bytes, fails)

unfoldable pub all_written : List (List ℕ) → List ℕ
all_written [] = []
all_written (w ∷ ws) = w ++ all_written ws

-- Behind the loop, or the write that has failed.
unfoldable pub closed : ℕ → Stored → List ℕ × Bool → Stored × Status
closed kept m (bytes, true) = (record m { file = take kept bytes }, failed)
closed kept m (bytes, false) = (record m { file = bytes }, code 0)

-- `WriteFile`: a file that opens is empty at first, and the outcome of the `close` is not looked at.
unfoldable pub write_file_to : Stream → Stored → Stored × Status
write_file_to no_stream m = (m, failed)
write_file_to writes_all m = (record m { file = all_written (file_writes m.sections) }, code 0)
write_file_to (fails_at_close kept) m =
    (record m { file = take kept (all_written (file_writes m.sections)) }, code 0)
write_file_to (fails_after n kept) m = closed kept m (written n (file_writes m.sections))

-- `WriteItem`.
unfoldable pub store_item : Stream → List ℕ → List ℕ → List ℕ → Stored → Stored × Status
store_item stream section key value m =
    write_file_to stream (record m { sections = write_item section key value m.sections })

-- `Init` of a new object on the file.
unfoldable pub restart : Stored → Loaded
restart m = init m.file []
