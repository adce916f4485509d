-- ===== src/Config/Store/Written.antt =====
-- What `WriteFile` of common/Config.cpp has written when it returns 0.
use websocket_test.Base.{
  ℕ, zero, suc, ◌≡◌, refl, sym, ap, ap₂, ◌∙◌, Bool, true, false, List, [], ◌∷◌, ◌++◌, append_assoc,
  code,
}
use websocket_test.Config.{ConfigType, Sections, item_lines, write_file}
use websocket_test.Config.Store.{
  Stored, Stream, no_stream, writes_all, fails_after, fails_at_close, item_writes, file_writes,
  written, all_written, closed, write_file_to,
}

all_written-append :
    (xs ys : List (List ℕ)) → all_written (xs ++ ys) ≡ all_written xs ++ all_written ys
unfolding all_written
all_written-append [] ys = refl
all_written-append (x ∷ xs) ys =
    ap (λ r. x ++ r) (all_written-append xs ys)
    ∙ sym (append_assoc x (all_written xs) (all_written ys))

all_written-item_writes :
    (config : ConfigType) → all_written (item_writes config) ≡ item_lines config
unfolding all_written item_writes item_lines
all_written-item_writes [] = refl
all_written-item_writes ((key, value) ∷ config) =
    append_assoc key (61 ∷ value ++ (10 ∷ [])) (all_written (item_writes config))
    ∙ ap (λ r. key ++ (61 ∷ r))
        (append_assoc value (10 ∷ []) (all_written (item_writes config))
          ∙ ap (λ r. value ++ (10 ∷ r)) (all_written-item_writes config))

all_written-file_writes : (s : Sections) → all_written (file_writes s) ≡ write_file s
unfolding all_written file_writes write_file
all_written-file_writes [] = refl
all_written-file_writes ((section, config) ∷ s) =
    ap (λ r. (91 ∷ section ++ (93 ∷ (10 ∷ []))) ++ r)
      (all_written-append (item_writes config) (file_writes s)
        ∙ ap₂ ◌++◌ (all_written-item_writes config) (all_written-file_writes s))

written-whole :
    (n : ℕ) (ws : List (List ℕ)) → (written n ws).1 ≡ false → (written n ws).0 ≡ all_written ws
unfolding written all_written
written-whole n [] e = refl
written-whole zero (w ∷ ws) e = cc
written-whole (suc n) (w ∷ ws) e = ap (λ r. w ++ r) (written-whole n ws e)

closed-whole :
    (kept : ℕ) (m : Stored) (r : List ℕ × Bool) (bytes : List ℕ)
    → (r.1 ≡ false → r.0 ≡ bytes)
    → (closed kept m r).1 ≡ code 0
    → (closed kept m r).0 ≡ record m { file = bytes }
unfolding closed
closed-whole kept m (got, true) bytes h e = cc
closed-whole kept m (got, false) bytes h e = ap (λ g. record m { file = g }) (h refl)

-- A stream that does not fail when it is closed.
abbrev pub Closes : Stream → Type 0
Closes no_stream = Unit {0}
Closes writes_all = Unit {0}
Closes (fails_after n kept) = Unit {0}
Closes (fails_at_close kept) = ⊥

-- WriteFile that returns 0 has written the whole file, unless the close has failed.
pub write_file_to-whole :
    (stream : Stream) (m : Stored)
    → Closes stream
    → (write_file_to stream m).1 ≡ code 0
    → (write_file_to stream m).0 ≡ record m { file = write_file m.sections }
unfolding write_file_to
write_file_to-whole no_stream m c e = cc
write_file_to-whole writes_all m c e =
    ap (λ f. record m { file = f }) (all_written-file_writes m.sections)
write_file_to-whole (fails_at_close kept) m c e = absurd c
write_file_to-whole (fails_after n kept) m c e =
    let ws = file_writes m.sections in
    closed-whole kept m (written n ws) (write_file m.sections)
      (λ f. written-whole n ws f ∙ all_written-file_writes m.sections) e
