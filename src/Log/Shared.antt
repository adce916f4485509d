-- ===== src/Log/Shared.antt =====
-- `LogWrite` of common/writeRunInfo.cpp, for two types of the log that write to one file.
use websocket_test.Base.{
  ℕ, ◌+◌, ◌%◌, ◌<◌, ◌≡◌, ◌≢◌, refl, sym, ap, ap₂, ◌∙◌, subst, arith, Bool, true, false, some, List,
  if◌then◌else◌, length, lookup, same_bytes_iff,
}
use websocket_test.Log.{
  max_log_size, max_log_type, Files, Log, type_at, System, generation, path_of, rotated,
  open_and_write, log_write,
}
use websocket_test.Log.Rotation.{
  IsShort, generation-other, type_at-rotated, log_write-rotates, log_write-files,
}
use websocket_test.Log.Shape.{log_write-SamePaths}

-- A write of one type that rotates its file does not change another type.
type_at-log_write :
    (s : System) (t u : ℕ) (text content : List ℕ) (l : Log)
    → t < max_log_type
    → u < max_log_type
    → t ≢ u
    → (type_at t l).log_off ≢ 0
    → lookup (path_of t l) l.files ≡ some content
    → max_log_size < length content
    → type_at u (log_write s t text l) ≡ type_at u l
unfolding open_and_write type_at
type_at-log_write s t u text content l lt lu ne on e big =
    ap (type_at u) (log_write-rotates s t text content l lt on e big)
    ∙ written s.opens _
    ∙ type_at-rotated s t u l lt lu
    ∙ ground (arith, ne)
  where
    written :
        (b : Bool) (files : Files)
        → type_at u (if b then record (rotated s t l) { files = files } else rotated s t l)
          ≡ type_at u (rotated s t l)
    written true files = refl
    written false files = refl

generation-made :
    (s : System) (t : ℕ) (text content : List ℕ) (l : Log)
    → s.renames ≡ true
    → s.opens ≡ true
    → t < max_log_type
    → (type_at t l).log_off ≢ 0
    → IsShort (path_of t l)
    → lookup (path_of t l) l.files ≡ some content
    → max_log_size < length content
    → lookup
        (generation (path_of t l) (((type_at t l).file_num + 1) % 10))
        (log_write s t text l).files
      ≡ some content
generation-made s t text content l re op lt on short e big =
    let n = ((type_at t l).file_num + 1) % 10 in
    let gen = generation (path_of t l) n in
    log_write-files s t text content l re op lt on short e big gen
    ∙ rw (generation-other (path_of t l) n short, (same_bytes_iff gen gen).1 refl) refl

module _ (s : System) (t u : ℕ) (first second a b : List ℕ) (l : Log) (files : Files)
    (re : s.renames ≡ true) (op : s.opens ≡ true) (lt : t < max_log_type) (lu : u < max_log_type)
    (ne : t ≢ u) (on : (type_at t l).log_off ≢ 0) (on' : (type_at u l).log_off ≢ 0)
    (same : path_of u l ≡ path_of t l) (num : (type_at u l).file_num ≡ (type_at t l).file_num)
    (short : IsShort (path_of t l)) (e : lookup (path_of t l) l.files ≡ some a)
    (big : max_log_size < length a) (grown : lookup (path_of t l) files ≡ some b)
    (big' : max_log_size < length b) where
  -- The log after the first write, when its file has grown again.
  abbrev then_grown : Log
  then_grown = record (log_write s t first l) { files = files }

  type-kept : type_at u then_grown ≡ type_at u l
  unfolding type_at
  type-kept = type_at-log_write s t u first a l lt lu ne on e big

  path-kept : path_of u then_grown ≡ path_of t l
  unfolding path_of type_at
  path-kept = log_write-SamePaths s t first l u ∙ same

  generation-kept :
      generation (path_of u then_grown) (((type_at u then_grown).file_num + 1) % 10)
      ≡ generation (path_of t l) (((type_at t l).file_num + 1) % 10)
  generation-kept =
      ap₂ (λ p n. generation p ((n + 1) % 10)) path-kept (ap (λ v. v.file_num) type-kept ∙ num)

  -- Of two types of the log that are on, have one path and equal generation counters, the first
  -- to write after their file has grown over 5000000 bytes moves it to the next generation, and
  -- when the file has grown over 5000000 bytes again, a write of the other type moves it to that
  -- same generation, over the first one, where renames and fopen succeed and the path has fewer
  -- than 1023 bytes.
  pub log_write-overwrites :
      (lookup
          (generation (path_of t l) (((type_at t l).file_num + 1) % 10))
          (log_write s t first l).files
        ≡ some a)
      × (lookup
            (generation (path_of t l) (((type_at t l).file_num + 1) % 10))
            (log_write s u second (record (log_write s t first l) { files = files })).files
          ≡ some b)
  log_write-overwrites = (
    generation-made s t first a l re op lt on short e big,
    subst (λ p. lookup p (log_write s u second then_grown).files ≡ some b) generation-kept
        (generation-made s u second b then_grown re op lu
          (subst (λ v. v.log_off ≢ 0) (sym type-kept) on') (subst IsShort (sym path-kept) short)
          (ap (λ p. lookup p files) path-kept ∙ grown) big'),
  )
