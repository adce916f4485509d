-- ===== src/Log/Rotation.antt =====
-- `LogWrite` of common/writeRunInfo.cpp: which files it renames, and to what.
use websocket_test.Base.{
  ℕ, ◌+◌, ◌%◌, ◌<◌, ◌≡◌, ◌≢◌, refl, ap, ◌∙◌, arith, Bool, true, false, none, some, List, ◌∷◌, ◌++◌,
  ◌==◌, if◌then◌else◌, length, length-append, length-take, lookup, erase, lookup-assign,
  lookup-erase, same_bytes, same_bytes_iff, lt→ltb, Bool-cases, inl, inr,
}
use websocket_test.Log.{
  max_log_size, max_log_type, LogType, Files, Log, type_at, put_type, System, moved, rename,
  size_of, content_of, append_file, two_digits, generation, path_of, rotated, rotate, rotate_at,
  size_found, open_and_write, log_write,
}

-- A path that leaves room for the number of a generation.
abbrev pub IsShort : List ℕ → Type 0
IsShort path = length path < 1023

generation-longer :
    (path : List ℕ) (n : ℕ) → IsShort path → length path < length (generation path n)
unfolding generation
generation-longer path n h =
    omega (
      arith,
      length-take 1023 (path ++ (95 ∷ two_digits n)),
      length-append path (95 ∷ two_digits n),
    )

pub generation-other :
    (path : List ℕ) (n : ℕ) → IsShort path → same_bytes path (generation path n) ≡ false
generation-other path n h = elim (Bool-cases (same_bytes path (generation path n))) [
  | inl t ↦ absurd (
      omega (
        arith,
        ap length ((same_bytes_iff path (generation path n)).0 t),
        generation-longer path n h,
      ))
  | inr f ↦ f
]

-- The contents after a file that is there is moved to another path.
pub lookup-rename :
    (from to p : List ℕ) (content : List ℕ) (files : Files)
    → lookup from files ≡ some content
    → lookup p (rename true from to files) ≡ (
        if same_bytes to p
        then some content
        else if same_bytes from p
        then none
        else lookup p files)
unfolding rename moved
lookup-rename from to p content files e =
    ap (λ o. lookup p (moved from to o files)) e
    ∙ lookup-assign to p content (erase from files)
    ∙ ap (λ o. if same_bytes to p then some content else o) (lookup-erase from p files)

-- A write looks only at the flag, the counter and the suffix of its own type.
pub type_at-put_type :
    (t u : ℕ) (v : LogType) (l : Log)
    → t < max_log_type
    → u < max_log_type
    → type_at u (put_type t v l) ≡ (if u == t then v else type_at u l)
unfolding type_at put_type
type_at-put_type t u v l h k = ground arith

-- The types after a rotation: one counter has changed.
pub type_at-rotated :
    (s : System) (t u : ℕ) (l : Log)
    → t < max_log_type
    → u < max_log_type
    → type_at u (rotated s t l) ≡ (
        if u == t
        then record (type_at t l) { file_num = ((type_at t l).file_num + 1) % 10 }
        else type_at u l)
unfolding rotated type_at
type_at-rotated s t u l h k =
    type_at-put_type t u (record (type_at t l) { file_num = ((type_at t l).file_num + 1) % 10 }) l h
      k

pub log_write-on :
    (s : System) (t : ℕ) (text : List ℕ) (l : Log)
    → t < max_log_type
    → (type_at t l).log_off ≢ 0
    → log_write s t text l ≡ open_and_write s (path_of t l) text (rotate s t l)
unfolding log_write
log_write-on s t text l lt on = ground arith

-- A file that has grown too large is moved to the type's next generation, and a new one begun.
pub log_write-rotates :
    (s : System) (t : ℕ) (text content : List ℕ) (l : Log)
    → t < max_log_type
    → (type_at t l).log_off ≢ 0
    → lookup (path_of t l) l.files ≡ some content
    → max_log_size < length content
    → log_write s t text l ≡ open_and_write s (path_of t l) text (rotated s t l)
unfolding rotate rotate_at size_of size_found
log_write-rotates s t text content l lt on e big =
    log_write-on s t text l lt on
    ∙ ap (open_and_write s (path_of t l) text) (
        ap (λ o. rotate_at s t l (size_found o)) e
        ∙ ap (λ b. if b then rotated s t l else l) (lt→ltb max_log_size (length content) big))

same-sym : (xs ys : List ℕ) → same_bytes xs ys ≡ same_bytes ys xs
same-sym xs ys = ground (arith, same_bytes_iff xs ys, same_bytes_iff ys xs)

module _ (path gen text content : List ℕ) (files : Files) (other : same_bytes path gen ≡ false)
    (e : lookup path files ≡ some content) where
  -- After the rename there is no file at the path.
  pub gone : lookup path (rename true path gen files) ≡ none
  gone =
      lookup-rename path gen path content files e
      ∙ rw (same-sym gen path, other, (same_bytes_iff path path).1 refl) refl

  pub lookup-rotated :
      (p : List ℕ)
      → lookup p (append_file path text (rename true path gen files)) ≡ (
          if same_bytes path p
          then some text
          else if same_bytes gen p
          then some content
          else lookup p files)
  unfolding append_file content_of
  lookup-rotated p =
      lookup-assign path p (content_of (lookup path (rename true path gen files)) ++ text)
        (rename true path gen files)
      ∙ ap
          (λ o.
            if same_bytes path p
            then some (content_of o ++ text)
            else lookup p (rename true path gen files))
          gone
      ∙ ap (λ o. if same_bytes path p then some text else o)
          (lookup-rename path gen p content files e)
      ∙ chosen (same_bytes path p) (same_bytes gen p)
    where
      chosen :
          (a b : Bool)
          → (if a
              then some text
              else (if b then some content else if a then none else lookup p files))
            ≡ (if a then some text else if b then some content else lookup p files)
      chosen true b = refl
      chosen false b = refl

-- The paths and the types that a write leaves.
module _ (s : System) (t : ℕ) (text content : List ℕ) (l : Log) (re : s.renames ≡ true)
    (op : s.opens ≡ true) (lt : t < max_log_type) (on : (type_at t l).log_off ≢ 0)
    (short : IsShort (path_of t l)) (e : lookup (path_of t l) l.files ≡ some content)
    (big : max_log_size < length content) where
  abbrev pub next_generation : List ℕ
  next_generation = generation (path_of t l) (((type_at t l).file_num + 1) % 10)

  -- After the write of a type whose file had grown too large: the file holds the line, and the next
  -- generation what the file held.
  pub log_write-files :
      (p : List ℕ)
      → lookup p (log_write s t text l).files ≡ (
          if same_bytes (path_of t l) p
          then some text
          else if same_bytes next_generation p
          then some content
          else lookup p l.files)
  unfolding open_and_write rotated put_type
  log_write-files p =
      ap (λ m. lookup p m.files) (log_write-rotates s t text content l lt on e big)
      ∙ rw (op, re)
          (lookup-rotated (path_of t l) next_generation text content l.files
            (generation-other (path_of t l) (((type_at t l).file_num + 1) % 10) short) e p)
