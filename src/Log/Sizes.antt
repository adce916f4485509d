-- ===== src/Log/Sizes.antt =====
-- How large the files of the log become, over the calls of common/writeRunInfo.cpp.
use websocket_test.Base.{
  ℕ, ◌+◌, ◌%◌, ◌≤◌, ◌≡◌, refl, sym, subst, ap, ◌∙◌, arith, Bool, true, false, Option, none, some,
  List, [], ◌++◌, ◌==◌, ltb, leb, if◌then◌else◌, length, length-append, lookup, lookup-assign,
  same_bytes, same_bytes_iff, ltb→le,
}
use websocket_test.Log.{
  max_log_size, max_log_type, Files, Log, type_at, put_type, set_log_flag, System, content_of,
  append_file, generation, path_of, rotated, rotate, rotate_at, size_of, size_found, rename,
  open_and_write, log_write,
}
use websocket_test.Log.Folders.{in_folder, generation-in_folder}
use websocket_test.Log.Rotation.{IsShort, generation-other, lookup-rename, gone}

-- No file but the statistics and the day files is longer than `n`.
abbrev pub IsWithin : ℕ → Files → Type 0
IsWithin n files =
    (path : List ℕ) → in_folder path ≡ false → length (content_of (lookup path files)) ≤ n

abbrev Fits : ℕ → Option (List ℕ) → Type 0
Fits n o = length (content_of o) ≤ n

Fits-if :
    (n : ℕ) (b : Bool) (x y : Option (List ℕ))
    → (b ≡ true → Fits n x)
    → (b ≡ false → Fits n y)
    → Fits n (if b then x else y)
Fits-if n true x y p q = p refl
Fits-if n false x y p q = q refl

IsWithin-append :
    (n : ℕ) (path text : List ℕ) (files : Files)
    → length (content_of (lookup path files)) + length text ≤ n
    → IsWithin n files
    → IsWithin n (append_file path text files)
unfolding append_file content_of
IsWithin-append n path text files h w p out =
    let old = content_of (lookup path files) in
    subst (Fits n) (sym (lookup-assign path p (old ++ text) files)) (
      Fits-if n (same_bytes path p) (some (old ++ text)) (lookup p files)
        (λ s. omega (arith, length-append old text)) (λ s. w p out))

-- What is appended to the statistics and the day files does not count.
pub IsWithin-append_in_folder :
    (n : ℕ) (path text : List ℕ) (files : Files)
    → in_folder path ≡ true
    → IsWithin n files
    → IsWithin n (append_file path text files)
unfolding append_file content_of
IsWithin-append_in_folder n path text files h w p out =
    let old = content_of (lookup path files) in
    subst (Fits n) (sym (lookup-assign path p (old ++ text) files)) (
      Fits-if n (same_bytes path p) (some (old ++ text)) (lookup p files)
        (λ s. ground (arith, ap in_folder ((same_bytes_iff path p).0 s))) (λ s. w p out))

IsWithin-rename :
    (n : ℕ) (from to content : List ℕ) (files : Files)
    → lookup from files ≡ some content
    → (in_folder to ≡ false → in_folder from ≡ false)
    → IsWithin n files
    → IsWithin n (rename true from to files)
unfolding content_of
IsWithin-rename n from to content files e stays w p out =
    let moved_away = if same_bytes from p then none else lookup p files in
    subst (Fits n) (sym (lookup-rename from to p content files e)) (
      Fits-if n (same_bytes to p) (some content) moved_away
        (λ s. subst (Fits n) e (w from (stays (ap in_folder ((same_bytes_iff to p).0 s) ∙ out))))
        (λ s.
          Fits-if n (same_bytes from p) none (lookup p files) (λ s'. omega arith) (λ s'. w p out)))

-- After `rotate`, the file that is written next is not too large.
module _ (n : ℕ) (s : System) (t : ℕ) (l : Log) (re : s.renames ≡ true)
    (short : IsShort (path_of t l)) (w : IsWithin n l.files) where
  abbrev HasRoom : Log → Type 0
  HasRoom l' =
      IsWithin n l'.files × (length (content_of (lookup (path_of t l) l'.files)) ≤ max_log_size)

  rotated-HasRoom :
      (content : List ℕ) → lookup (path_of t l) l.files ≡ some content → HasRoom (rotated s t l)
  unfolding rotated put_type content_of
  rotated-HasRoom content e =
      let k = ((type_at t l).file_num + 1) % 10 in
      let path = path_of t l in
      rw re (
        IsWithin-rename n path (generation path k) content l.files e (generation-in_folder path k)
            w,
        rw (gone path (generation path k) [] content l.files (generation-other path k short) e)
            (omega arith),
      )

  rotated_if-HasRoom :
      (content : List ℕ)
      → lookup (path_of t l) l.files ≡ some content
      → (b : Bool) → ltb max_log_size (length content) ≡ b
      → HasRoom (if b then rotated s t l else l)
  unfolding content_of
  rotated_if-HasRoom content e true b = rotated-HasRoom content e
  rotated_if-HasRoom content e false b = (w, rw e (ltb→le max_log_size (length content) b))

  rotate_at-HasRoom :
      (o : Option (List ℕ))
      → lookup (path_of t l) l.files ≡ o
      → HasRoom (rotate_at s t l (size_found o))
  unfolding size_found rotate_at content_of
  rotate_at-HasRoom none e = (w, rw e (omega arith))
  rotate_at-HasRoom (some content) e =
      rotated_if-HasRoom content e (ltb max_log_size (length content)) refl

pub IsWithin-if :
    (n : ℕ) (b : Bool) (l l' : Log)
    → IsWithin n l.files
    → IsWithin n l'.files
    → IsWithin n (if b then l else l').files
IsWithin-if n true l l' p q = p
IsWithin-if n false l l' p q = q

pub log_write-IsWithin :
    (k : ℕ) (s : System) (t : ℕ) (text : List ℕ) (l : Log)
    → s.renames ≡ true
    → IsShort (path_of t l)
    → length text ≤ k
    → IsWithin (max_log_size + k) l.files
    → IsWithin (max_log_size + k) (log_write s t text l).files
unfolding log_write rotate size_of open_and_write
log_write-IsWithin k s t text l re short fits w =
    let (kept, room) =
      rotate_at-HasRoom (max_log_size + k) s t l re short w (lookup (path_of t l) l.files) refl in
    let l' = rotate s t l in
    IsWithin-if (max_log_size + k) (leb max_log_type t) l _ w (
      IsWithin-if (max_log_size + k) ((type_at t l).log_off == 0) l _ w (
        IsWithin-if (max_log_size + k) s.opens _ l'
          (IsWithin-append (max_log_size + k) (path_of t l) text l'.files (omega (arith, room))
            kept)
          kept))

pub set_log_flag-IsWithin :
    (n : ℕ) (o : Option ℕ) (flag : ℕ) (l : Log)
    → IsWithin n l.files
    → IsWithin n (set_log_flag o flag l).files
unfolding set_log_flag put_type
set_log_flag-IsWithin n none flag l w = w
set_log_flag-IsWithin n (some t) flag l w =
    IsWithin-if n (leb max_log_type t) l _ w (IsWithin-if n ((type_at t l).log_off == 2) l _ w w)
