-- ===== src/Log/Shape.antt =====
-- What the calls of common/writeRunInfo.cpp leave of a type of the log.
use websocket_test.Base.{
  ℕ, ◌≡◌, refl, ap₂, arith, Bool, true, false, Option, none, some, List, ◌++◌, ◌==◌, leb,
  if◌then◌else◌,
}
use websocket_test.Log.{
  max_log_type, Log, type_at, put_type, set_log_flag, System, path_of, rotated, rotate, rotate_at,
  size_of, open_and_write, log_write,
}

-- What a write leaves of each type: its name, its suffix and its flag.
abbrev pub SameShape : Log → Log → Type 0
SameShape l l' =
    (l'.file_name ≡ l.file_name)
    × ((u : ℕ)
        → ((type_at u l').suffix ≡ (type_at u l).suffix)
          × ((type_at u l').log_off ≡ (type_at u l).log_off))

rotate_at-SameShape :
    (s : System) (t : ℕ) (l : Log) (o : Option ℕ) → SameShape l (rotate_at s t l o)
unfolding rotate_at rotated put_type type_at
rotate_at-SameShape s t l none = (refl, λ u. (refl, refl))
rotate_at-SameShape s t l (some size) = (ground arith, λ u. (ground arith, ground arith))

SameShape-if :
    (l l' l'' : Log) (b : Bool)
    → SameShape l l'
    → SameShape l l''
    → SameShape l (if b then l' else l'')
SameShape-if l l' l'' true p q = p
SameShape-if l l' l'' false p q = q

open_and_write-SameShape :
    (s : System) (path text : List ℕ) (l l' : Log)
    → SameShape l l'
    → SameShape l (open_and_write s path text l')
unfolding open_and_write type_at
open_and_write-SameShape s path text l l' h = SameShape-if l _ _ s.opens h h

pub log_write-SameShape :
    (s : System) (t : ℕ) (text : List ℕ) (l : Log) → SameShape l (log_write s t text l)
unfolding log_write rotate
log_write-SameShape s t text l =
    let same : SameShape l l = (refl, λ u. (refl, refl)) in
    SameShape-if l _ _ (leb max_log_type t) same (
      SameShape-if l _ _ ((type_at t l).log_off == 0) same (
        open_and_write-SameShape s (path_of t l) text l (rotate s t l)
          (rotate_at-SameShape s t l (size_of (path_of t l) l.files))))

-- The paths of all types are the same.
abbrev pub SamePaths : Log → Log → Type 0
SamePaths l l' = (u : ℕ) → path_of u l' ≡ path_of u l

SameShape-SamePaths : (l l' : Log) → SameShape l l' → SamePaths l l'
unfolding path_of
SameShape-SamePaths l l' (name, same) u = ap₂ (λ a b. a ++ b) name (same u).0

pub log_write-SamePaths :
    (s : System) (t : ℕ) (text : List ℕ) (l : Log) → SamePaths l (log_write s t text l)
log_write-SamePaths s t text l = SameShape-SamePaths l _ (log_write-SameShape s t text l)

pub set_log_flag-SameShape :
    (o : Option ℕ) (flag : ℕ) (l : Log)
    → ((set_log_flag o flag l).file_name ≡ l.file_name)
      × ((u : ℕ) → (type_at u (set_log_flag o flag l)).suffix ≡ (type_at u l).suffix)
unfolding set_log_flag put_type type_at
set_log_flag-SameShape none flag l = (refl, λ u. refl)
set_log_flag-SameShape (some t) flag l = (ground arith, λ u. ground arith)
