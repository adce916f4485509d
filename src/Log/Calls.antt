-- ===== src/Log/Calls.antt =====
-- Any calls of `WriteRunInfo` (common/writeRunInfo.cpp): how large the files of the log become.
use websocket_test.Base.{
  ℕ, ◌+◌, ◌≤◌, ◌<◌, ◌≡◌, refl, ap, subst, arith, Bool, true, false, Option, List, leb, ◌||◌,
  if◌then◌else◌, length, length-append,
}
use websocket_test.Log.{
  max_log_size, max_log_type, LogType, Log, type_at, put_type, insert_log_type, set_log_flag,
  System, path_of, init, log_write, log_write_data, data_line,
}
use websocket_test.Log.Rotation.{IsShort}
use websocket_test.Log.Shape.{log_write-SameShape, set_log_flag-SameShape}
use websocket_test.Log.Sizes.{IsWithin, IsWithin-if, log_write-IsWithin, set_log_flag-IsWithin}

-- A write of a line, or of a line with data behind it, a change of a flag, a new type, or a new name of the files.
pub data Call : Type 0 where
  writes : System → ℕ → List ℕ → Call
  writes_data : System → ℕ → List ℕ → List ℕ → List ℕ → Call
  sets : Option ℕ → ℕ → Call
  inserts : LogType → Call
  inits : List ℕ → Call

unfoldable pub call : Call → Log → Log
call (writes s t line) l = log_write s t line l
call (writes_data s t date text bytes) l = log_write_data s t date text bytes l
call (sets t flag) l = set_log_flag t flag l
call (inserts v) l = insert_log_type v l
call (inits name) l = init name l

-- At most `k` bytes at once, at a rename that succeeds; a suffix that fits its array; a name that is not too long.
abbrev pub IsCall : ℕ → Call → Type 0
IsCall k (writes s t line) = (s.renames ≡ true) × (length line ≤ k)
IsCall k (writes_data s t date text bytes) =
    (s.renames ≡ true) × (length (data_line date text bytes) ≤ k)
IsCall k (sets t flag) = Unit {0}
IsCall k (inserts v) = length v.suffix < 256
IsCall k (inits name) = length name < 763

abbrev pub IsNamed : Log → Type 0
IsNamed l = (length l.file_name < 768) × ((t : ℕ) → length (type_at t l).suffix < 256)

pub IsNamed-IsShort : (l : Log) (t : ℕ) → IsNamed l → IsShort (path_of t l)
unfolding path_of
IsNamed-IsShort l t (name, suffix) =
    omega (arith, length-append l.file_name (type_at t l).suffix, name, suffix t)

pub log_write_data_lem :
    (s : System) (t : ℕ) (date text bytes : List ℕ) (l : Log)
    → log_write s t (data_line date text bytes) l ≡ log_write_data s t date text bytes l
unfolding log_write log_write_data
log_write_data_lem s t date text bytes l = refl

pub log_write-IsNamed :
    (s : System) (t : ℕ) (text : List ℕ) (l : Log) → IsNamed l → IsNamed (log_write s t text l)
log_write-IsNamed s t text l (name, suffix) =
    let (e, same) = log_write-SameShape s t text l in
    (omega (arith, ap length e, name), λ u. omega (arith, ap length (same u).0, suffix u))

put_type-IsNamed :
    (n : ℕ) (v : LogType) (l : Log) → length v.suffix < 256 → IsNamed l → IsNamed (put_type n v l)
unfolding put_type type_at
put_type-IsNamed n v l h (name, suffix) = (name, λ t. ground (arith, h, suffix 0, suffix t))

pub IsNamed-if : (b : Bool) (l l' : Log) → IsNamed l → IsNamed l' → IsNamed (if b then l else l')
IsNamed-if true l l' n n' = n
IsNamed-if false l l' n n' = n'

pub call-IsNamed : (k : ℕ) (c : Call) (l : Log) → IsCall k c → IsNamed l → IsNamed (call c l)
unfolding call insert_log_type init type_at
call-IsNamed k (writes s t line) l h n = log_write-IsNamed s t line l n
call-IsNamed k (writes_data s t date text bytes) l h n =
    subst IsNamed (log_write_data_lem s t date text bytes l)
      (log_write-IsNamed s t (data_line date text bytes) l n)
call-IsNamed k (sets t flag) l h (name, suffix) =
    let (e, same) = set_log_flag-SameShape t flag l in
    (omega (arith, ap length e, name), λ u. omega (arith, ap length (same u), suffix u))
call-IsNamed k (inserts v) l h n =
    IsNamed-if (leb v.number 7 || leb max_log_type v.number) l _ n
      (put_type-IsNamed v.number v l h n)
call-IsNamed k (inits name) l h (old, suffix) = (ground arith, suffix)

pub call-IsWithin :
    (k : ℕ) (c : Call) (l : Log)
    → IsCall k c
    → IsNamed l
    → IsWithin (max_log_size + k) l.files
    → IsWithin (max_log_size + k) (call c l).files
unfolding call insert_log_type put_type init
call-IsWithin k (writes s t line) l (re, fits) n w =
    log_write-IsWithin k s t line l re (IsNamed-IsShort l t n) fits w
call-IsWithin k (writes_data s t date text bytes) l (re, fits) n w =
    subst (λ m. IsWithin (max_log_size + k) m.files) (log_write_data_lem s t date text bytes l)
      (log_write-IsWithin k s t (data_line date text bytes) l re (IsNamed-IsShort l t n) fits w)
call-IsWithin k (sets t flag) l h n w = set_log_flag-IsWithin (max_log_size + k) t flag l w
call-IsWithin k (inserts v) l h n w =
    IsWithin-if (max_log_size + k) (leb v.number 7 || leb max_log_type v.number) l _ w w
call-IsWithin k (inits name) l h n w = w
