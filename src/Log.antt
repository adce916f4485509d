-- ===== src/Log.antt =====
-- The run log of common/writeRunInfo.h and common/writeRunInfo.cpp: `CLogTypeArray` and `WriteRunInfo`. The
-- file system is a map from paths to contents. The date and the text that `vfprintf` makes are arguments.
pub mod Rotation
pub mod Shape
pub mod Shared
pub mod Sizes
pub mod Calls
pub mod Locked
pub mod Trace
pub mod Dump
pub mod Folders
use websocket_test.Base.{
  ℕ, zero, suc, ◌+◌, ◌/◌, ◌%◌, Bool, true, false, not, ◌&&◌, ◌||◌, Option, none, some, List, [],
  ◌∷◌, ◌++◌, ◌==◌, ltb, leb, if◌then◌else◌, length, take, get_or, lookup, assign, erase,
}

abbrev pub max_log_size : ℕ
max_log_size = 5000000

abbrev pub max_log_type : ℕ
max_log_type = 100

-- `WRITELOGTYPE`.
abbrev pub log_type : ℕ
log_type = 0

abbrev pub fatal_type : ℕ
fatal_type = 1

abbrev pub error_type : ℕ
error_type = 2

abbrev pub warn_type : ℕ
warn_type = 3

abbrev pub info_type : ℕ
info_type = 4

abbrev pub debug_type : ℕ
debug_type = 5

abbrev pub trace_type : ℕ
trace_type = 6

abbrev pub data_type : ℕ
data_type = 7

-- `TLogType`: off at 0, always on at 2.
pub record LogType : Type 0 where
  pub number : ℕ
  pub file_num : ℕ
  pub suffix : List ℕ
  pub log_off : ℕ

abbrev pub Files : Type 0
Files = List (List ℕ × List ℕ)

-- `m_sFileName`, `LOGTYPEARRAY` and the file system.
pub record Log : Type 0 where
  pub file_name : List ℕ
  pub types : ℕ → LogType
  pub files : Files

-- `operator[]`; a number that is too large stands for the first type.
unfoldable pub type_at : ℕ → Log → LogType
type_at t l = if leb max_log_type t then l.types 0 else l.types t

unfoldable pub put_type : ℕ → LogType → Log → Log
put_type t v l = record l { types = λ i. if i == t then v else l.types i }

-- `InsertLogType`.
unfoldable pub insert_log_type : LogType → Log → Log
insert_log_type v l =
    if leb v.number 7 || leb max_log_type v.number then l else put_type v.number v l

-- `SetLogFlag`; a negative type, which is refused, is none.
unfoldable pub set_log_flag : Option ℕ → ℕ → Log → Log
set_log_flag none flag l = l
set_log_flag (some t) flag l =
    if leb max_log_type t
    then l
    else if (type_at t l).log_off == 2
    then l
    else put_type t (record (type_at t l) { log_off = flag }) l

-- What the system says to one write: whether `rename` and `fopen` succeed.
pub record System : Type 0 where
  pub renames : Bool
  pub opens : Bool

-- `rename`, over a file that may be there.
unfoldable pub moved : List ℕ → List ℕ → Option (List ℕ) → Files → Files
moved from to none files = files
moved from to (some content) files = assign to content (erase from files)

unfoldable pub rename : Bool → List ℕ → List ℕ → Files → Files
rename false from to files = files
rename true from to files = moved from to (lookup from files) files

unfoldable pub size_found : Option (List ℕ) → Option ℕ
size_found none = none
size_found (some content) = some (length content)

-- The size that `stat` finds, if there is a file.
unfoldable pub size_of : List ℕ → Files → Option ℕ
size_of path files = size_found (lookup path files)

-- `fopen` with `a+`, and the writes.
unfoldable pub content_of : Option (List ℕ) → List ℕ
content_of none = []
content_of (some content) = content

unfoldable pub append_file : List ℕ → List ℕ → Files → Files
append_file path text files = assign path (content_of (lookup path files) ++ text) files

-- "stat/" and "day/stat_day_", under which the statistics and the day files are.
abbrev pub stat_folder : List ℕ
stat_folder = 115 ∷ 116 ∷ 97 ∷ 116 ∷ 47 ∷ []

abbrev pub day_folder : List ℕ
day_folder = 100 ∷ 97 ∷ 121 ∷ 47 ∷ 115 ∷ 116 ∷ 97 ∷ 116 ∷ 95 ∷ 100 ∷ 97 ∷ 121 ∷ 95 ∷ []

-- `%02d` of a number below 100, and the path of a generation, which `snprintf` cuts at 1023 bytes.
abbrev pub two_digits : ℕ → List ℕ
two_digits n = (48 + n / 10) ∷ ((48 + n % 10) ∷ [])

unfoldable pub generation : List ℕ → ℕ → List ℕ
generation path n = take 1023 (path ++ (95 ∷ two_digits n))

unfoldable pub path_of : ℕ → Log → List ℕ
path_of t l = l.file_name ++ (type_at t l).suffix

-- `nFileNum ++`, `% 10` and the rename.
unfoldable pub rotated : System → ℕ → Log → Log
rotated s t l =
    let n = ((type_at t l).file_num + 1) % 10 in
    let l' = put_type t (record (type_at t l) { file_num = n }) l in
    record l' { files = rename s.renames (path_of t l) (generation (path_of t l) n) l.files }

unfoldable pub rotate_at : System → ℕ → Log → Option ℕ → Log
rotate_at s t l none = l
rotate_at s t l (some size) = if ltb max_log_size size then rotated s t l else l

unfoldable pub rotate : System → ℕ → Log → Log
rotate s t l = rotate_at s t l (size_of (path_of t l) l.files)

-- `LogWrite`, with the line that it makes.
unfoldable pub open_and_write : System → List ℕ → List ℕ → Log → Log
open_and_write s path text l =
    if s.opens then record l { files = append_file path text l.files } else l

unfoldable pub log_write : System → ℕ → List ℕ → Log → Log
log_write s t text l =
    if leb max_log_type t
    then l
    else if (type_at t l).log_off == 0
    then l
    else open_and_write s (path_of t l) text (rotate s t l)

-- `CLogTypeArray::CLogTypeArray`, over static memory that is zero.
abbrev frame_suffix : List ℕ
frame_suffix = 46 ∷ 102 ∷ 114 ∷ 97 ∷ 109 ∷ 101 ∷ []

abbrev error_suffix : List ℕ
error_suffix = 46 ∷ 101 ∷ 114 ∷ 114 ∷ 111 ∷ 114 ∷ []

abbrev warn_suffix : List ℕ
warn_suffix = 46 ∷ 119 ∷ 97 ∷ 114 ∷ 110 ∷ []

abbrev trace_suffix : List ℕ
trace_suffix = 46 ∷ 116 ∷ 114 ∷ 97 ∷ 99 ∷ 101 ∷ []

abbrev data_suffix : List ℕ
data_suffix = 46 ∷ 100 ∷ 97 ∷ 116 ∷ 97 ∷ []

abbrev new_type : ℕ → List ℕ → ℕ → LogType
new_type n suffix off = record { number = n; file_num = 0; suffix = suffix; log_off = off }

abbrev pub first_types : List LogType
first_types =
    new_type log_type frame_suffix 2
    ∷ new_type fatal_type error_suffix 1
    ∷ new_type error_type error_suffix 1
    ∷ new_type warn_type warn_suffix 1
    ∷ new_type info_type trace_suffix 0
    ∷ new_type debug_type trace_suffix 0
    ∷ new_type trace_type trace_suffix 0
    ∷ new_type data_type data_suffix 1
    ∷ []

unfoldable pub new_types : ℕ → LogType
new_types i = get_or first_types i (new_type 0 [] 0)

-- `Init`: a name without a slash goes under `logs/`.
unfoldable pub has_slash : List ℕ → Bool
has_slash [] = false
has_slash (c ∷ s) = if c == 47 then true else has_slash s

unfoldable pub init : List ℕ → Log → Log
init name l = record l {
  file_name = if has_slash name then name else 108 ∷ 111 ∷ 103 ∷ 115 ∷ 47 ∷ name;
}

-- One line of the log, and one with data behind it.
unfoldable pub log_line : List ℕ → List ℕ → List ℕ
log_line date text = date ++ (58 ∷ (32 ∷ (text ++ (10 ∷ []))))

unfoldable pub data_line : List ℕ → List ℕ → List ℕ → List ℕ
data_line date text bytes = log_line date text ++ (bytes ++ (10 ∷ []))

-- `LogWriteData`.
unfoldable pub log_write_data : System → ℕ → List ℕ → List ℕ → List ℕ → Log → Log
log_write_data s t date text bytes l =
    if leb max_log_type t
    then l
    else if (type_at t l).log_off == 0
    then l
    else open_and_write s (path_of t l) (data_line date text bytes) (rotate s t l)

-- `WriteTrace`, and `WRITE_COMMON`, whose flag is looked at in front of the call.
unfoldable pub write_if_on : System → ℕ → List ℕ → Log → Log
write_if_on s t line l = if (type_at t l).log_off == 0 then l else log_write s t line l
