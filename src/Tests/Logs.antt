-- ===== src/Tests/Logs.antt =====
-- The theorems on the run log, at small inputs.
use websocket_test.Base.{
  ℕ, ◌+◌, ◌%◌, ◌≤◌, ◌≡◌, refl, arith, true, false, some, List, [], ◌∷◌, length, All, lookup,
  same_bytes,
}
use websocket_test.Tests.{zeros, length-zeros}
use websocket_test.Log.{
  LogType, fatal_type, error_type, trace_type, Files, Log, System, type_at, new_types, generation,
  path_of, log_write,
}
use websocket_test.Log.Trace.{dump}
use websocket_test.Log.Dump.{undump, joined, undump-dump}
use websocket_test.Log.Calls.{writes, sets, inserts}
use websocket_test.Log.Locked.{
  Moment, Op, by_day, private_by_hour, stats, days, enters, traces, calls_log, acts,
}
use websocket_test.Log.Locked.Refine.{Plain, plain_acts, free, acts-plain_acts}
use websocket_test.Log.Shared.{log_write-overwrites}

undump-dump_example :
    (undump (joined (dump (0 ∷ 171 ∷ 255 ∷ []))) ≡ 0 ∷ 171 ∷ 255 ∷ [])
    × All (λ row. length row ≤ 48) (dump (0 ∷ 171 ∷ 255 ∷ []))
undump-dump_example =
    undump-dump (0 ∷ 171 ∷ 255 ∷ []) (omega arith, (omega arith, (omega arith, tt)))

-- A log with this file of errors.
abbrev log_of : Files → Log
log_of files = record { file_name = 97 ∷ []; types = new_types; files = files }

abbrev willing : System
willing = record { renames = true; opens = true }

abbrev IsShortSuffix : LogType → Type 0
IsShortSuffix v = length v.suffix ≤ 6

-- A file that has grown too large.
grown : List ℕ
grown = zeros 5000001

length-grown : length grown ≡ 5000001
unfolding grown
length-grown = length-zeros 5000001

abbrev file_of : List ℕ → Files
file_of content = (path_of error_type (log_of []), content) ∷ []

log_write-overwrites_example :
    (lookup
        (generation
          (path_of fatal_type (log_of (file_of grown)))
          (((type_at fatal_type (log_of (file_of grown))).file_num + 1) % 10))
        (log_write willing fatal_type (49 ∷ []) (log_of (file_of grown))).files
      ≡ some grown)
    × (lookup
          (generation
            (path_of fatal_type (log_of (file_of grown)))
            (((type_at fatal_type (log_of (file_of grown))).file_num + 1) % 10))
          (log_write willing error_type
            (50 ∷ [])
            (record (log_write willing fatal_type (49 ∷ []) (log_of (file_of grown))) {
              files = file_of (49 ∷ grown);
            })).files
        ≡ some (49 ∷ grown))
unfolding path_of type_at new_types lookup same_bytes
log_write-overwrites_example =
    log_write-overwrites willing fatal_type error_type (49 ∷ []) (50 ∷ []) grown (49 ∷ grown)
      (log_of (file_of grown)) (file_of (49 ∷ grown)) refl refl (omega arith) (omega arith)
      (λ e. omega (arith, e)) (λ e. omega (arith, e)) (λ e. omega (arith, e)) refl refl
      (omega arith) refl (omega (arith, length-grown)) refl (omega (arith, length-grown))

abbrev noon : Moment
noon = record {
  day = 49 ∷ [];
  hour = 50 ∷ [];
  clock = 51 ∷ [];
  date = 52 ∷ [];
  short_day = 53 ∷ [];
}

-- Statistics whose file cannot be opened, a line of the log, a day's line and more statistics.
abbrev some_ops : List Op
some_ops =
    stats by_day false willing noon (97 ∷ []) (98 ∷ [])
    ∷ enters traces willing (98 ∷ [])
    ∷ calls_log (writes willing error_type (99 ∷ []))
    ∷ days true noon (100 ∷ []) (101 ∷ [])
    ∷ stats (private_by_hour (102 ∷ [])) true willing noon (103 ∷ []) []
    ∷ []

abbrev first_log : Plain
first_log = record { log = log_of []; stat_file = [] }

acts-plain_acts_example :
    acts some_ops (free first_log) ≡ some (free (plain_acts some_ops first_log))
acts-plain_acts_example = acts-plain_acts some_ops first_log

abbrev kept_ops : List Op
kept_ops =
    stats by_day false willing noon (97 ∷ []) (98 ∷ [])
    ∷ calls_log (sets (some trace_type) 1)
    ∷ enters traces willing (98 ∷ [])
    ∷ calls_log (inserts (record { number = 50; file_num = 0; suffix = 46 ∷ []; log_off = 1 }))
    ∷ days true noon (100 ∷ []) (101 ∷ [])
    ∷ stats (private_by_hour (102 ∷ [])) true willing noon (103 ∷ []) []
    ∷ []
