-- ===== src/Log/Locked.antt =====
-- `WriteRunInfo` of common/writeRunInfo.cpp with its mutex, `m_logMutex`, which is not recursive, and the
-- statistics and day files. The texts that `strftime`-like formats make of the time are arguments.
pub mod Refine
pub mod Within
use websocket_test.Base.{
  ℕ, Bool, true, false, Option, none, some, List, [], ◌∷◌, ◌++◌, ◌==◌, leb, if◌then◌else◌, take,
}
use websocket_test.Log.{
  Log, System, max_log_type, log_type, info_type, error_type, trace_type, data_type, type_at,
  path_of, rotate, append_file, log_line, data_line, init, insert_log_type, set_log_flag,
  stat_folder, day_folder,
}
use websocket_test.Log.Calls.{Call, writes, writes_data, sets, inserts, inits}

-- The log, `m_sStatFile`, and whether the mutex is held.
pub record Guarded : Type 0 where
  pub log : Log
  pub stat_file : List ℕ
  pub held : Bool

-- `none` where the thread waits for itself, or lets go of what it does not hold.
abbrev pub Act : Type 0
Act = Guarded → Option Guarded

infixl 5 ◌>>◌
abbrev pub ◌>>◌ : Act → Act → Act
◌>>◌ a b g = elim (a g) [ none ↦ none | some g' ↦ b g' ]

unfoldable pub lock : Act
lock g = if g.held then none else some (record g { held = true })

unfoldable pub unlock : Act
unlock g = if g.held then some (record g { held = false }) else none

abbrev pub done : Act
done g = some g

abbrev pub on_log : (Log → Log) → Act
on_log f g = some (record g { log = f g.log })

abbrev pub append_to : List ℕ → List ℕ → Act
append_to path text = on_log λ l. record l { files = append_file path text l.files }

-- From the `fopen` on, where a failure returns early.
unfoldable pub write_and_close : Bool → List ℕ → List ℕ → Act
write_and_close false path text = do unlock
write_and_close true path text = do append_to path text; unlock

-- `LogWrite`, and `LogWriteData`, which differ in the text.
unfoldable pub locked_write : System → ℕ → List ℕ → Act
locked_write s t text g =
    if leb max_log_type t
    then done g
    else if (type_at t g.log).log_off == 0
    then done g
    else (do lock; on_log (rotate s t); write_and_close s.opens (path_of t g.log) text) g

-- The calls that hand a line to `LogWrite`, or to `LogWriteData`.
unfoldable pub write_run_log : System → List ℕ → Act
write_run_log s line g =
    if (type_at info_type g.log).log_off == 0 then done g else locked_write s info_type line g

unfoldable pub write_log : System → List ℕ → Act
write_log s line = locked_write s log_type line

unfoldable pub write_info : System → List ℕ → Act
write_info s line = locked_write s info_type line

unfoldable pub write_info_run : System → List ℕ → Act
write_info_run s line = locked_write s info_type line

unfoldable pub write_error : System → List ℕ → Act
write_error s line = locked_write s error_type line

unfoldable pub write_trace : System → List ℕ → Act
write_trace s line g =
    if (type_at trace_type g.log).log_off == 0 then done g else locked_write s trace_type line g

unfoldable pub write_now_detail_time : System → List ℕ → Act
write_now_detail_time s line g =
    if (type_at trace_type g.log).log_off == 0 then done g else write_trace s line g

unfoldable pub write_all_log : ℕ → System → List ℕ → Act
write_all_log t s line g = if leb max_log_type t then done g else locked_write s t line g

unfoldable pub write_data : System → List ℕ → Act
write_data s text = locked_write s data_type text

-- Which of them.
pub data Entry : Type 0 where
  run_logs logs infos info_runs errors traces now_detail_times datas : Entry
  all_logs : ℕ → Entry

unfoldable pub enter : Entry → System → List ℕ → Act
enter run_logs = write_run_log
enter logs = write_log
enter infos = write_info
enter info_runs = write_info_run
enter errors = write_error
enter traces = write_trace
enter now_detail_times = write_now_detail_time
enter datas = write_data
enter (all_logs t) = write_all_log t

-- ".log.", "m_sStatFile is " and ", error is ".
abbrev pub day_suffix : List ℕ
day_suffix = 46 ∷ 108 ∷ 111 ∷ 103 ∷ 46 ∷ []

abbrev pub file_is : List ℕ
file_is = 109 ∷ 95 ∷ 115 ∷ 83 ∷ 116 ∷ 97 ∷ 116 ∷ 70 ∷ 105 ∷ 108 ∷ 101 ∷ 32 ∷ 105 ∷ 115 ∷ 32 ∷ []

abbrev pub error_is : List ℕ
error_is = 44 ∷ 32 ∷ 101 ∷ 114 ∷ 114 ∷ 111 ∷ 114 ∷ 32 ∷ 105 ∷ 115 ∷ 32 ∷ []

-- The time as it is printed: year, month and day, the hour, the clock, and `Secd2Time` and `Secd2Date`.
pub record Moment : Type 0 where
  pub day : List ℕ
  pub hour : List ℕ
  pub clock : List ℕ
  pub date : List ℕ
  pub short_day : List ℕ

-- Which of the statistics: by day, or of a name by day or by hour.
pub data Stat : Type 0 where
  by_day : Stat
  private_by_day private_by_hour : List ℕ → Stat

-- The path, which `snprintf` cuts at 255 bytes, and the line.
unfoldable pub stat_path : Stat → Moment → List ℕ → List ℕ
stat_path by_day m file_name = take 255 (stat_folder ++ (file_name ++ (95 ∷ m.day)))
stat_path (private_by_day name) m file_name =
    take 255 (stat_folder ++ (file_name ++ (95 ∷ (name ++ (95 ∷ m.day)))))
stat_path (private_by_hour name) m file_name =
    take 255 (stat_folder ++ (file_name ++ (95 ∷ (name ++ (95 ∷ (m.day ++ (45 ∷ m.hour)))))))

unfoldable pub stat_line : Stat → Moment → List ℕ → List ℕ
stat_line by_day m text =
    (91 ∷ 45 ∷ 45 ∷ 45 ∷ []) ++ (m.clock ++ ((45 ∷ 45 ∷ 45 ∷ 93 ∷ []) ++ (text ++ (10 ∷ []))))
stat_line (private_by_day name) m text = text ++ (10 ∷ [])
stat_line (private_by_hour name) m text = text ++ (10 ∷ [])

-- What is logged of a file that cannot be opened, with the text of the error.
unfoldable pub failure_line : Moment → List ℕ → List ℕ → List ℕ
failure_line m path error = log_line m.date (file_is ++ (path ++ (error_is ++ error)))

-- The rest of `WriteStat` behind the `fopen`; where it fails, the mutex is free again before `WriteLog`.
unfoldable pub stat_opened : Bool → System → Moment → List ℕ → List ℕ → List ℕ → Act
stat_opened true s m path line error = do append_to path line; unlock
stat_opened false s m path line error = do unlock; write_log s (failure_line m path error)

-- `WriteStat`, `WritePrivateStat` and `WriteHourStat`: whether their `fopen` succeeds, and what `WriteLog` meets.
unfoldable pub write_stat : Stat → Bool → System → Moment → List ℕ → List ℕ → Act
write_stat k opens s m text error g =
    let path = stat_path k m g.log.file_name in
    (do
      lock
      (λ g'. some (record g' { stat_file = path }))
      stat_opened opens s m path (stat_line k m text) error)
      g

unfoldable pub day_path : Moment → List ℕ → List ℕ
day_path m name = day_folder ++ (name ++ (day_suffix ++ m.short_day))

-- `DayLogWrite`.
unfoldable pub write_day_log : Bool → Moment → List ℕ → List ℕ → Act
write_day_log opens m name text = do
  lock
  write_and_close opens (day_path m name) (log_line m.date text)

-- A call from outside.
pub data Op : Type 0 where
  calls_log : Call → Op
  enters : Entry → System → List ℕ → Op
  stats : Stat → Bool → System → Moment → List ℕ → List ℕ → Op
  days : Bool → Moment → List ℕ → List ℕ → Op

unfoldable pub act : Op → Act
act (calls_log (writes s t line)) = locked_write s t line
act (calls_log (writes_data s t date text bytes)) = locked_write s t (data_line date text bytes)
act (calls_log (sets t flag)) = on_log (set_log_flag t flag)
act (calls_log (inserts v)) = on_log (insert_log_type v)
act (calls_log (inits name)) = on_log (init name)
act (enters e s line) = enter e s line
act (stats k opens s m text error) = write_stat k opens s m text error
act (days opens m name text) = write_day_log opens m name text

unfoldable pub acts : List Op → Act
acts [] = done
acts (o ∷ os) = do act o; acts os
