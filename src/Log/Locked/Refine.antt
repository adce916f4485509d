-- ===== src/Log/Locked/Refine.antt =====
-- The calls of common/writeRunInfo.cpp under their mutex, and the same calls without one.
use websocket_test.Base.{
  ℕ, ◌≡◌, refl, ap, ◌∙◌, arith, true, false, none, some, leb, ◌==◌, List, [], ◌∷◌, if◌then◌else◌,
}
use websocket_test.Log.{
  Log, System, max_log_type, type_at, info_type, error_type, trace_type, data_type, log_type,
  append_file, log_line, data_line, log_write, open_and_write,
}
use websocket_test.Log.Calls.{writes, writes_data, sets, inserts, inits, call, log_write_data_lem}
use websocket_test.Log.Locked.{
  Guarded, lock, unlock, write_and_close, locked_write, stat_path, stat_line, failure_line,
  stat_opened, write_stat, day_path, write_day_log, Op, Entry, run_logs, logs, infos, info_runs,
  errors, traces, now_detail_times, datas, all_logs, enter, enters, write_run_log, write_log,
  write_info, write_info_run, write_error, write_trace, write_now_detail_time, write_all_log,
  write_data, calls_log, stats, days, act, acts,
}

-- The log and `m_sStatFile`, without a mutex.
pub record Plain : Type 0 where
  pub log : Log
  pub stat_file : List ℕ

abbrev pub appended : List ℕ → List ℕ → Log → Log
appended path text l = record l { files = append_file path text l.files }

-- The type of the log that a line goes to.
abbrev pub entry_type : Entry → ℕ
entry_type run_logs = info_type
entry_type logs = log_type
entry_type infos = info_type
entry_type info_runs = info_type
entry_type errors = error_type
entry_type traces = trace_type
entry_type now_detail_times = trace_type
entry_type datas = data_type
entry_type (all_logs t) = t

-- What a call is for: one file gets its line, or the log gets a line on the file that cannot be opened.
unfoldable pub plain_act : Op → Plain → Plain
plain_act (calls_log c) p = record p { log = call c p.log }
plain_act (enters e s line) p = record p { log = log_write s (entry_type e) line p.log }
plain_act (stats k opens s m text error) p =
    let path = stat_path k m p.log.file_name in
    record {
      log =
          if opens
          then appended path (stat_line k m text) p.log
          else log_write s log_type (failure_line m path error) p.log;
      stat_file = path;
    }
plain_act (days opens m name text) p = record p {
  log = if opens then appended (day_path m name) (log_line m.date text) p.log else p.log;
}

unfoldable pub plain_acts : List Op → Plain → Plain
plain_acts [] p = p
plain_acts (o ∷ os) p = plain_acts os (plain_act o p)

-- The state of a thread that does not hold the mutex.
abbrev pub free : Plain → Guarded
free p = record { log = p.log; stat_file = p.stat_file; held = false }

locked_write_lem :
    (s : System) (t : ℕ) (text : List ℕ) (p : Plain)
    → locked_write s t text (free p) ≡ some (free (record p { log = log_write s t text p.log }))
unfolding locked_write log_write lock unlock write_and_close open_and_write
locked_write_lem s t text p = ground arith

-- A type that is off, or out of range, is not written to.
unless_off :
    (s : System) (t : ℕ) (line : List ℕ) (p : Plain)
    → (if (type_at t p.log).log_off == 0 then some (free p) else locked_write s t line (free p))
      ≡ some (free (record p { log = log_write s t line p.log }))
unfolding log_write
unless_off s t line p = ground (arith, locked_write_lem s t line p)

unless_out :
    (s : System) (t : ℕ) (line : List ℕ) (p : Plain)
    → (if leb max_log_type t then some (free p) else locked_write s t line (free p))
      ≡ some (free (record p { log = log_write s t line p.log }))
unfolding log_write
unless_out s t line p = ground (arith, locked_write_lem s t line p)

unless_off_twice :
    (s : System) (t : ℕ) (line : List ℕ) (p : Plain)
    → (if (type_at t p.log).log_off == 0
        then some (free p)
        else (if (type_at t p.log).log_off == 0
            then some (free p)
            else locked_write s t line (free p)))
      ≡ some (free (record p { log = log_write s t line p.log }))
unless_off_twice s t line p = ground (arith, unless_off s t line p)

enter-log_write :
    (e : Entry) (s : System) (line : List ℕ) (p : Plain)
    → enter e s line (free p)
      ≡ some (free (record p { log = log_write s (entry_type e) line p.log }))
unfolding enter write_run_log write_log write_info write_info_run write_error write_trace
    write_now_detail_time write_all_log write_data
enter-log_write run_logs s line p = unless_off s info_type line p
enter-log_write logs s line p = locked_write_lem s log_type line p
enter-log_write infos s line p = locked_write_lem s info_type line p
enter-log_write info_runs s line p = locked_write_lem s info_type line p
enter-log_write errors s line p = locked_write_lem s error_type line p
enter-log_write traces s line p = unless_off s trace_type line p
enter-log_write now_detail_times s line p = unless_off_twice s trace_type line p
enter-log_write datas s line p = locked_write_lem s data_type line p
enter-log_write (all_logs t) s line p = unless_out s t line p

act-plain_act : (o : Op) (p : Plain) → act o (free p) ≡ some (free (plain_act o p))
unfolding act plain_act call write_log lock unlock write_stat stat_opened write_day_log
    write_and_close
act-plain_act (calls_log (writes s t line)) p = locked_write_lem s t line p
act-plain_act (calls_log (writes_data s t date text bytes)) p =
    locked_write_lem s t (data_line date text bytes) p
    ∙ ap (λ l. some (free (record p { log = l }))) (log_write_data_lem s t date text bytes p.log)
act-plain_act (calls_log (sets t flag)) p = refl
act-plain_act (calls_log (inserts v)) p = refl
act-plain_act (calls_log (inits name)) p = refl
act-plain_act (enters e s line) p = enter-log_write e s line p
act-plain_act (stats k true s m text error) p = refl
act-plain_act (stats k false s m text error) p =
    locked_write_lem s log_type (failure_line m (stat_path k m p.log.file_name) error)
      (record p { stat_file = stat_path k m p.log.file_name })
act-plain_act (days true m name text) p = refl
act-plain_act (days false m name text) p = refl

-- Any calls of the log by one thread that does not hold m_logMutex, those that write a line or
-- data, the statistics, the day files, changes of flags, types and the name, whether fopen succeeds
-- or not, never lock the mutex while it is held nor unlock it while it is free, end with it free,
-- and leave the log, its files and m_sStatFile as the same calls without a mutex do.
pub acts-plain_acts : (os : List Op) (p : Plain) → acts os (free p) ≡ some (free (plain_acts os p))
unfolding acts plain_acts
acts-plain_acts [] p = refl
acts-plain_acts (o ∷ os) p =
    ap (λ r. elim r [ none ↦ none | some g ↦ acts os g ]) (act-plain_act o p)
    ∙ acts-plain_acts os (plain_act o p)
