-- ===== src/Log/Trace.antt =====
-- `WriteBufToTrace` of common/writeRunInfo.cpp: a buffer as rows of hexadecimal digits in the log.
use websocket_test.Base.{
  ℕ, zero, suc, ◌+◌, ◌/◌, ◌%◌, List, [], ◌∷◌, ◌++◌, ◌==◌, ltb, if◌then◌else◌, length,
}
use websocket_test.Log.{Log, System, trace_type, log_line, write_if_on}

-- `"%X%X "` of a byte's two digits.
unfoldable pub hex_digit : ℕ → ℕ
hex_digit d = if ltb d 10 then 48 + d else 55 + d

unfoldable pub dump_byte : ℕ → List ℕ
dump_byte b = hex_digit (b / 16 % 16) ∷ (hex_digit (b % 16) ∷ (32 ∷ []))

-- A row of at most 16 bytes, from those that are left, and what is left then.
unfoldable pub dump_row : ℕ → List ℕ → List ℕ × List ℕ
dump_row zero rest = ([], rest)
dump_row (suc j) [] = ([], [])
dump_row (suc j) (b ∷ rest) = let (row, left) = dump_row j rest in (dump_byte b ++ row, left)

unfoldable pub row_count : ℕ → ℕ
row_count n = if n % 16 == 0 then n / 16 else n / 16 + 1

unfoldable pub dump_rows : ℕ → List ℕ → List (List ℕ)
dump_rows zero rest = []
dump_rows (suc n) rest = let (row, left) = dump_row 16 rest in row ∷ dump_rows n left

unfoldable pub dump : List ℕ → List (List ℕ)
dump bytes = dump_rows (row_count (length bytes)) bytes

-- `WriteBufToTrace`.
unfoldable pub write_rows : System → List ℕ → List (List ℕ) → Log → Log
write_rows s date [] l = l
write_rows s date (row ∷ rows) l =
    write_rows s date rows (write_if_on s trace_type (log_line date row) l)

unfoldable pub write_buf_to_trace : System → List ℕ → List ℕ → Log → Log
write_buf_to_trace s date bytes l = write_rows s date (dump bytes) l
