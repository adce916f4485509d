-- ===== src/Log/Dump.antt =====
-- The hexadecimal rows of `WriteBufToTrace`, common/writeRunInfo.cpp.
use websocket_test.Base.{
  ℕ, zero, suc, ◌+◌, ◌-◌, ◌*◌, ◌/◌, ◌%◌, ◌≤◌, ◌<◌, ◌≡◌, refl, ap, ap₂, ◌∙◌, arith, List, [], ◌∷◌,
  ◌++◌, ltb, if◌then◌else◌, length, append_assoc, All,
}
use websocket_test.Log.Trace.{hex_digit, dump_byte, dump_row, row_count, dump_rows, dump}

abbrev pub IsByte : ℕ → Type 0
IsByte b = b < 256

abbrev pub joined : List (List ℕ) → List ℕ
joined [] = []
joined (row ∷ rows) = row ++ joined rows

-- A reader of the rows: two digits and a blank for each byte.
abbrev pub digit_value : ℕ → ℕ
digit_value c = if ltb c 58 then c - 48 else c - 55

abbrev pub undump : List ℕ → List ℕ
undump (a ∷ (b ∷ (c ∷ rest))) = (digit_value a * 16 + digit_value b) ∷ undump rest
undump _ = []

abbrev dump_all : List ℕ → List ℕ
dump_all [] = []
dump_all (b ∷ bytes) = dump_byte b ++ dump_all bytes

byte_value :
    (b : ℕ)
    → IsByte b
    → digit_value (hex_digit (b / 16 % 16)) * 16 + digit_value (hex_digit (b % 16)) ≡ b
unfolding hex_digit
byte_value b h = ground arith

undump-dump_all : (bytes : List ℕ) → All IsByte bytes → undump (dump_all bytes) ≡ bytes
unfolding dump_byte
undump-dump_all [] h = refl
undump-dump_all (b ∷ bytes) (h, hs) = ap₂ ◌∷◌ (byte_value b h) (undump-dump_all bytes hs)

dump_row-all :
    (j : ℕ) (rest : List ℕ) → (dump_row j rest).0 ++ dump_all (dump_row j rest).1 ≡ dump_all rest
unfolding dump_row
dump_row-all zero rest = refl
dump_row-all (suc j) [] = refl
dump_row-all (suc j) (b ∷ rest) =
    append_assoc (dump_byte b) (dump_row j rest).0 (dump_all (dump_row j rest).1)
    ∙ ap (λ r. dump_byte b ++ r) (dump_row-all j rest)

length-dump_row :
    (j : ℕ) (rest : List ℕ)
    → (length (dump_row j rest).1 ≡ length rest - j) × (length (dump_row j rest).0 ≤ 3 * j)
unfolding dump_row dump_byte
length-dump_row zero rest = omega arith
length-dump_row (suc j) [] = omega arith
length-dump_row (suc j) (b ∷ rest) = omega (arith, length-dump_row j rest)

dump_rows-all :
    (n : ℕ) (bytes : List ℕ) → length bytes ≤ 16 * n → joined (dump_rows n bytes) ≡ dump_all bytes
unfolding dump_rows
dump_rows-all zero [] h = refl
dump_rows-all zero (b ∷ bytes) h = absurd (omega arith)
dump_rows-all (suc n) bytes h =
    ap (λ r. (dump_row 16 bytes).0 ++ r)
      (dump_rows-all n (dump_row 16 bytes).1 (omega (arith, length-dump_row 16 bytes)))
    ∙ dump_row-all 16 bytes

dump_rows-short : (n : ℕ) (bytes : List ℕ) → All (λ row. length row ≤ 48) (dump_rows n bytes)
unfolding dump_rows
dump_rows-short zero bytes = tt
dump_rows-short (suc n) bytes =
    (omega (arith, length-dump_row 16 bytes), dump_rows-short n (dump_row 16 bytes).1)

enough_rows : (n : ℕ) → n ≤ 16 * row_count n
unfolding row_count
enough_rows n = ground arith

-- The rows that WriteBufToTrace writes of a buffer of bytes give the bytes back when the
-- hexadecimal digits are read again, and no row has more than 48 characters, those of 16 bytes.
pub undump-dump :
    (bytes : List ℕ)
    → All IsByte bytes
    → (undump (joined (dump bytes)) ≡ bytes) × All (λ row. length row ≤ 48) (dump bytes)
unfolding dump
undump-dump bytes h = (
  ap undump (dump_rows-all (row_count (length bytes)) bytes (enough_rows (length bytes)))
      ∙ undump-dump_all bytes h,
  dump_rows-short (row_count (length bytes)) bytes,
)
