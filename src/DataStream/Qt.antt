-- ===== src/DataStream/Qt.antt =====
-- The format that Qt documents for QDataStream: big-endian words, arrays and strings behind their
-- length in bytes, in which 2^32 - 1 stands for null.
use sparkle.Prelude.{
  ℕ, zero, suc, ◌+◌, ◌*◌, ◌/◌, ◌^◌, ◌<◌, ◌≡◌, refl, false, List, [], ◌∷◌, ◌++◌, length, take, drop,
  none, some, All, All-append, ◌==◌, ltb, if◌then◌else◌, arith, take-length-append,
  drop-length-append,
}
use sparkle.Prelude.Bytes.{Bytes, IsByte, IsBytes, be16, be32, byte_at, word16_at, word32_at}
use sparkle.DataStream.{Text, IsText, DateTime, IsDateTime, Reader, DataStream, IsDataStream}

-- Past the end a read gives 0 and leaves nothing.
pub get_word16 : Reader ℕ
get_word16 xs = if ltb (length xs) 2 then (0, []) else (word16_at xs 0, drop 2 xs)

pub get_word32 : Reader ℕ
get_word32 xs = if ltb (length xs) 4 then (0, []) else (word32_at xs 0, drop 4 xs)

pub put_array : Bytes → Bytes
put_array xs = be32 (length xs) ++ xs

array_of : ℕ → Reader Bytes
array_of n xs = if n == 4294967295 then ([], xs) else (take n xs, drop n xs)

pub get_array : Reader Bytes
unfolding array_of get_word32
get_array xs = let (n, rest) = get_word32 xs in array_of n rest

unfoldable pub put_units : List ℕ → Bytes
put_units [] = []
put_units (u ∷ us) = be16 u ++ put_units us

get_units : ℕ → Reader (List ℕ)
get_units zero xs = ([], xs)
get_units (suc n) xs =
    let (u, rest) = get_word16 xs in let (us, left) = get_units n rest in (u ∷ us, left)

unfoldable pub put_string : Text → Bytes
put_string none = be32 (4294967295)
put_string (some us) = be32 (length us * 2) ++ put_units us

some_units : List ℕ × Bytes → Text × Bytes
some_units (us, rest) = (some us, rest)

string_of : ℕ → Reader Text
string_of n xs = if n == 4294967295 then (none, xs) else some_units (get_units (n / 2) xs)

pub get_string : Reader Text
get_string xs = let (n, rest) = get_word32 xs in string_of n rest

unfoldable pub put_date_time : DateTime → Bytes
put_date_time t = be32 t.date ++ (be32 t.time ++ (t.spec ∷ []))

pub get_date_time : Reader DateTime
get_date_time xs =
    let (d, rest) = get_word32 xs in
    let (t, left) = get_word32 rest in
    (record { date = d; time = t; spec = byte_at left 0 }, drop 1 left)

unfoldable pub qt_stream : DataStream
qt_stream = record {
  put_u16 = be16;
  put_u32 = be32;
  put_bytes = put_array;
  put_text = put_string;
  put_time = put_date_time;
  get_u16 = get_word16;
  get_u32 = get_word32;
  get_bytes = get_array;
  get_text = get_string;
  get_time = get_date_time;
}

get_word16-be16 : (n : ℕ) (rest : Bytes) → n < 2 ^ 16 → get_word16 (be16 n ++ rest) ≡ (n, rest)
unfolding get_word16
get_word16-be16 n rest h = ground arith

get_word32-be32 : (n : ℕ) (rest : Bytes) → n < 2 ^ 32 → get_word32 (be32 n ++ rest) ≡ (n, rest)
unfolding get_word32
get_word32-be32 n rest h = ground arith

not_null : (n : ℕ) → n + 1 < 2 ^ 32 → (n == 4294967295) ≡ false
not_null n h = ground arith

half_of_double : (n : ℕ) → n * 2 / 2 ≡ n
half_of_double n = omega arith

get_array-put_array :
    (xs rest : Bytes) → length xs + 1 < 2 ^ 32 → get_array (put_array xs ++ rest) ≡ (xs, rest)
unfolding get_array put_array array_of
get_array-put_array xs rest h =
    rw
      (
        get_word32-be32 (length xs) (xs ++ rest) (omega arith),
        not_null (length xs) h,
        take-length-append xs rest,
        drop-length-append xs rest,
      )
      refl

get_units-put_units :
    (us : List ℕ) (rest : Bytes)
    → All (λ u. u < 2 ^ 16) us
    → get_units (length us) (put_units us ++ rest) ≡ (us, rest)
unfolding get_units put_units
get_units-put_units [] rest h = refl
get_units-put_units (u ∷ us) rest h =
    rw (get_word16-be16 u (put_units us ++ rest) h.0, get_units-put_units us rest h.1) refl

get_string-put_string :
    (t : Text) (rest : Bytes) → IsText t → get_string (put_string t ++ rest) ≡ (t, rest)
unfolding get_string put_string string_of some_units
get_string-put_string none rest h = rw (get_word32-be32 4294967295 rest (omega arith)) refl
get_string-put_string (some us) rest h =
    rw
      (
        get_word32-be32 (length us * 2) (put_units us ++ rest) (omega arith),
        not_null (length us * 2) h.0,
        half_of_double (length us),
        get_units-put_units us rest h.1,
      )
      refl

get_date_time-put_date_time :
    (t : DateTime) (rest : Bytes)
    → IsDateTime t
    → get_date_time (put_date_time t ++ rest) ≡ (t, rest)
unfolding get_date_time put_date_time
get_date_time-put_date_time t rest h =
    rw
      (
        get_word32-be32 t.date (be32 t.time ++ t.spec ∷ rest) h.0,
        get_word32-be32 t.time (t.spec ∷ rest) h.1,
      )
      refl

be16-IsBytes : (n : ℕ) → IsBytes (be16 n)
be16-IsBytes n = omega arith

be32-IsBytes : (n : ℕ) → IsBytes (be32 n)
be32-IsBytes n = omega arith

put_units-IsBytes : (us : List ℕ) → IsBytes (put_units us)
unfolding put_units
put_units-IsBytes [] = tt
put_units-IsBytes (u ∷ us) =
    All-append IsByte (be16 u) (put_units us) (be16-IsBytes u) (put_units-IsBytes us)

put_string-IsBytes : (t : Text) → IsText t → IsBytes (put_string t)
unfolding put_string
put_string-IsBytes none h = be32-IsBytes 4294967295
put_string-IsBytes (some us) h =
    All-append IsByte (be32 (length us * 2)) (put_units us) (be32-IsBytes (length us * 2))
      (put_units-IsBytes us)

put_date_time-IsBytes : (t : DateTime) → IsDateTime t → IsBytes (put_date_time t)
unfolding put_date_time
put_date_time-IsBytes t h =
    All-append IsByte (be32 t.date) (be32 t.time ++ t.spec ∷ []) (be32-IsBytes t.date)
      (All-append IsByte (be32 t.time) (t.spec ∷ []) (be32-IsBytes t.time) (h.2, tt))

pub qt_stream-IsDataStream : IsDataStream qt_stream
unfolding qt_stream
qt_stream-IsDataStream = record {
  u16_reads = get_word16-be16;
  u32_reads = get_word32-be32;
  bytes_reads = get_array-put_array;
  text_reads = get_string-put_string;
  time_reads = get_date_time-put_date_time;
  u16_bytes = be16-IsBytes;
  u32_bytes = be32-IsBytes;
  text_bytes = put_string-IsBytes;
  time_bytes = put_date_time-IsBytes;
}
