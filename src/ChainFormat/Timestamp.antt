-- ===== src/ChainFormat/Timestamp.antt =====
-- The timestamp of chainformat/chain_hash.go. A `time.Time` is taken by its fields in UTC, which is
-- all that the program reads of one.
use proof.Prelude.{
  ℕ, ◌-◌, ◌/◌, [], ◌∷◌, ◌++◌, Bool, true, false, ltb, ◌==◌, ◌&&◌, ◌||◌, if◌then◌else◌, length,
  replicate,
}
use proof.Prelude.Bytes.{Bytes}
use proof.Prelude.Int64.{Int64, is_neg, int_lt, digits_onto}

pub record Time : Type 0 where
  pub year : Int64
  pub month : ℕ
  pub day : ℕ
  pub hour : ℕ
  pub minute : ℕ
  pub second : ℕ
  pub nanosecond : ℕ

-- `ValidateTimestamp`: the year is 0000 to 9999.
unfoldable pub valid_timestamp : Time → Bool
valid_timestamp t = if is_neg t.year || int_lt 9999 t.year then false else true

-- The digits of `appendIntPadded`: none for a negative value.
unfoldable pub padded_digits : Int64 → Bytes
padded_digits val = if val == 0 then b'0' ∷ [] else if is_neg val then [] else digits_onto 20 val []

-- Zeros in front, up to the width.
unfoldable pub zero_padded : ℕ → Bytes → Bytes
zero_padded width digits = replicate (width - length digits) b'0' ++ digits

unfoldable pub append_int_padded : Bytes → Int64 → ℕ → Bytes
append_int_padded buf val width = buf ++ zero_padded width (padded_digits val)

unfoldable pub append_timestamp_micro : Bytes → Time → Bytes
append_timestamp_micro buf t =
    let buf = append_int_padded buf t.year 4 ++ b'-' ∷ [] in
    let buf = append_int_padded buf t.month 2 ++ b'-' ∷ [] in
    let buf = append_int_padded buf t.day 2 ++ b'T' ∷ [] in
    let buf = append_int_padded buf t.hour 2 ++ b':' ∷ [] in
    let buf = append_int_padded buf t.minute 2 ++ b':' ∷ [] in
    let buf = append_int_padded buf t.second 2 ++ b'.' ∷ [] in
    append_int_padded buf (t.nanosecond / 1000) 6 ++ b'Z' ∷ []

-- `IsZero`: January 1 of year 1, 00:00:00 UTC.
unfoldable pub is_zero_time : Time → Bool
is_zero_time t =
    t.year == 1
    && t.month == 1
    && t.day == 1
    && t.hour == 0
    && t.minute == 0
    && t.second == 0
    && t.nanosecond == 0

-- `Equal` and `Before`, field by field.
unfoldable pub time_equal : Time → Time → Bool
time_equal t u =
    t.year == u.year
    && t.month == u.month
    && t.day == u.day
    && t.hour == u.hour
    && t.minute == u.minute
    && t.second == u.second
    && t.nanosecond == u.nanosecond

unfoldable pub time_before : Time → Time → Bool
time_before t u =
    int_lt t.year u.year
    || (t.year == u.year
        && (ltb t.month u.month
            || (t.month == u.month
                && (ltb t.day u.day
                    || (t.day == u.day
                        && (ltb t.hour u.hour
                            || (t.hour == u.hour
                                && (ltb t.minute u.minute
                                    || (t.minute == u.minute
                                        && (ltb t.second u.second
                                            || (t.second == u.second
                                                && ltb t.nanosecond u.nanosecond)))))))))))
