-- ===== src/Format.antt =====
-- How Python prints what the audit trail hashes: decimal numbers, `str(uuid)` and
-- `datetime.isoformat`. A UUID is its 128-bit number; a `datetime` in UTC is the number of
-- microseconds since the start of 1 March of the year 0 (proleptic Gregorian).
use the_st.Prelude.{
  ℕ, zero, suc, ◌+◌, ◌-◌, ◌*◌, ◌/◌, ◌%◌, ◌^◌, List, [], ◌∷◌, ◌++◌, Text, codes, ltb, if◌then◌else◌,
  concat, ◌≡◌, refl, ◌==◌, take,
}
pub mod Decimal

-- The decimal digits with fuel; `n` digits are more than enough for `n`.
unfoldable pub decimal_from : ℕ → ℕ → Text
decimal_from zero n = []
decimal_from (suc fuel) n =
    let higher = decimal_from fuel (n / 10) in
    if ltb n 10 then (b'0' + n) ∷ [] else higher ++ ((b'0' + n % 10) ∷ [])

-- `str(n)`.
unfoldable pub decimal : ℕ → Text
unfolding decimal_from
decimal n = decimal_from (suc n) n

-- The last `width` decimal digits.
unfoldable pub padded : ℕ → ℕ → Text
padded zero n = []
padded (suc width) n = padded width (n / 10) ++ ((b'0' + n % 10) ∷ [])

abbrev pub hex_digit : ℕ → ℕ
hex_digit d = if ltb d 10 then b'0' + d else b'a' + (d - 10)

-- The last `width` hexadecimal digits.
unfoldable pub hex : ℕ → ℕ → Text
hex zero n = []
hex (suc width) n = hex width (n / 16) ++ (hex_digit (n % 16) ∷ [])

-- `str(uuid)`.
unfoldable pub uuid_text : ℕ → Text
unfolding hex
uuid_text n = concat (
    hex 8 (n / 16 ^ 24)
    ∷ codes "-"
    ∷ hex 4 (n / 16 ^ 20)
    ∷ codes "-"
    ∷ hex 4 (n / 16 ^ 16)
    ∷ codes "-"
    ∷ hex 4 (n / 16 ^ 12)
    ∷ codes "-"
    ∷ hex 12 n
    ∷ [])

-- Day, month and year of a day number that counts from 1 March of the year 0.
unfoldable pub civil : ℕ → ℕ × ℕ × ℕ
civil days =
    let era = days / 146097 in
    let doe = days % 146097 in
    let yoe = (doe + doe / 36524 - doe / 1460 - doe / 146096) / 365 in
    let doy = doe - (365 * yoe + yoe / 4 - yoe / 100) in
    let mp = (5 * doy + 2) / 153 in
    let day = doy - (153 * mp + 2) / 5 + 1 in
    let month = if ltb mp 10 then mp + 3 else mp - 9 in
    let year = yoe + era * 400 + (if ltb mp 10 then 0 else 1) in (year, month, day)

-- `moment.astimezone(UTC).isoformat(timespec="microseconds")`.
unfoldable pub isoformat : ℕ → Text
unfolding padded civil
isoformat moment =
    let (year, month, day) = civil (moment / 86400000000) in
    let seconds = moment / 1000000 in
    concat (
      padded 4 year
      ∷ codes "-"
      ∷ padded 2 month
      ∷ codes "-"
      ∷ padded 2 day
      ∷ codes "T"
      ∷ padded 2 (seconds / 3600 % 24)
      ∷ codes ":"
      ∷ padded 2 (seconds / 60 % 60)
      ∷ codes ":"
      ∷ padded 2 (seconds % 60)
      ∷ codes "."
      ∷ padded 6 (moment % 1000000)
      ∷ codes "+00:00"
      ∷ [])

-- `datetime.isoformat()`: the fraction stands only where there is one.
unfoldable pub datetime_text : ℕ → Text
unfolding isoformat padded
datetime_text moment =
    if moment % 1000000 == 0 then take 19 (isoformat moment) ++ codes "+00:00" else isoformat moment

-- The start of 1 January 1970.
abbrev epoch : ℕ
epoch = 719468 * 86400000000

civil-epoch : civil (epoch / 86400000000) ≡ (1970, 1, 1)
unfolding civil
civil-epoch = refl

isoformat_leap :
    isoformat (epoch + 951782400 * 1000000 + 7) ≡ codes "2000-02-29T00:00:00.000007+00:00"
unfolding isoformat
isoformat_leap = refl

uuid_text_example :
    uuid_text 0x00112233445566778899aabbccddeeff ≡ codes "00112233-4455-6677-8899-aabbccddeeff"
unfolding uuid_text
uuid_text_example = refl
