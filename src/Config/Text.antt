-- ===== src/Config/Text.antt =====
-- The library calls and helpers that port_agent_config.cxx reads its input with: atoi, the
-- string streams, and chomp of common/util.cxx. A byte is its code.
use port_agent.Prelude.{
  ℕ, zero, suc, ◌+◌, ◌-◌, ◌*◌, ◌/◌, ◌%◌, Bool, ◌&&◌, ◌||◌, if◌then◌else◌, leb, ltb, ◌==◌, Bytes, [],
  ◌∷◌, ◌++◌, Option, none, some, ℤ, pos, int_of_word,
}

-- isspace in the "C" locale, and isdigit.
abbrev pub is_space : ℕ → Bool
is_space c = (c == 32) || (leb 9 c && leb c 13)

abbrev pub is_digit : ℕ → Bool
is_digit c = leb 48 c && leb c 57

-- What c_str() shows a C function: the bytes before the first NUL.
unfoldable pub c_str : Bytes → Bytes
c_str [] = []
c_str (c ∷ s) = let rest = c_str s in if c == 0 then [] else c ∷ rest

unfoldable pub skip_spaces : Bytes → Bytes
skip_spaces [] = []
skip_spaces (c ∷ s) = let rest = skip_spaces s in if is_space c then rest else c ∷ s

-- strtol, base 10: the digits from the front on, with the value so far.
unfoldable pub read_digits : ℕ → Bytes → ℕ
read_digits acc [] = acc
read_digits acc (c ∷ s) =
    let more = read_digits (acc * 10 + (c - 48)) s in if is_digit c then more else acc

-- `long` saturates at its bounds, and atoi cuts it to an int.
abbrev pub positive_int : ℕ → ℤ
positive_int n =
    int_of_word ((if ltb 9223372036854775807 n then 9223372036854775807 else n) % 4294967296)

abbrev pub negative_int : ℕ → ℤ
negative_int n =
    let m = if ltb 9223372036854775808 n then 9223372036854775808 else n in
    int_of_word ((4294967296 - m % 4294967296) % 4294967296)

unfoldable pub read_signed : Bytes → ℤ
unfolding read_digits
read_signed [] = pos 0
read_signed (c ∷ s) =
    if c == 45
    then negative_int (read_digits 0 s)
    else if c == 43
    then positive_int (read_digits 0 s)
    else positive_int (read_digits 0 (c ∷ s))

-- atoi of the characters of a std::string
unfoldable pub atoi : Bytes → ℤ
unfolding read_signed skip_spaces c_str
atoi s = read_signed (skip_spaces (c_str s))

-- v[0]: the terminating NUL of an empty string.
abbrev pub first_char : Bytes → ℕ
first_char [] = 0
first_char (c ∷ s) = c

-- A string stream: its unread bytes, or nothing once eofbit or failbit is set.
abbrev pub Stream : Type 0
Stream = Option Bytes

abbrev pub cons_first : ℕ → Bytes × Stream → Bytes × Stream
cons_first c (buf, rest) = (c ∷ buf, rest)

-- The characters of a token, from a position where the spaces are skipped.
unfoldable pub read_token : Bytes → Bytes × Stream
read_token [] = ([], none)
read_token (c ∷ s) =
    let rest = read_token s in if is_space c then ([], some (c ∷ s)) else cons_first c rest

-- `stream >> token`, into an empty string.
unfoldable pub next_token : Stream → Bytes × Stream
unfolding skip_spaces read_token
next_token none = ([], none)
next_token (some s) = read_token (skip_spaces s)

-- getline(buffer, room + 1, delimiter): the characters before the delimiter. Where the
-- delimiter does not come in time, failbit is set.
unfoldable pub read_until : (delimiter room : ℕ) → Bytes → Bytes × Stream
read_until delimiter room [] = ([], none)
read_until delimiter zero (c ∷ s) = ([], if c == delimiter then some s else none)
read_until delimiter (suc room) (c ∷ s) =
    let rest = read_until delimiter room s in
    if c == delimiter then ([], some s) else cons_first c rest

unfoldable pub get_until : (delimiter room : ℕ) → Stream → Bytes × Stream
unfolding read_until
get_until delimiter room none = ([], none)
get_until delimiter room (some s) = read_until delimiter room s

-- `while(iss.getline(buffer, 1024))`: a line and what is unread behind it; nothing where the
-- condition fails, since no byte is left or the line does not fit.
unfoldable pub read_line : ℕ → Bytes → Option (Bytes × Stream)
read_line room [] = some ([], none)
read_line zero (c ∷ s) = if c == 10 then some ([], some s) else none
read_line (suc room) (c ∷ s) =
    let rest = read_line room s in
    if c == 10
    then some ([], some s)
    else elim rest [ none ↦ none | some r ↦ some (cons_first c r) ]

unfoldable pub get_line : Stream → Option (Bytes × Stream)
unfolding read_line
get_line none = none
get_line (some []) = none
get_line (some (c ∷ s)) = read_line 1023 (c ∷ s)

-- The last byte and those before it.
unfoldable pub drop_last_newline : Bytes → Bytes
drop_last_newline [] = []
drop_last_newline (c ∷ []) = if (c == 10) || (c == 13) then [] else c ∷ []
drop_last_newline (c ∷ d ∷ s) = c ∷ drop_last_newline (d ∷ s)

-- chomp: at most two newline characters from the end. Its loop returns at the first character
-- that is none, which a second round would also leave.
unfoldable pub chomp : Bytes → Bytes
unfolding drop_last_newline
chomp s = drop_last_newline (drop_last_newline s)

-- `ostream << n`: the decimal digits. `fuel` rounds are enough for a number of that many digits.
unfoldable pub decimal_digits : (fuel n : ℕ) → Bytes
decimal_digits zero n = []
decimal_digits (suc fuel) n =
    let front = decimal_digits fuel (n / 10) in
    if ltb n 10 then (48 + n) ∷ [] else front ++ (48 + n % 10) ∷ []

unfoldable pub decimal : ℕ → Bytes
unfolding decimal_digits
decimal n = decimal_digits (suc n) n

-- toupper in the "C" locale, over a string
unfoldable pub to_upper : Bytes → Bytes
to_upper [] = []
to_upper (c ∷ s) = (if leb 97 c && leb c 122 then c - 32 else c) ∷ to_upper s
