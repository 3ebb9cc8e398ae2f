-- ===== src/Libxc/Number.antt =====
-- Numbers in the C library: atoi.c, atol.c, abs.c, labs.c, rand.c, and the routines of doprnt.c that
-- write a number's digits. `long` is as wide as `int`.
pub mod Reading
pub mod Writing
pub mod Spelling
pub mod RoundTrip
use xinu_c_mips.Base.{
  ℕ, zero, suc, ◌+◌, ◌-◌, ◌*◌, ◌/◌, ◌%◌, ◌^◌, leb, ◌==◌, if◌then◌else◌, ℤ, pos, negsuc, ◌+ℤ◌, ◌-ℤ◌,
  ltb_ℤ, to_uint32, wrap32, pos_part, neg_part, Option, none, some, Bool, true, false, ◌&&◌, ◌||◌,
  List, [], ◌∷◌, get_or,
}
use xinu_c_mips.Libxc.{Memory, address_space}

-- `abs` and `labs`
unfoldable pub abs : ℤ → ℤ
abs arg = if ltb_ℤ arg (pos 0) then wrap32 (pos 0 -ℤ arg) else arg

-- The blanks and the sign: where the digits start, and whether a `-` was met.
unfoldable pub skip_sign : ℕ → Memory → ℕ → Option (ℕ × Bool)
skip_sign zero m p = none
skip_sign (suc fuel) m p =
    let rest = skip_sign fuel m (p + 1) in
    if (m p == 32) || (m p == 9)
    then rest
    else if m p == 45
    then some (p + 1, true)
    else if m p == 43
    then some (p + 1, false)
    else some (p, false)

abbrev pub times10 : ℤ → ℤ
times10 (pos n) = pos (n * 10)
times10 (negsuc n) = negsuc (n * 10 + 9)

unfoldable pub read_digits : ℕ → Memory → ℕ → ℤ → Option ℤ
read_digits zero m p n = none
read_digits (suc fuel) m p n =
    let rest = read_digits fuel m (p + 1) (wrap32 ((times10 n +ℤ pos (m p)) -ℤ pos 48)) in
    if leb 48 (m p) && leb (m p) 57 then rest else some n

abbrev pub negate_if : Bool → Option ℤ → Option ℤ
negate_if f none = none
negate_if true (some n) = some (wrap32 (pos 0 -ℤ n))
negate_if false (some n) = some n

abbrev pub digits_from : Memory → Option (ℕ × Bool) → Option ℤ
digits_from m none = none
digits_from m (some (p, f)) = negate_if f (read_digits address_space m p (pos 0))

-- `atoi` and `atol`
unfoldable pub atoi : Memory → ℕ → Option ℤ
atoi m p = digits_from m (skip_sign address_space m p)

-- `srand` and `rand`, with `randx`, an unsigned long, as the state.
unfoldable pub srand : ℕ → ℕ → ℕ
srand x randx = x

unfoldable pub rand : ℕ → ℕ × ℕ
rand randx = let next = (randx * 1103515245 + 12345) % 2 ^ 32 in (next / 2 ^ 16 % 2 ^ 15, next)

-- The cells of the local array `temp` from an index on, one for each digit, the lowest first.
unfoldable pub decimal_cells : ℕ → ℕ → List ℕ
decimal_cells zero num = []
decimal_cells (suc n) num = (num % 10 + 48) ∷ decimal_cells n (num / 10)

-- `for (i = n; temp[i] == '0'; i--)`: `temp[0]` is the NUL.
unfoldable pub highest : ℕ → List ℕ → ℕ
highest zero temp = 0
highest (suc i) temp =
    let rest = highest i temp in if get_or temp (suc i) 0 == 48 then rest else suc i

-- `if (i == 0) i++`
abbrev pub at_least_1 : ℕ → ℕ
at_least_1 i = if i == 0 then 1 else i

-- `while (i >= 0) *str++ = temp[i--]`: what is written.
unfoldable pub copy_down : ℕ → List ℕ → List ℕ
copy_down zero temp = get_or temp 0 0 ∷ []
copy_down (suc i) temp = get_or temp (suc i) 0 ∷ copy_down i temp

unfoldable pub print_temp : ℕ → List ℕ → List ℕ
print_temp n temp = copy_down (at_least_1 (highest n temp)) temp

abbrev pub magnitude : ℤ → ℕ
magnitude z = pos_part z + neg_part z

-- The first digit and the quotient are those of the magnitude, since both signs turn for a negative
-- number.
unfoldable pub decimal_temp : ℤ → List ℕ
decimal_temp num = 0 ∷ decimal_cells 10 (magnitude num)

unfoldable pub prtl10 : ℤ → List ℕ
prtl10 num = print_temp 10 (decimal_temp num)

-- `num >> k` of a signed number.
abbrev pub shift_right : ℤ → ℕ → ℤ
shift_right (pos n) k = pos (n / 2 ^ k)
shift_right (negsuc n) k = negsuc (n / 2 ^ k)

-- The digit at an index of "0123456789abcdef", and of the upper-case letters.
abbrev pub hex_digit : ℕ → ℕ
hex_digit d = if leb d 9 then d + 48 else d + 87

abbrev pub upper_hex_digit : ℕ → ℕ
upper_hex_digit d = if leb d 9 then d + 48 else d + 55

abbrev pub octal_digit : ℕ → ℕ
octal_digit d = d + 48

-- A digit for each `k` bits of the number.
unfoldable pub binary_cells : (ℕ → ℕ) → ℕ → ℕ → ℤ → List ℕ
binary_cells digit k zero num = []
binary_cells digit k (suc n) num =
    digit (to_uint32 num % 2 ^ k) ∷ binary_cells digit k n (shift_right num k)

unfoldable pub prtl16 : ℤ → List ℕ
prtl16 num = print_temp 8 (0 ∷ binary_cells hex_digit 4 8 num)

unfoldable pub prt_x16 : ℤ → List ℕ
prt_x16 num = print_temp 8 (0 ∷ binary_cells upper_hex_digit 4 8 num)

unfoldable pub prtl2 : ℤ → List ℕ
prtl2 num = print_temp 32 (0 ∷ binary_cells octal_digit 1 32 num)

-- `temp[11] &= '3'` keeps two bits of the top digit.
abbrev pub mask_top : ℕ → List ℕ → List ℕ
mask_top i [] = []
mask_top zero (c ∷ cs) = (48 + (c - 48) % 4) ∷ cs
mask_top (suc i) (c ∷ cs) = c ∷ mask_top i cs

unfoldable pub prtl8 : ℤ → List ℕ
prtl8 num = print_temp 11 (mask_top 11 (0 ∷ binary_cells octal_digit 3 11 num))
