-- ===== src/Libxc.antt =====
-- The C library's functions on bytes and strings, xinu/lib/libxc. A memory is a function from
-- addresses to bytes, 0 to 255; `char` is signed. A walk that ends at a NUL has as many rounds as
-- there are addresses, and `none` says that it met no NUL in them. Counts of type `int` may be
-- negative, and then nothing is done.
pub mod Bytes
pub mod Text
pub mod Searching
pub mod Comparing
pub mod Copying
pub mod Number
use xinu_c_mips.Base.{
  ℕ, zero, suc, ◌+◌, ◌-◌, ◌%◌, ◌^◌, ltb, ◌==◌, if◌then◌else◌, ℤ, pos, negsuc, ◌-ℤ◌, pos_part, eqb_ℤ,
  to_uint32, update, Option, none, some, Bool, true, false, not, ◌&&◌, ◌||◌,
}

abbrev pub Memory : Type 0
Memory = ℕ → ℕ

abbrev pub address_space : ℕ
address_space = 2 ^ 32

-- The value of a `char`, and `(unsigned char)c`
abbrev pub schar : ℕ → ℤ
schar b = if ltb b 128 then pos b else negsuc (255 - b)

abbrev pub uchar : ℤ → ℕ
uchar c = to_uint32 c % 256

unfoldable pub fill : Memory → ℕ → ℕ → ℕ → Memory
fill m s b zero = m
fill m s b (suc n) = fill (update m s b) (s + 1) b n

-- `memset` and `memcpy` return the destination too, which their callers know.
unfoldable pub memset : Memory → ℕ → ℤ → ℤ → Memory
memset m s c n = fill m s (uchar c) (pos_part n)

unfoldable pub bzero : Memory → ℕ → ℤ → Memory
bzero m p len = fill m p 0 (pos_part len)

unfoldable pub memcpy_loop : Memory → ℕ → ℕ → ℕ → Memory
memcpy_loop m dst src zero = m
memcpy_loop m dst src (suc n) = memcpy_loop (update m dst (m src)) (dst + 1) (src + 1) n

unfoldable pub memcpy : Memory → ℕ → ℕ → ℤ → Memory
memcpy m s ct n = memcpy_loop m s ct (pos_part n)

unfoldable pub memcmp_loop : Memory → ℕ → ℕ → ℕ → ℤ
memcmp_loop m c1 c2 zero = pos 0
memcmp_loop m c1 c2 (suc n) =
    let rest = memcmp_loop m (c1 + 1) (c2 + 1) n in
    if m c1 == m c2 then rest else pos (m c1) -ℤ pos (m c2)

unfoldable pub memcmp : Memory → ℕ → ℕ → ℤ → ℤ
memcmp m s1 s2 n = memcmp_loop m s1 s2 (pos_part n)

-- The count is not read: the search ends at a NUL. The result is a pointer, 0 for NULL.
unfoldable pub memchr_loop : ℕ → Memory → ℕ → ℤ → Option ℕ
memchr_loop zero m cp c = none
memchr_loop (suc fuel) m cp c =
    let rest = memchr_loop fuel m (cp + 1) c in
    if m cp == 0 then some 0 else if eqb_ℤ (schar (m cp)) (pos (uchar c)) then some cp else rest

unfoldable pub memchr : Memory → ℕ → ℤ → ℤ → Option ℕ
memchr m cs c n = memchr_loop address_space m cs c

-- `len` is unsigned; the second argument is how many bytes may still be counted.
unfoldable pub strnlen_loop : Memory → ℕ → ℕ → ℕ → ℕ
strnlen_loop m zero s n = n
strnlen_loop m (suc left) s n =
    let rest = strnlen_loop m left (s + 1) (n + 1) in if m s == 0 then n else rest

unfoldable pub strnlen : Memory → ℕ → ℕ → ℕ
strnlen m s len = strnlen_loop m len s 0

unfoldable pub strncmp_loop : Memory → ℕ → ℕ → ℕ → ℤ
strncmp_loop m s1 s2 zero = pos 0
strncmp_loop m s1 s2 (suc n) =
    let rest = strncmp_loop m (s1 + 1) (s2 + 1) n in
    if m s1 == m s2 then (if m s1 == 0 then pos 0 else rest) else schar (m s1) -ℤ schar (m s2)

unfoldable pub strncmp : Memory → ℕ → ℕ → ℤ → ℤ
strncmp m s1 s2 n = strncmp_loop m s1 s2 (pos_part n)

unfoldable pub strncpy_loop : Memory → ℕ → ℕ → ℕ → Memory
strncpy_loop m s1 s2 zero = m
strncpy_loop m s1 s2 (suc n) =
    let m' = update m s1 (m s2) in
    let rest = strncpy_loop m' (s1 + 1) (s2 + 1) n in
    if m s2 == 0 then fill m' (s1 + 1) 0 n else rest

unfoldable pub strncpy : Memory → ℕ → ℕ → ℤ → Memory
strncpy m s1 s2 n = strncpy_loop m s1 s2 (pos_part n)

-- The address of the NUL of a string.
unfoldable pub end_of_string : ℕ → Memory → ℕ → Option ℕ
end_of_string zero m s = none
end_of_string (suc fuel) m s =
    let rest = end_of_string fuel m (s + 1) in if m s == 0 then some s else rest

-- The byte that is one too many is written and then replaced by the NUL.
unfoldable pub strncat_loop : Memory → ℕ → ℕ → ℕ → Memory
strncat_loop m s1 s2 zero = let m' = update m s1 (m s2) in if m s2 == 0 then m' else update m' s1 0
strncat_loop m s1 s2 (suc n) =
    let m' = update m s1 (m s2) in
    let rest = strncat_loop m' (s1 + 1) (s2 + 1) n in if m s2 == 0 then m' else rest

-- The second half of `strncat`, from the end of the first string.
abbrev pub append_at : Memory → ℕ → ℤ → Option ℕ → Option Memory
append_at m s2 n none = none
append_at m s2 n (some e) = some (strncat_loop m e s2 (pos_part n))

unfoldable pub strncat : Memory → ℕ → ℕ → ℤ → Option Memory
strncat m s1 s2 n = append_at m s2 n (end_of_string address_space m s1)

unfoldable pub strchr_loop : ℕ → Memory → ℕ → ℤ → Option ℕ
strchr_loop zero m s c = none
strchr_loop (suc fuel) m s c =
    let rest = strchr_loop fuel m (s + 1) c in
    if m s == 0
    then (if uchar c == m s then some s else some 0)
    else if m s == uchar c
    then some s
    else rest

unfoldable pub strchr : Memory → ℕ → ℤ → Option ℕ
strchr = strchr_loop address_space

unfoldable pub strrchr_loop : ℕ → Memory → ℕ → ℤ → ℕ → Option ℕ
strrchr_loop zero m s c r = none
strrchr_loop (suc fuel) m s c r =
    let rest = strrchr_loop fuel m (s + 1) c (if m s == uchar c then s else r) in
    if m s == 0 then (if uchar c == m s then some s else some r) else rest

unfoldable pub strrchr : Memory → ℕ → ℤ → Option ℕ
strrchr m s c = strrchr_loop address_space m s c 0

-- The inner loop of `strstr`: where the walk of the string to locate stops.
unfoldable pub strstr_match : ℕ → Memory → ℕ → ℕ → Option ℕ
strstr_match zero m cq cr = none
strstr_match (suc fuel) m cq cr =
    let rest = strstr_match fuel m (cq + 1) (cr + 1) in
    if not (m cq == 0) && not (m cr == 0) then (if m cq == m cr then rest else some cr) else some cr

unfoldable pub strstr_loop : ℕ → Memory → ℕ → ℕ → Option ℕ
strstr_loop zero m cs ct = none
strstr_loop (suc fuel) m cs ct =
    let rest = strstr_loop fuel m (cs + 1) ct in
    if m cs == 0
    then some 0
    else if m cs == m ct
    then elim (strstr_match address_space m cs ct) [
      | none ↦ none
      | some cr ↦ if m cr == 0 then some cs else rest
    ]
    else rest

unfoldable pub strstr : Memory → ℕ → ℕ → Option ℕ
strstr = strstr_loop address_space
