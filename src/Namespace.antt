-- ===== src/Namespace.antt =====
-- The namespace: xinu/device/nam/nammap.c and mount.c, and the table that namInit.c declares. A buffer
-- of characters is a function from indices to bytes; `char` is signed.
pub mod Prefix
pub mod Strings
pub mod Mapping
use xinu_c_mips.Base.{
  ℕ, zero, suc, ◌+◌, ◌-◌, ◌%◌, ltb, leb, ◌==◌, if◌then◌else◌, ℤ, pos, negsuc, ◌+ℤ◌, ◌-ℤ◌, ltb_ℤ,
  eqb_ℤ, pos_part, to_uint32, update, Option, none, some, Bool, true, false, not, ◌&&◌, ◌||◌,
}
use xinu_c_mips.Kernel.{ok, syserr}
use xinu_c_mips.Device.{isbaddev}
use xinu_c_mips.Libxc.{schar}

abbrev pub Buffer : Type 0
Buffer = ℕ → ℕ

-- The sizes of a prefix, of a replacement and of a name, with the NUL, and of the table.
abbrev pub nm_prelen : ℕ
nm_prelen = 64

abbrev pub nm_repllen : ℕ
nm_repllen = 96

abbrev pub nm_maxlen : ℕ
nm_maxlen = 256

abbrev pub nnames_max : ℕ
nnames_max = 40

pub record Nmentry : Type 0 where
  pub nprefix : Buffer
  pub nreplace : Buffer
  pub ndevice : ℤ

pub record Names : Type 0 where
  pub nametab : ℕ → Nmentry
  pub nnames : ℕ

-- `namlen`, with the number of characters still to look at.
unfoldable pub namlen_loop : ℕ → Buffer → ℕ → ℤ
namlen_loop zero name i = syserr
namlen_loop (suc left) name i =
    let rest = namlen_loop left name (i + 1) in if name i == 0 then pos (i + 1) else rest

unfoldable pub namlen : Buffer → ℕ → ℤ
namlen name maxlen = namlen_loop maxlen name 0

-- `n` characters from index `j` of a buffer to index `i` of another.
unfoldable pub copy_chars : ℕ → Buffer → ℕ → Buffer → ℕ → Buffer
copy_chars zero dst i src j = dst
copy_chars (suc n) dst i src j = copy_chars n (update dst i (src j)) (i + 1) src (j + 1)

unfoldable pub mount : Buffer → Buffer → ℤ → Names → ℤ × Names
mount prefix replace device st =
    let psiz = namlen prefix nm_prelen in
    let rsiz = namlen replace nm_repllen in
    let old = st.nametab st.nnames in
    let entry : Nmentry = record {
      nprefix = copy_chars (pos_part psiz) old.nprefix 0 prefix 0;
      nreplace = copy_chars (pos_part rsiz) old.nreplace 0 replace 0;
      ndevice = device;
    } in
    if eqb_ℤ psiz syserr || eqb_ℤ rsiz syserr || isbaddev device
    then (syserr, st)
    else if leb nnames_max st.nnames
    then (syserr, st)
    else (ok, record { nametab = update st.nametab st.nnames entry; nnames = st.nnames + 1 })

-- `namcpy`, with the number of characters still to copy.
unfoldable pub namcpy_loop : ℕ → Buffer → Buffer → ℕ → ℤ × Buffer
namcpy_loop zero new old cnt = (syserr, new)
namcpy_loop (suc left) new old cnt =
    let new' = update new cnt (old cnt) in
    let rest = namcpy_loop left new' old (cnt + 1) in if old cnt == 0 then (ok, new') else rest

unfoldable pub namcpy : Buffer → Buffer → ℕ → ℤ × Buffer
namcpy new old buflen = namcpy_loop buflen new old 0

-- The comparison with a prefix: its length if it matches. A prefix of the table ends within its
-- buffer.
unfoldable pub prefix_length : ℕ → Buffer → Buffer → ℕ → Option ℕ
prefix_length zero prefix name plen = none
prefix_length (suc left) prefix name plen =
    let rest = prefix_length left prefix name (plen + 1) in
    if prefix plen == 0 then some plen else if prefix plen == name plen then rest else none

-- The value that a `char` keeps of an `int`.
abbrev pub to_char : ℤ → ℤ
to_char z = schar (to_uint32 z % 256)

-- The replacement of a prefix of `plen` characters.
unfoldable pub substitute : Nmentry → Buffer → Buffer → ℕ → ℤ × Buffer
substitute e name new plen =
    let olen = to_char (namlen name nm_maxlen) in
    let rlen = namlen e.nreplace nm_maxlen -ℤ pos 1 in
    let remain = olen -ℤ pos plen in
    let front = copy_chars (pos_part rlen) new 0 e.nreplace 0 in
    if ltb_ℤ (pos nm_maxlen) (rlen +ℤ remain)
    then (syserr, new)
    else (e.ndevice, copy_chars (pos_part remain) front (pos_part rlen) name plen)

abbrev pub on_match : Option ℕ → ℤ × Buffer → (ℕ → ℤ × Buffer) → ℤ × Buffer
on_match none other f = other
on_match (some plen) other f = f plen

-- `namrepl`, with the number of entries still to try.
unfoldable pub namrepl_loop : ℕ → (ℕ → Nmentry) → ℕ → Buffer → Buffer → ℤ × Buffer
namrepl_loop zero tab i name new = (syserr, new)
namrepl_loop (suc left) tab i name new =
    let rest = namrepl_loop left tab (i + 1) name new in
    on_match (prefix_length nm_prelen (tab i).nprefix name 0) rest (substitute (tab i) name new)

unfoldable pub namrepl : Names → Buffer → Buffer → ℤ × Buffer
namrepl st name new = namrepl_loop st.nnames st.nametab 0 name new

-- The loop of `nammap`: the name that is looked up is the same in every round.
unfoldable pub nammap_loop : ℕ → Names → Buffer → Buffer → ℤ → ℤ × Buffer
nammap_loop zero st tmpname new namdev = (syserr, new)
nammap_loop (suc left) st tmpname new namdev =
    let (newdev, new') = namrepl st tmpname new in
    let rest = nammap_loop left st tmpname new' namdev in
    if eqb_ℤ newdev namdev then rest else (newdev, new')

-- `tmp` is what the local buffer holds before.
unfoldable pub nammap : Names → Buffer → Buffer → Buffer → ℤ → ℤ × Buffer
nammap st name new tmp namdev =
    let (status, tmpname) = namcpy tmp name nm_maxlen in
    let found = nammap_loop st.nnames st tmpname new namdev in
    if eqb_ℤ status syserr then (syserr, new) else found
