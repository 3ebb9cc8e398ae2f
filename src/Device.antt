-- ===== src/Device.antt =====
-- The device switch: xinu/system/init.c, open.c, close.c, read.c, write.c, seek.c, getc.c, putc.c,
-- control.c, getdev.c, ionull.c and ioerr.c. The drivers in the rows of the switch table `devtab` (a generated file
-- that names the functions of xinu/device) are parameters.
use xinu_c_mips.Base.{ℕ, zero, suc, ◌+◌, Bool, ◌||◌, ltb_ℤ, leb_ℤ, eqb_ℤ, if◌then◌else◌, ℤ, pos}
use xinu_c_mips.Kernel.{Cmd, pure, ◌>>=◌, index, ok, syserr}
use xinu_c_mips.Libxc.{Memory, strncmp}

abbrev pub ndevs : ℕ
ndevs = 8

-- `DEVNAMLEN`
abbrev pub devnamlen : ℕ
devnamlen = 16

-- A row of `devtab`: the address of the name, and the driver's functions.
pub record Dentry : Type 0 where
  pub dvname : ℕ
  pub dvinit : Cmd ℤ
  pub dvopen : ℕ → ℕ → Cmd ℤ
  pub dvclose : Cmd ℤ
  pub dvread : ℕ → ℕ → Cmd ℤ
  pub dvwrite : ℕ → ℕ → Cmd ℤ
  pub dvseek : ℕ → Cmd ℤ
  pub dvgetc : Cmd ℤ
  pub dvputc : ℕ → Cmd ℤ
  pub dvcntl : ℤ → ℤ → ℤ → Cmd ℤ

unfoldable pub isbaddev : ℤ → Bool
isbaddev f = ltb_ℤ f (pos 0) || leb_ℤ (pos ndevs) f

module _ (devtab : ℕ → Dentry) where
  unfoldable pub init : ℤ → Cmd ℤ
  init descrp =
      if isbaddev descrp then pure syserr else do i ← index ndevs descrp; (devtab i).dvinit

  unfoldable pub dopen : ℤ → ℕ → ℕ → Cmd ℤ
  dopen descrp name mode =
      if isbaddev descrp
      then pure syserr
      else do i ← index ndevs descrp; (devtab i).dvopen name mode

  unfoldable pub close : ℤ → Cmd ℤ
  close descrp =
      if isbaddev descrp then pure syserr else do i ← index ndevs descrp; (devtab i).dvclose

  unfoldable pub read : ℤ → ℕ → ℕ → Cmd ℤ
  read descrp buffer count =
      if isbaddev descrp
      then pure syserr
      else do i ← index ndevs descrp; (devtab i).dvread buffer count

  unfoldable pub write : ℤ → ℕ → ℕ → Cmd ℤ
  write descrp buffer count =
      if isbaddev descrp
      then pure syserr
      else do i ← index ndevs descrp; (devtab i).dvwrite buffer count

  unfoldable pub seek : ℤ → ℕ → Cmd ℤ
  seek descrp offset =
      if isbaddev descrp then pure syserr else do i ← index ndevs descrp; (devtab i).dvseek offset

  unfoldable pub getc : ℤ → Cmd ℤ
  getc descrp =
      if isbaddev descrp then pure syserr else do i ← index ndevs descrp; (devtab i).dvgetc

  unfoldable pub putc : ℤ → ℕ → Cmd ℤ
  putc descrp ch =
      if isbaddev descrp then pure syserr else do i ← index ndevs descrp; (devtab i).dvputc ch

  unfoldable pub control : ℤ → ℤ → ℤ → ℤ → Cmd ℤ
  control descrp func arg1 arg2 =
      if isbaddev descrp
      then pure syserr
      else do i ← index ndevs descrp; (devtab i).dvcntl func arg1 arg2

  -- The search of `getdev`, from device `id` on: the first row whose name differs.
  unfoldable pub getdev_loop : ℕ → ℕ → Memory → ℕ → ℤ
  getdev_loop zero id m devname = syserr
  getdev_loop (suc left) id m devname =
      let rest = getdev_loop left (id + 1) m devname in
      if eqb_ℤ (strncmp m devname (devtab id).dvname (pos devnamlen)) (pos 0) then rest else pos id

  unfoldable pub getdev : Memory → ℕ → ℤ
  getdev m devname = getdev_loop ndevs 0 m devname

-- The driver of a device without one, and of an operation that a device does not have.
unfoldable pub ionull : Cmd ℤ
ionull = pure ok

unfoldable pub ioerr : Cmd ℤ
ioerr = pure syserr
