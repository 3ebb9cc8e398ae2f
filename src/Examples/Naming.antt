-- ===== src/Examples/Naming.antt =====
-- The theorems about the namespace at a table with one prefix.
use xinu_c_mips.Base.{pos, refl, [], ◌∷◌, update, arith}
use xinu_c_mips.Namespace.{Nmentry, Names, mount, nammap}
use xinu_c_mips.Namespace.Prefix.{Entry, IsTable, Mounted, mount-Mounted}
use xinu_c_mips.Namespace.Mapping.{first_match, Mapped, nammap-Mapped}
use xinu_c_mips.Examples.Text.{bytes}

-- "~/" stands for "r:" on device 5.
abbrev home : Entry
home = record { prefix = 126 ∷ 47 ∷ []; replacement = 114 ∷ 58 ∷ []; device = pos 5 }

abbrev home_entry : Nmentry
home_entry = record {
  nprefix = bytes 0 (126 ∷ 47 ∷ []);
  nreplace = bytes 0 (114 ∷ 58 ∷ []);
  ndevice = pos 5;
}

abbrev names : Names
names = record { nametab = λ _. home_entry; nnames = 1 }

names-IsTable : IsTable names (home ∷ [])
unfolding update
names-IsTable = (
  refl,
  omega arith,
  (
    (
      (refl, omega arith, omega arith, (refl, omega arith, omega arith, refl)),
      omega arith,
      (refl, omega arith, omega arith, (refl, omega arith, omega arith, refl)),
      omega arith,
      refl,
    ),
    tt,
  ),
)

-- "/"
mount-Mounted_example :
    Mounted names
      (home ∷ [])
      (record { prefix = 47 ∷ []; replacement = []; device = pos 2 })
      (mount (bytes 0 (47 ∷ [])) (bytes 0 []) (pos 2) names)
unfolding update
mount-Mounted_example =
    mount-Mounted (bytes 0 (47 ∷ [])) (bytes 0 []) names (home ∷ [])
      (record { prefix = 47 ∷ []; replacement = []; device = pos 2 })
      (refl, omega arith, omega arith, refl) refl names-IsTable

-- "~/a"
nammap-Mapped_example :
    Mapped
      (pos 3)
      (first_match (home ∷ []) (126 ∷ 47 ∷ 97 ∷ []))
      (nammap names (bytes 0 (126 ∷ 47 ∷ 97 ∷ [])) (λ _. 0) (λ _. 0) (pos 3))
unfolding update
nammap-Mapped_example =
    nammap-Mapped names (bytes 0 (126 ∷ 47 ∷ 97 ∷ [])) (λ _. 0) (λ _. 0) (home ∷ [])
      (126 ∷ 47 ∷ 97 ∷ []) (pos 3) names-IsTable (omega arith)
      (
        refl,
        omega arith,
        omega arith,
        (refl, omega arith, omega arith, (refl, omega arith, omega arith, refl)),
      )
      (omega arith) refl
