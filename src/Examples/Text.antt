-- ===== src/Examples/Text.antt =====
-- The theorems about the C library at a few bytes of memory.
use xinu_c_mips.Base.{
  pos, negsuc, ℕ, ◌+◌, ◌≡◌, ◌↔◌, refl, inl, inr, List, [], ◌∷◌, take, some, update, arith,
  to_uint32,
}
use xinu_c_mips.Libxc.{Memory, strstr, strncmp, strncat, strncpy}
use xinu_c_mips.Libxc.Text.{Str}
use xinu_c_mips.Libxc.Searching.{locate, strstr-locate}
use xinu_c_mips.Libxc.Comparing.{strncmp-take}
use xinu_c_mips.Libxc.Copying.{Appended, strncat-Appended, Padded, strncpy-Padded}
use xinu_c_mips.Libxc.Number.{
  atoi, prtl10, prtl16, print_temp, decimal_temp, decimal_cells, highest, copy_down,
}
use xinu_c_mips.Libxc.Number.Writing.{hex_value}
use xinu_c_mips.Libxc.Number.Spelling.{Spelled, IsHex, prtl16-Spelled}
use xinu_c_mips.Libxc.Number.RoundTrip.{atoi-prtl10}

-- Bytes from an address on, and zeros elsewhere.
abbrev pub bytes : ℕ → List ℕ → Memory
bytes s [] = λ _. 0
bytes s (x ∷ xs) = update (bytes (s + 1) xs) s x

-- "abab" at 100, "ba" at 200
abbrev words : Memory
words = update (update (bytes 100 (97 ∷ 98 ∷ 97 ∷ 98 ∷ [])) 200 98) 201 97

abab : Str words 100 (97 ∷ 98 ∷ 97 ∷ 98 ∷ [])
unfolding update
abab = (
  refl,
  omega arith,
  omega arith,
  (
    refl,
    omega arith,
    omega arith,
    (refl, omega arith, omega arith, (refl, omega arith, omega arith, refl)),
  ),
)

ba : Str words 200 (98 ∷ 97 ∷ [])
unfolding update
ba = (refl, omega arith, omega arith, (refl, omega arith, omega arith, refl))

strstr-locate_example :
    strstr words 100 200 ≡ some (locate 100 (98 ∷ 97 ∷ []) (97 ∷ 98 ∷ 97 ∷ 98 ∷ []))
strstr-locate_example =
    strstr-locate words 100 200 (97 ∷ 98 ∷ 97 ∷ 98 ∷ []) (98 ∷ 97 ∷ []) (omega arith) abab ba

strncmp-take_example :
    strncmp words 100 200 (pos 3) ≡ pos 0
    ↔ take {A = ℕ} 3 (97 ∷ 98 ∷ 97 ∷ 98 ∷ []) ≡ take {A = ℕ} 3 (98 ∷ 97 ∷ [])
strncmp-take_example = strncmp-take words 3 100 200 (97 ∷ 98 ∷ 97 ∷ 98 ∷ []) (98 ∷ 97 ∷ []) abab ba

strncat-Appended_example :
    Appended words 100 (97 ∷ 98 ∷ 97 ∷ 98 ∷ []) (98 ∷ 97 ∷ []) 1 (strncat words 100 200 (pos 1))
strncat-Appended_example =
    strncat-Appended words 1 100 200 (97 ∷ 98 ∷ 97 ∷ 98 ∷ []) (98 ∷ 97 ∷ []) (omega arith)
      (inl (omega arith)) abab ba

strncpy-Padded_example : Padded words (strncpy words 300 200 (pos 5)) 300 5 (98 ∷ 97 ∷ [])
strncpy-Padded_example = strncpy-Padded words 5 300 200 (98 ∷ 97 ∷ []) (inr (omega arith)) ba

prtl16-Spelled_example : Spelled IsHex hex_value 16 8 (prtl16 (negsuc 0)) (to_uint32 (negsuc 0))
prtl16-Spelled_example = prtl16-Spelled (negsuc 0) (omega arith, omega arith)

-- "-120" at 100
atoi-prtl10_example : atoi (bytes 100 (45 ∷ 49 ∷ 50 ∷ 48 ∷ [])) 100 ≡ some (negsuc 119)
unfolding update prtl10 print_temp decimal_temp decimal_cells highest copy_down
atoi-prtl10_example =
    atoi-prtl10 (bytes 100 (45 ∷ 49 ∷ 50 ∷ 48 ∷ [])) 100 (negsuc 119) (omega arith, omega arith)
      (refl, (refl, (refl, (refl, (refl, tt)))))
