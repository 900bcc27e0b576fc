-- ===== src/CString.antt =====
-- kernel/string.c: the string and memory routines of the kernel.
-- A `char` array is a list of bytes. A string in it ends at its first 0, or at the end of the
-- list, which stands for a terminator that the array does not show.
pub mod Compare
pub mod Copy
pub mod Itoa
mod Tests
use minimalist_os.Base.{
  ℕ, zero, suc, List, [], ◌∷◌, Bool, true, false, not, ◌&&◌, ℤ, pos, sub_ℕ, ◌==◌, if◌then◌else◌,
  set, ◌-◌,
}

-- The bytes of a string, without its terminator.
unfoldable pub text : List ℕ → List ℕ
text [] = []
text (c ∷ s) = let rest = text s in if c == 0 then [] else c ∷ rest

-- `memset(s, c, n)`; the conversion to `unsigned char` is the `% 256` of its callers' constants.
unfoldable pub memset : List ℕ → ℕ → ℕ → List ℕ
memset s c zero = s
memset [] c (suc n) = []
memset (_ ∷ s) c (suc n) = c ∷ memset s c n

-- `memcpy(dest, src, n)`. Past the end of either array it stops: callers prove that they stay in.
unfoldable pub memcpy {ℓ} : {A : Type ℓ} → List A → List A → ℕ → List A
memcpy dest src zero = dest
memcpy [] src (suc n) = []
memcpy (x ∷ dest) [] (suc n) = x ∷ dest
memcpy (_ ∷ dest) (c ∷ src) (suc n) = c ∷ memcpy dest src n

unfoldable pub memcmp : List ℕ → List ℕ → ℕ → ℤ
memcmp p q zero = pos 0
memcmp [] q (suc n) = pos 0
memcmp (a ∷ p) [] (suc n) = pos 0
memcmp (a ∷ p) (b ∷ q) (suc n) = let rest = memcmp p q n in if a == b then rest else sub_ℕ a b

unfoldable pub strlen : List ℕ → ℕ
strlen [] = 0
strlen (c ∷ s) = let rest = strlen s in if c == 0 then 0 else suc rest

unfoldable pub strcmp : List ℕ → List ℕ → ℤ
strcmp [] [] = pos 0
strcmp [] (b ∷ t) = sub_ℕ 0 b
strcmp (a ∷ s) [] = sub_ℕ a 0
strcmp (a ∷ s) (b ∷ t) = let rest = strcmp s t in if not (a == 0) && a == b then rest else sub_ℕ a b

unfoldable pub strncmp : List ℕ → List ℕ → ℕ → ℤ
strncmp s t zero = pos 0
strncmp [] [] (suc n) = pos 0
strncmp [] (b ∷ t) (suc n) = sub_ℕ 0 b
strncmp (a ∷ s) [] (suc n) = sub_ℕ a 0
strncmp (a ∷ s) (b ∷ t) (suc n) =
    let rest = strncmp s t n in if not (a == b) then sub_ℕ a b else if a == 0 then pos 0 else rest

unfoldable pub strcpy : List ℕ → List ℕ → List ℕ
strcpy [] src = []
strcpy (_ ∷ dest) [] = 0 ∷ dest
strcpy (_ ∷ dest) (c ∷ src) = let rest = strcpy dest src in c ∷ (if c == 0 then dest else rest)

-- The first loop finds the terminator of `dest`, the second copies there.
unfoldable pub strcat : List ℕ → List ℕ → List ℕ
unfolding strcpy
strcat [] src = []
strcat (d ∷ dest) src =
    let rest = strcat dest src in if d == 0 then strcpy (d ∷ dest) src else d ∷ rest

-- Once the source has ended, the rest of the `n` bytes is filled with 0.
unfoldable pub strncpy : List ℕ → List ℕ → ℕ → List ℕ
strncpy dest src zero = dest
strncpy [] src (suc n) = []
strncpy (_ ∷ dest) [] (suc n) = 0 ∷ strncpy dest [] n
strncpy (_ ∷ dest) (c ∷ src) (suc n) = c ∷ strncpy dest (if c == 0 then [] else src) n

-- The pair of lines `strncpy(dst, src, n - 1); dst[n - 1] = '\0';` by which names are stored.
unfoldable pub store_name : ℕ → List ℕ → List ℕ → List ℕ
unfolding strncpy
store_name n dest src = set (strncpy dest src (n - 1)) (n - 1) 0
