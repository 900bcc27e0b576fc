-- ===== src/CString/Copy.antt =====
-- What the copying routines leave behind.
use minimalist_os.Base.{
  ℕ, zero, suc, ◌+◌, ◌-◌, ◌≤◌, ◌<◌, ◌≡◌, refl, ap, List, [], ◌∷◌, ◌++◌, arith, length, take, drop,
  set, replicate, length-set,
}
use minimalist_os.CString.{text, strlen, memset, memcpy, strcpy, strcat, strncpy, store_name}

pub memcpy_lem {ℓ} :
    {A : Type ℓ} (dest src : List A) (n : ℕ)
    → n ≤ length dest
    → n ≤ length src
    → memcpy dest src n ≡ take n src ++ drop n dest
unfolding memcpy
memcpy_lem dest src zero h k = refl
memcpy_lem [] src (suc n) h k = absurd (omega arith)
memcpy_lem (x ∷ dest) [] (suc n) h k = absurd (omega arith)
memcpy_lem (x ∷ dest) (c ∷ src) (suc n) h k =
    ap (λ ys. c ∷ ys) (memcpy_lem dest src n (omega arith) (omega arith))

pub length-memcpy {ℓ} :
    {A : Type ℓ} (dest src : List A) (n : ℕ) → length (memcpy dest src n) ≡ length dest
unfolding memcpy
length-memcpy dest src zero = refl
length-memcpy [] src (suc n) = refl
length-memcpy (x ∷ dest) [] (suc n) = refl
length-memcpy (x ∷ dest) (c ∷ src) (suc n) = ap suc (length-memcpy dest src n)

pub memset_lem : (s : List ℕ) (c n : ℕ) → n ≤ length s → memset s c n ≡ replicate n c ++ drop n s
unfolding memset
memset_lem s c zero h = refl
memset_lem [] c (suc n) h = absurd (omega arith)
memset_lem (x ∷ s) c (suc n) h = ap (λ ys. c ∷ ys) (memset_lem s c n (omega arith))

pub length-memset : (s : List ℕ) (c n : ℕ) → length (memset s c n) ≡ length s
unfolding memset
length-memset s c zero = refl
length-memset [] c (suc n) = refl
length-memset (x ∷ s) c (suc n) = ap suc (length-memset s c n)

-- `strcpy` reproduces the source text where the destination has room for it and its terminator.
pub text-strcpy : (dest src : List ℕ) → strlen src < length dest → text (strcpy dest src) ≡ text src
unfolding text strlen strcpy
text-strcpy [] src h = absurd (omega arith)
text-strcpy (x ∷ dest) [] h = refl
text-strcpy (x ∷ dest) (c ∷ src) h = ground (arith, text-strcpy dest src)

-- `strcat` appends the source text where the destination has room for both.
text-strcat :
    (dest src : List ℕ)
    → strlen dest + strlen src < length dest
    → text (strcat dest src) ≡ text dest ++ text src
unfolding text strlen strcat
text-strcat [] src h = absurd (omega arith)
text-strcat (x ∷ dest) src h = ground (arith, text-strcat dest src, text-strcpy (x ∷ dest) src)

-- A name stored in a field of `n` bytes is the source's text, cut to `n - 1` bytes.
pub store_lem :
    (n : ℕ) (dest src : List ℕ)
    → n < length dest
    → text (set (strncpy dest src n) n 0) ≡ take n (text src)
unfolding text strncpy
store_lem zero [] src h = refl
store_lem zero (x ∷ dest) src h = refl
store_lem (suc n) [] src h = absurd (omega arith)
store_lem (suc n) (x ∷ dest) [] h = refl
store_lem (suc n) (x ∷ dest) (c ∷ src) h = ground (arith, store_lem n dest src)

-- Copying a name into a field of `n` bytes stores the source's text, cut to `n - 1` bytes, and the
-- field keeps its terminator, where the field has `n` bytes and `n` is positive.
pub text-store_name :
    (n : ℕ) (dest src : List ℕ)
    → 0 < n
    → n ≤ length dest
    → text (store_name n dest src) ≡ take (n - 1) (text src)
unfolding store_name
text-store_name n dest src p h = store_lem (n - 1) dest src (omega arith)

length-strncpy : (dest src : List ℕ) (n : ℕ) → length (strncpy dest src n) ≡ length dest
unfolding strncpy
length-strncpy dest src zero = refl
length-strncpy [] src (suc n) = refl
length-strncpy (x ∷ dest) [] (suc n) = ap suc (length-strncpy dest [] n)
length-strncpy (x ∷ dest) (c ∷ src) (suc n) = ap suc (length-strncpy dest _ n)

pub length-store_name : (n : ℕ) (dest src : List ℕ) → length (store_name n dest src) ≡ length dest
unfolding store_name
length-store_name n dest src =
    omega (arith, length-set (strncpy dest src (n - 1)) (n - 1) 0, length-strncpy dest src (n - 1))

-- What `memcpy` wrote is what stands at the front.
pub take-memcpy {ℓ} :
    {A : Type ℓ} (dest src : List A) (n : ℕ)
    → n ≤ length dest
    → n ≤ length src
    → take n (memcpy dest src n) ≡ take n src
unfolding memcpy
take-memcpy dest src zero h k = refl
take-memcpy [] src (suc n) h k = absurd (omega arith)
take-memcpy (x ∷ dest) [] (suc n) h k = absurd (omega arith)
take-memcpy (x ∷ dest) (c ∷ src) (suc n) h k =
    ap (λ ys. c ∷ ys) (take-memcpy dest src n (omega arith) (omega arith))
