-- ===== src/CString/Compare.antt =====
-- What `strcmp`, `strncmp` and `strlen` compute, in terms of the bytes before the terminator.
use minimalist_os.Base.{ℕ, zero, suc, ◌≡◌, refl, ◌↔◌, List, [], ◌∷◌, pos, arith, length, take}
use minimalist_os.CString.{text, strlen, strcmp, strncmp}

-- `strlen` counts the bytes of the text.
pub strlen_lem : (s : List ℕ) → strlen s ≡ length (text s)
unfolding strlen text
strlen_lem [] = refl
strlen_lem (c ∷ s) = ground (arith, strlen_lem s)

strcmp-to : (s t : List ℕ) → strcmp s t ≡ pos 0 → text s ≡ text t
unfolding strcmp text
strcmp-to [] [] h = refl
strcmp-to [] (b ∷ t) h = ground arith
strcmp-to (a ∷ s) [] h = ground arith
strcmp-to (a ∷ s) (b ∷ t) h = ground (arith, strcmp-to s t)

strcmp-from : (s t : List ℕ) → text s ≡ text t → strcmp s t ≡ pos 0
unfolding strcmp text
strcmp-from [] [] h = refl
strcmp-from [] (b ∷ t) h = ground arith
strcmp-from (a ∷ s) [] h = ground arith
strcmp-from (a ∷ s) (b ∷ t) h = ground (arith, strcmp-from s t)

-- `strcmp` returns 0 exactly when the two strings have the same bytes before their terminators.
pub strcmp-zero_iff : (s t : List ℕ) → (strcmp s t ≡ pos 0) ↔ (text s ≡ text t)
strcmp-zero_iff s t = (strcmp-to s t, strcmp-from s t)

-- `strncmp` is 0 exactly when the first `n` bytes of the texts agree.
strncmp-to : (s t : List ℕ) (n : ℕ) → strncmp s t n ≡ pos 0 → take n (text s) ≡ take n (text t)
unfolding strncmp text
strncmp-to s t zero h = refl
strncmp-to [] [] (suc n) h = refl
strncmp-to [] (b ∷ t) (suc n) h = ground arith
strncmp-to (a ∷ s) [] (suc n) h = ground arith
strncmp-to (a ∷ s) (b ∷ t) (suc n) h = ground (arith, strncmp-to s t n)

strncmp-from : (s t : List ℕ) (n : ℕ) → take n (text s) ≡ take n (text t) → strncmp s t n ≡ pos 0
unfolding strncmp text
strncmp-from s t zero h = refl
strncmp-from [] [] (suc n) h = refl
strncmp-from [] (b ∷ t) (suc n) h = ground arith
strncmp-from (a ∷ s) [] (suc n) h = ground arith
strncmp-from (a ∷ s) (b ∷ t) (suc n) h = ground (arith, strncmp-from s t n)

-- `strncmp(s, t, n)` returns 0 exactly when the texts agree in their first `n` bytes.
pub strncmp-zero_iff :
    (s t : List ℕ) (n : ℕ) → (strncmp s t n ≡ pos 0) ↔ (take n (text s) ≡ take n (text t))
strncmp-zero_iff s t n = (strncmp-to s t n, strncmp-from s t n)
