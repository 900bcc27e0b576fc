-- ===== src/Devices/Nodes.antt =====
-- Writes to a node, and the pages that the devices lie in.
use mathlib.Core.Path.{subst}
use minimalist_os.Base.{
  ℕ, ◌*◌, ◌/◌, ◌≡◌, ◌≢◌, refl, sym, ap, ◌∙◌, List, [], ◌∷◌, true, false, ◌==◌, if◌then◌else◌, arith,
}
use minimalist_os.Base.Bitmap.{is_used}
use minimalist_os.Memory.{Memory, page_size}
use minimalist_os.Memory.Pages.{Allocated}
use minimalist_os.Devices.{DeviceInfo, Node, update}
use minimalist_os.Devices.Chain.{Entry, Chain, Apart, IsPage, InPages}

pub Allocated-IsPage :
    (m : Memory) (addr : ℕ) (m' : Memory) → Allocated m addr m' → addr ≢ 0 → IsPage m' addr
Allocated-IsPage m addr m' a real =
    let number : addr / page_size ≡ a.page = omega (arith, a.address) in
    record {
      aligned = omega (arith, a.address);
      not_first = omega (arith, a.address);
      in_range = omega (arith, number, a.in_range);
      used = rw number (ground (arith, a.now a.page));
    }

module _ {D : Type 0} where
  pub Chain-update :
      (nodes : ℕ → Node D) (a p : ℕ) (n : Node D) (ds : List (Entry D))
      → Apart a ds
      → Chain nodes p ds
      → Chain (update nodes a n) p ds
  unfolding update
  Chain-update nodes a p n [] apart null = null
  Chain-update nodes a p n ((b, d) ∷ ds) (ne, apart) (here, real, info, rest) =
      let other : (a == b) ≡ false = ground arith in
      let ih = Chain-update nodes a (nodes b).next n ds apart rest in
      let same : update nodes a n b ≡ nodes b = rw other refl in
      (
        here,
        real,
        rw other info,
        subst (λ t. Chain (update nodes a n) t ds) (ap (λ t. t.next) (sym same)) ih,
      )

  pub InPages-mono :
      (m m' : Memory) (ds : List (Entry D))
      → ((j : ℕ) → is_used m.page_bitmap j ≡ true → is_used m'.page_bitmap j ≡ true)
      → InPages m ds
      → InPages m' ds
  InPages-mono m m' [] keeps pages = pages
  InPages-mono m m' ((a, d) ∷ ds) keeps (page, pages) = (
    record {
      aligned = page.aligned;
      not_first = page.not_first;
      in_range = page.in_range;
      used = keeps (a / page_size) page.used;
    },
    InPages-mono m m' ds keeps pages,
  )

  -- After page `k` was freed.
  pub InPages-freed :
      (m m' : Memory) (b : ℕ) (ds : List (Entry D))
      → IsPage m b
      → ((j : ℕ)
          → is_used m'.page_bitmap j
            ≡ (if b / page_size == j then false else is_used m.page_bitmap j))
      → Apart b ds
      → InPages m ds
      → InPages m' ds
  InPages-freed m m' b [] at now apart pages = pages
  InPages-freed m m' b ((a, d) ∷ ds) at now (ne, apart) (page, pages) =
      let other : (b / page_size == a / page_size) ≡ false =
        ground (arith, page.aligned, at.aligned) in
      (
        record {
          aligned = page.aligned;
          not_first = page.not_first;
          in_range = page.in_range;
          used = now (a / page_size) ∙ rw other page.used;
        },
        InPages-freed m m' b ds at now apart pages,
      )

  -- A page that was free holds no device.
  pub Apart-free :
      (m : Memory) (k : ℕ) (ds : List (Entry D))
      → is_used m.page_bitmap k ≡ false
      → InPages m ds
      → Apart (k * page_size) ds
  Apart-free m k [] free pages = record {}
  Apart-free m k ((a, d) ∷ ds) free (page, pages) = (
    λ same.
        (let number : a / page_size ≡ k = omega arith in
          let taken = subst (λ j. is_used m.page_bitmap j ≡ true) number page.used in
          cc (taken, free)),
    Apart-free m k ds free pages,
  )

  pub push-Chain :
      (nodes : ℕ → Node D) (a p : ℕ) (d : DeviceInfo D) (ds : List (Entry D))
      → a ≢ 0
      → Apart a ds
      → Chain nodes p ds
      → Chain (update nodes a (record { info = d; next = p })) a ((a, d) ∷ ds)
  unfolding update
  push-Chain nodes a p d ds real apart chain =
      let self : (a == a) ≡ true = ground arith in
      let n : Node D = record { info = d; next = p } in
      let same : update nodes a n a ≡ n = rw self refl in
      (
        refl,
        real,
        ap (λ t. t.info) same,
        subst (λ t. Chain (update nodes a n) t ds) (ap (λ t. t.next) (sym same))
            (Chain-update nodes a p n ds apart chain),
      )
