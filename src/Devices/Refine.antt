-- ===== src/Devices/Refine.antt =====
-- The linked list against a plain list of devices: registering, removing and searching.
use mathlib.Core.Path.{subst}
use mathlib.Core.Option.{map}
use minimalist_os.Base.{
  ℕ, ◌+◌, ◌*◌, ◌≤◌, ◌<◌, ◌≡◌, ◌⊎◌, refl, sym, ap, ◌∙◌, List, ◌∷◌, take, if◌then◌else◌, true, false,
  Option, none, some, ◌==◌, arith, length, inl, inr, success, failure, ℤ,
}
use minimalist_os.Base.Bitmap.{is_used, count_used-le}
use minimalist_os.CString.Copy.{text-store_name}
use minimalist_os.CString.{text}
use minimalist_os.Memory.{Memory, max_pages, page_size, alloc_page, free_page}
use minimalist_os.Memory.Pages.{IsValid, alloc_page_lem, free_page_lem}
use minimalist_os.Devices.{
  DeviceInfo, DeviceOps, Devices, has_name, has_number, device_find, device_find_by_number,
  device_register, device_unregister, new_info,
}
use minimalist_os.Devices.Chain.{
  Entry, Chain, Apart, Distinct, IsPage, InPages, first_match, remove_first, find_node-Chain,
  length-remove_first, Distinct-remove_first, removed-Apart, InPages-remove_first,
  first_match-IsPage,
}
use minimalist_os.Devices.Nodes.{
  InPages-mono, InPages-freed, Apart-free, push-Chain, Allocated-IsPage,
}
use minimalist_os.Devices.Unlink.{unlink-head}

-- What the linked list stands for: these devices, each in a page of its own that is in use. There are
-- fewer of them than pages in use, since page 0 holds none.
pub record Lists {D : Type 0} (s : Devices D) (m : Memory) (ds : List (Entry D)) : Type 0 where
  pub chain : Chain s.nodes s.device_list ds
  pub distinct : Distinct ds
  pub pages : InPages m ds
  pub fewer : length ds < m.used_pages
  pub memory : IsValid m

module _ {D : Type 0} where
  freed :
      (m : Memory) (e : Entry D) (ds ds' : List (Entry D))
      → IsValid m
      → IsPage m e.0
      → Apart e.0 ds'
      → InPages m ds'
      → length ds' + 1 ≡ length ds
      → length ds < m.used_pages
      → InPages (free_page e.0 m) ds'
        × (length ds' < (free_page e.0 m).used_pages)
        × IsValid (free_page e.0 m)
  freed m e ds ds' v page apart pages shorter few =
      let f = free_page_lem e.0 m v page.in_range page.not_first page.used in
      (InPages-freed m (free_page e.0 m) e.0 ds' page f.0 apart pages, omega (arith, f.1), f.2)

  -- What `device_unregister` does to the list.
  abbrev pub Removed :
      List ℕ → Devices D → Memory → List (Entry D) → ℤ × Devices D × Memory → Type 0
  Removed name s m ds (status, s', m') =
      (status ≡ failure) × (s' ≡ s) × (m' ≡ m) × (first_match (has_name name) ds ≡ none)
      ⊎ (status ≡ success)
        × ((e : Entry D) × (first_match (has_name name) ds ≡ some e) × (m' ≡ free_page e.0 m))
        × Lists s' m' (remove_first (has_name name) ds)

  Removed-unlink :
      (name : List ℕ) (s s' : Devices D) (m : Memory) (ds : List (Entry D)) (e : Entry D)
      → Lists s m ds
      → first_match (has_name name) ds ≡ some e
      → Chain s'.nodes s'.device_list (remove_first (has_name name) ds)
      → Removed name s m ds (success, s', free_page e.0 m)
  Removed-unlink name s s' m ds e l found chain =
      let test = has_name name in
      let f =
        freed m e ds (remove_first test ds) l.memory (first_match-IsPage test m ds e l.pages found)
          (removed-Apart test ds e l.distinct found) (InPages-remove_first test m ds l.pages)
          (length-remove_first test ds e found) l.fewer in
      inr (
        refl,
        (e, found, refl),
        record {
          chain = chain;
          distinct = Distinct-remove_first test ds l.distinct;
          pages = f.0;
          fewer = f.1;
          memory = f.2;
        },
      )

  Lists-enough :
      (s : Devices D) (m : Memory) (ds : List (Entry D)) → Lists s m ds → length ds < max_pages
  Lists-enough s m ds l =
      omega (arith, l.fewer, l.memory.counted, count_used-le m.page_bitmap 0 max_pages)

  -- Removing by name removes the first device of that name and gives its page back; where no device
  -- has the name it fails and changes nothing.
  pub device_unregister_lem :
      (name : List ℕ) (s : Devices D) (m : Memory) (ds : List (Entry D))
      → Lists s m ds
      → Removed name s m ds (device_unregister name s m)
  unfolding device_unregister
  device_unregister_lem name s m ds l =
      elim (unlink-head max_pages name s.device_list s ds l.distinct l.chain refl
        (Lists-enough s m ds l)) [
          | inl (ends, gone) ↦ rw (ends, device_unregister) (inl (refl, refl, refl, gone))
          | inr (e, s', ends, found, chain) ↦
              rw (ends, device_unregister) (Removed-unlink name s s' m ds e l found chain)
        ]

  -- A search by name or by number comes to an end within the `max_pages` rounds that it is given: it
  -- finds the page of the first device of the list that has the name or the number, or none.
  pub device_find_lem :
      (name : List ℕ) (major minor : ℕ) (s : Devices D) (m : Memory) (ds : List (Entry D))
      → Lists s m ds
      → (device_find name s ≡ map (λ e. e.0) (first_match (has_name name) ds))
        × (device_find_by_number major minor s
            ≡ map (λ e. e.0) (first_match (has_number major minor) ds))
  unfolding device_find device_find_by_number
  device_find_lem name major minor s m ds l =
      let enough = Lists-enough s m ds l in
      (
        find_node-Chain (has_name name) s.nodes max_pages s.device_list ds l.chain enough,
        find_node-Chain (has_number major minor) s.nodes max_pages s.device_list ds l.chain enough,
      )

  -- The new device stands first.
  abbrev pub Pushed :
      DeviceInfo D → Devices D → Memory → List (Entry D) → ℤ × Devices D × Memory → Type 0
  Pushed d s m ds (status, s', m') =
      (status ≡ failure)
        × (s' ≡ s)
        × (m' ≡ m)
        × ((j : ℕ) → j < max_pages → is_used m.page_bitmap j ≡ true)
      ⊎ (status ≡ success) × (m' ≡ (alloc_page m).1) × Lists s' m' (((alloc_page m).0, d) ∷ ds)

  pub device_register-Pushed :
      (name : List ℕ) (type major minor : ℕ) (ops : Option (DeviceOps D)) (s : Devices D)
      (m : Memory) (ds : List (Entry D))
      → Lists s m ds
      → let old = (s.nodes (alloc_page m).0).info.name in
        Pushed
          (new_info old name type major minor ops)
          s
          m
          ds
          (device_register name type major minor ops s m)
  unfolding device_register
  device_register-Pushed name type major minor ops s m ds l =
      let (outcome, v) = alloc_page_lem m l.memory in
      elim outcome [
        | inl (a, real) ↦
            let other : ((alloc_page m).0 == 0) ≡ false = ground arith in
            let apart : Apart (alloc_page m).0 ds =
              subst (λ b. Apart b ds) (sym a.address) (Apart-free m a.page ds a.was_free l.pages) in
            rw other (
              inr (
                refl,
                refl,
                record {
                  chain =
                      push-Chain s.nodes (alloc_page m).0 s.device_list
                        (new_info (s.nodes (alloc_page m).0).info.name name type major minor ops) ds
                        (omega (arith, real)) apart l.chain;
                  distinct = (apart, l.distinct);
                  pages = (
                    Allocated-IsPage m (alloc_page m).0 (alloc_page m).1 a (omega (arith, real)),
                    InPages-mono m (alloc_page m).1 ds (λ j used. ground (arith, a.now j, used))
                        l.pages,
                  );
                  fewer = omega (arith, l.fewer, a.one_more);
                  memory = v;
                },
              ))
        | inr (null, same, full) ↦ rw null (inl (refl, refl, same, full))
      ]

  -- A device with what the caller has given: the name is cut to 31 characters.
  pub record Describes (name : List ℕ) (type major minor : ℕ) (ops : Option (DeviceOps D))
      (d : DeviceInfo D) : Type 0 where
    pub named : text d.name ≡ take 31 (text name)
    pub type_kept : d.type ≡ type
    pub major_kept : d.major ≡ major
    pub minor_kept : d.minor ≡ minor
    pub ops_kept : d.ops ≡ ops

  new_info-Describes :
      (old name : List ℕ) (type major minor : ℕ) (ops : Option (DeviceOps D))
      → 32 ≤ length old
      → Describes name type major minor ops (new_info old name type major minor ops)
  unfolding new_info
  new_info-Describes old name type major minor ops room = record {
    named = text-store_name 32 old name (omega arith) room;
    type_kept = refl;
    major_kept = refl;
    minor_kept = refl;
    ops_kept = refl;
  }

  -- The caller's device stands first, in a page that was free and is now in use.
  pub record Added (name : List ℕ) (type major minor : ℕ) (ops : Option (DeviceOps D)) (m : Memory)
      (ds : List (Entry D)) (s' : Devices D) (m' : Memory) : Type 0 where
    pub page : ℕ
    pub info : DeviceInfo D
    pub describes : Describes name type major minor ops info
    pub was_free : is_used m.page_bitmap page ≡ false
    pub now :
        (j : ℕ) → is_used m'.page_bitmap j ≡ (if page == j then true else is_used m.page_bitmap j)
    pub lists : Lists s' m' ((page * page_size, info) ∷ ds)

  -- What `device_register` does to the list.
  abbrev pub Registered :
      List ℕ
      → ℕ
      → ℕ
      → ℕ
      → Option (DeviceOps D)
      → Devices D
      → Memory
      → List (Entry D)
      → ℤ × Devices D × Memory
      → Type 0
  Registered name type major minor ops s m ds (status, s', m') =
      (status ≡ failure)
        × (s' ≡ s)
        × (m' ≡ m)
        × ((j : ℕ) → j < max_pages → is_used m.page_bitmap j ≡ true)
      ⊎ (status ≡ success) × Added name type major minor ops m ds s' m'

  -- Registering puts a device with the caller's name, cut to 31 characters, its type, its two numbers
  -- and its operations first in the list, in a page that was free and is now in use; it fails, and
  -- changes nothing, where no page is free. The name's field of the new page has 32 bytes.
  pub device_register_lem :
      (name : List ℕ) (type major minor : ℕ) (ops : Option (DeviceOps D)) (s : Devices D)
      (m : Memory) (ds : List (Entry D))
      → Lists s m ds
      → 32 ≤ length (s.nodes (alloc_page m).0).info.name
      → Registered name type major minor ops s m ds (device_register name type major minor ops s m)
  device_register_lem name type major minor ops s m ds l room =
      let old = (s.nodes (alloc_page m).0).info.name in
      let (status, s', m') = device_register name type major minor ops s m in
      elim (device_register-Pushed name type major minor ops s m ds l) [
        | inl failed ↦ inl failed
        | inr (ok, taken, lists) ↦ elim (alloc_page_lem m l.memory).0 [
          | inr (null, same, full) ↦ absurd (omega (arith, null, lists.pages.0.not_first))
          | inl (a, real) ↦ inr (
            ok,
            record {
              page = a.page;
              info = new_info old name type major minor ops;
              describes = new_info-Describes old name type major minor ops room;
              was_free = a.was_free;
              now = λ j. ap (λ t. is_used t.page_bitmap j) taken ∙ a.now j;
              lists =
                  subst (λ p. Lists s' m' ((p, new_info old name type major minor ops) ∷ ds))
                    a.address lists;
            },
          )
        ]
      ]
