-- ===== src/BlockDevice/Disk.antt =====
-- The device as a disk of eight blocks.
use minimalist_os.Base.{
  ℕ, zero, suc, ◌+◌, ◌*◌, ◌≤◌, ◌<◌, ◌≡◌, ◌≢◌, refl, sym, ap, ◌∙◌, List, [], ◌∷◌, ◌++◌, none, some,
  true, false, inl, inr, ℤ, pos, success, failure, ltb, ◌==◌, if◌then◌else◌, take, drop, length,
  replicate, take_self, arith, Bool-cases, length-replicate, length-drop,
}
use minimalist_os.Base.Copy.{
  copy_at, slice, length-copy_at, slice-copy_at_self, slice-copy_at_below, slice-copy_at_above,
}
use minimalist_os.BlockDevice.{
  BlockDevice, block_open, with_page, block_read, block_write, block_ioctl, access_size,
}
use minimalist_os.CString.Copy.{take-memcpy, length-memcpy, length-memset, memset_lem}
use minimalist_os.CString.{memcpy}
use minimalist_os.Memory.{alloc_page}
use minimalist_os.Vfs.{to_int}

-- Calls that a user of the device makes: to choose a block, and to read or write all of it.
pub data Op : Type 0 where
  seek : ℕ → Op
  load : Op
  store : List ℕ → Op

-- What a call gives back: its status, and the block that was read.
pub step : Op → BlockDevice → (ℤ × List ℕ) × BlockDevice
step (seek block) dev =
    let (status, _, dev') = block_ioctl 0 (some block) dev in ((status, []), dev')
step load dev =
    let (status, buffer, dev') = block_read (some (replicate 512 0)) 512 dev in
    ((status, elim buffer [ none ↦ [] | some b ↦ b ]), dev')
step (store block) dev =
    let (status, dev') = block_write (some block) 512 dev in ((status, []), dev')

pub run : List Op → BlockDevice → List (ℤ × List ℕ) × BlockDevice
run [] dev = ([], dev)
run (op ∷ ops) dev =
    let (r, dev') = step op dev in let (rs, dev'') = run ops dev' in (r ∷ rs, dev'')

-- A disk: its eight blocks, and the place of its head.
pub record Disk : Type 0 where
  pub head : ℕ
  pub blocks : ℕ → List ℕ

abbrev pub update : (ℕ → List ℕ) → ℕ → List ℕ → ℕ → List ℕ
update blocks k block j = if k == j then block else blocks j

pub step_disk : Op → Disk → (ℤ × List ℕ) × Disk
step_disk (seek block) d =
    if ltb block 8 then ((success, []), record d { head = block }) else ((failure, []), d)
step_disk load d = ((pos 512, d.blocks d.head), d)
step_disk (store block) d = ((pos 512, []), record d { blocks = update d.blocks d.head block })

pub run_disk : List Op → Disk → List (ℤ × List ℕ) × Disk
run_disk [] d = ([], d)
run_disk (op ∷ ops) d =
    let (r, d') = step_disk op d in let (rs, d'') = run_disk ops d' in (r ∷ rs, d'')

-- The blocks that are written are whole.
pub data AllWhole : List Op → Type 0 where
  done : AllWhole []
  sought : {k : ℕ} {ops : List Op} → AllWhole ops → AllWhole (seek k ∷ ops)
  loaded : {ops : List Op} → AllWhole ops → AllWhole (load ∷ ops)
  stored : {b : List ℕ} {ops : List Op} → length b ≡ 512 → AllWhole ops → AllWhole (store b ∷ ops)

-- An open device holds a disk in its page.
pub record Holds (dev : BlockDevice) (d : Disk) : Type 0 where
  pub page : ℕ
  pub opened : dev.start ≡ some page
  pub count : dev.block_count ≡ 8
  pub head : dev.current_block ≡ d.head
  pub in_page : d.head < 8
  pub room : 4096 ≤ length dev.medium
  pub same : (k : ℕ) → k < 8 → slice dev.medium (k * 512) 512 ≡ d.blocks k

access_size-block : (k : ℕ) → k < 8 → access_size (k * 512) 512 ≡ 512
unfolding access_size
access_size-block k h = ground arith

slice-update :
    (medium b : List ℕ) (at k : ℕ)
    → at < 8
    → k < 8
    → 4096 ≤ length medium
    → length b ≡ 512
    → slice (copy_at medium (at * 512) b 512) (k * 512) 512
      ≡ (if at == k then b else slice medium (k * 512) 512)
slice-update medium b at k in_page lt room whole = elim (Bool-cases (at == k)) [
  | inl same ↦
      let e : k ≡ at = ground arith in
      rw same (
        ap (λ j. slice (copy_at medium (at * 512) b 512) (j * 512) 512) e
        ∙ slice-copy_at_self medium (at * 512) b 512 (omega arith) (omega (arith, whole))
        ∙ take_self 512 b (omega (arith, whole)))
  | inr other ↦ elim (Bool-cases (ltb at k)) [
    | inl before ↦
        rw other (slice-copy_at_above medium (at * 512) b 512 (k * 512) 512 (ground arith))
    | inr after ↦
        rw other (slice-copy_at_below medium (at * 512) b 512 (k * 512) 512 (ground arith))
  ]
]

-- A buffer of a whole block is overwritten.
memcpy-block : (src : List ℕ) → 512 ≤ length src → memcpy (replicate 512 0) src 512 ≡ take 512 src
memcpy-block src room =
    sym (
      take_self 512 (memcpy (replicate 512 0) src 512)
        (omega (arith, length-memcpy (replicate 512 0) src 512, length-replicate {A = ℕ} 512 0)))
    ∙ take-memcpy (replicate 512 0) src 512 (omega (arith, length-replicate {A = ℕ} 512 0)) room

module _ (dev : BlockDevice) (d : Disk) (h : Holds dev d) where
  size_here : access_size (dev.current_block * 512) 512 ≡ 512
  size_here = ap (λ k. access_size (k * 512) 512) h.head ∙ access_size-block d.head h.in_page

  step_seek :
      (k : ℕ)
      → let (r, dev') = step (seek k) dev in
        let (r', d') = step_disk (seek k) d in (r ≡ r') × Holds dev' d'
  unfolding step step_disk block_ioctl
  step_seek k = elim (Bool-cases (ltb k 8)) [
    | inl inside ↦
        let known : ltb k dev.block_count ≡ true = ap (ltb k) h.count ∙ inside in
        rw (known, inside, step, block_ioctl)
          (
            refl,
            record {
              page = h.page;
              opened = h.opened;
              count = h.count;
              head = refl;
              in_page = ground arith;
              room = h.room;
              same = h.same;
            },
          )
    | inr outside ↦
        let known : ltb k dev.block_count ≡ false = ap (ltb k) h.count ∙ outside in
        rw (known, outside, step, block_ioctl) (refl, h)
  ]

  step_load :
      let (r, dev') = step load dev in let (r', d') = step_disk load d in (r ≡ r') × Holds dev' d'
  unfolding step step_disk block_read to_int
  step_load =
      let content : take 512 (drop (dev.current_block * 512) dev.medium) ≡ d.blocks d.head =
        ap (λ k. slice dev.medium (k * 512) 512) h.head ∙ h.same d.head h.in_page in
      let long : 512 ≤ length (drop (dev.current_block * 512) dev.medium) =
        omega
          (arith, length-drop (dev.current_block * 512) dev.medium, h.head, h.in_page, h.room) in
      let full = memcpy-block (drop (dev.current_block * 512) dev.medium) long ∙ content in
      rw (h.opened, size_here, step, block_read) (ap (λ b. (pos 512, b)) full, h)

  step_store :
      (b : List ℕ)
      → length b ≡ 512
      → let (r, dev') = step (store b) dev in
        let (r', d') = step_disk (store b) d in (r ≡ r') × Holds dev' d'
  unfolding step step_disk block_write to_int
  step_store b whole =
      rw (h.opened, size_here, step, block_write)
        (
          refl,
          record {
            page = h.page;
            opened = h.opened;
            count = h.count;
            head = h.head;
            in_page = h.in_page;
            room = omega (arith, h.room, length-copy_at dev.medium (dev.current_block * 512) b 512);
            same = λ k lt.
                ap (λ at. slice (copy_at dev.medium (at * 512) b 512) (k * 512) 512) h.head
                ∙ slice-update dev.medium b d.head k h.in_page lt h.room whole
                ∙ ap (λ old. if d.head == k then b else old) (h.same k lt);
          },
        )

run-run_disk :
    (ops : List Op) (dev : BlockDevice) (d : Disk)
    → AllWhole ops
    → Holds dev d
    → (run ops dev).0 ≡ (run_disk ops d).0
unfolding run run_disk
run-run_disk [] dev d done h = refl
run-run_disk (seek k ∷ ops) dev d (sought w) h =
    let (same, h') = step_seek dev d h k in
    ap (λ r. r ∷ (run ops (step (seek k) dev).1).0) same
    ∙ ap (λ rs. (step_disk (seek k) d).0 ∷ rs) (run-run_disk ops _ _ w h')
run-run_disk (load ∷ ops) dev d (loaded w) h =
    let (same, h') = step_load dev d h in
    ap (λ r. r ∷ (run ops (step load dev).1).0) same
    ∙ ap (λ rs. (step_disk load d).0 ∷ rs) (run-run_disk ops _ _ w h')
run-run_disk (store b ∷ ops) dev d (stored whole w) h =
    let (same, h') = step_store dev d h b whole in
    ap (λ r. r ∷ (run ops (step (store b) dev).1).0) same
    ∙ ap (λ rs. (step_disk (store b) d).0 ∷ rs) (run-run_disk ops _ _ w h')

-- A disk of zeros.
pub blank_disk : Disk
blank_disk = record { head = 0; blocks = λ k. replicate 512 0 }

slice-zeros :
    (n : ℕ) (rest : List ℕ) (k m : ℕ)
    → k + m ≤ n
    → slice (replicate n 0 ++ rest) k m ≡ replicate m 0
slice-zeros zero rest zero zero h = refl
slice-zeros zero rest zero (suc m) h = absurd (omega arith)
slice-zeros zero rest (suc k) m h = absurd (omega arith)
slice-zeros (suc n) rest zero zero h = refl
slice-zeros (suc n) rest zero (suc m) h =
    ap (λ xs. 0 ∷ xs) (slice-zeros n rest zero m (omega arith))
slice-zeros (suc n) rest (suc k) m h = slice-zeros n rest k m (omega arith)

with_page-Holds :
    (page : ℕ) (dev : BlockDevice)
    → 4096 ≤ length dev.medium
    → Holds (with_page page (alloc_page dev.memory).1 dev) blank_disk
unfolding with_page blank_disk
with_page-Holds page dev room =
    let cleared = memset_lem dev.medium 0 4096 room in
    record {
      page = page;
      opened = refl;
      count = refl;
      head = refl;
      in_page = omega arith;
      room = omega (arith, room, length-memset dev.medium 0 4096);
      same = λ k lt.
          ap (λ m. slice m (k * 512) 512) cleared
          ∙ slice-zeros 4096 (drop 4096 dev.medium) (k * 512) 512 (omega arith);
    }

-- A device that is closed and for which there is a free page opens, and any calls on it that read
-- and write whole blocks then give what a disk of eight blocks of zeros gives, wrong block numbers
-- included.
pub block_open-run_disk :
    (ops : List Op) (dev : BlockDevice)
    → dev.start ≡ none
    → (alloc_page dev.memory).0 ≢ 0
    → 4096 ≤ length dev.medium
    → AllWhole ops
    → let (status, dev') = block_open dev in
      (status ≡ success) × ((run ops dev').0 ≡ (run_disk ops blank_disk).0)
unfolding block_open
block_open-run_disk ops dev closed page room whole =
    let (first_page, memory) = alloc_page dev.memory in
    let found : (first_page == 0) ≡ false = ground arith in
    rw (closed, found, block_open)
      (
        refl,
        run-run_disk ops (with_page first_page memory dev) blank_disk whole
            (with_page-Holds first_page dev room),
      )
