-- ===== src/Loader/Load.antt =====
-- The loader on the kernel's own file system.
use mathlib.Core.Path.{subst}
use minimalist_os.Base.{
  ℕ, ◌<◌, ◌≡◌, refl, sym, ap, ◌∙◌, List, true, false, some, ℤ, pos, failure, ◌==◌, arith, inl, inr,
  Bool-cases,
}
use minimalist_os.Vfs.{
  Vfs, fs_open, fs_seek, fs_read, fs_close, descriptor, Descriptor, put_descriptor, max_open_files,
}
use minimalist_os.Vfs.Descriptors.{
  IsValid, fs_open_lem, fs_read-short, in_use-put_descriptor, put_descriptor-IsValid,
  fs_seek-SameUse, fs_read-SameUse, fs_close-in_use,
}
use minimalist_os.Loader.{
  FileOps, Loader, ProgramInfo, header_size, as_u32, load_file, program_load,
}

-- The file system of the kernel.
abbrev pub vfs_ops : FileOps
vfs_ops = record {
  State = Vfs;
  fs_open = fs_open;
  fs_seek = fs_seek;
  fs_read = fs_read;
  fs_close = fs_close;
}

header-short :
    (fd : ℤ) (raw : List ℕ) (s : Vfs)
    → (as_u32 (fs_read fd raw header_size s).0 == header_size) ≡ false
header-short fd raw s = elim (fs_read-short fd raw header_size s (omega arith)) [
  | inl e ↦ ap (λ z. as_u32 z == header_size) e
  | inr (n, e, short) ↦ ap (λ z. as_u32 z == header_size) e ∙ ground arith
]

load_file-vfs :
    (fd : ℤ) (raw : List ℕ) (info : ProgramInfo) (l : Loader) (s : Vfs)
    → load_file vfs_ops fd raw info l s
      ≡ (failure, info, l, (fs_close fd (fs_read fd raw header_size (fs_seek fd 0 s).1).2).1)
unfolding load_file
load_file-vfs fd raw info l s = rw (header-short fd raw (fs_seek fd 0 s).1) refl

-- The table after an open, a seek, a read and a close: the descriptor that was opened is free again.
module _ (raw : List ℕ) (n : ℕ) (s s1 : Vfs) where
  released : Vfs
  released = (fs_close (pos n) (fs_read (pos n) raw header_size (fs_seek (pos n) 0 s1).1).2).1

  released-in_use :
      IsValid s
      → n < max_open_files
      → (descriptor s n).in_use ≡ false
      → s1 ≡ put_descriptor n (record { inode = 1; offset = 0; in_use = true }) s
      → (j : ℕ) → (descriptor released j).in_use ≡ (descriptor s j).in_use
  unfolding released
  released-in_use valid lt free opened j =
      let d : Descriptor = record { inode = 1; offset = 0; in_use = true } in
      let valid1 : IsValid s1 =
        subst (λ t. IsValid t) (sym opened) (put_descriptor-IsValid n d s valid) in
      let sought = fs_seek-SameUse (pos n) 0 s1 valid1 in
      let fetched = fs_read-SameUse (pos n) raw header_size (fs_seek (pos n) 0 s1).1 sought.valid in
      let s3 = (fs_read (pos n) raw header_size (fs_seek (pos n) 0 s1).1).2 in
      fs_close-in_use n j s3 fetched.valid lt ∙ elim (Bool-cases (n == j)) [
        | inl e ↦
            let here : n ≡ j = ground arith in
            ground (arith, ap (λ t. (descriptor s t).in_use) here)
        | inr other ↦ ground (
          arith,
          fetched.use_of j,
          sought.use_of j,
          ap (λ t. (descriptor t j).in_use) opened,
          in_use-put_descriptor n j d s valid lt,
        )
      ]

-- On the kernel's file system `program_load` fails for every file name, since a read of the 52 bytes
-- of the header returns at most the 16 of the sample file. The caller's information and the program
-- memory are as before, and no descriptor stays in use.
pub program_load-fails :
    (raw filename : List ℕ) (info : ProgramInfo) (l : Loader) (s : Vfs)
    → IsValid s
    → let (status, info', l', s') = program_load vfs_ops raw (some filename) (some info) l s in
      (status ≡ failure)
      × (info' ≡ some info)
      × (l' ≡ l)
      × ((j : ℕ) → (descriptor s' j).in_use ≡ (descriptor s j).in_use)
unfolding program_load released
program_load-fails raw filename info l s valid = elim (fs_open_lem filename 0 s valid) [
  | inl (n, e, lt, free, lower, opened) ↦
      let r = load_file-vfs (pos n) raw info l (fs_open filename 0 s).1 in
      rw e (
        rw r
          (refl, refl, refl, released-in_use raw n s (fs_open filename 0 s).1 valid lt free opened))
  | inr (e, same, full) ↦ rw e (refl, refl, refl, λ j. ap (λ t. (descriptor t j).in_use) same)
]
