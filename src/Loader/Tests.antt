-- ===== src/Loader/Tests.antt =====
-- The loader on the file system after `fs_init`.
use minimalist_os.Base.{ℕ, ◌≡◌, refl, [], ◌∷◌, false, some, failure, pos, replicate}
use minimalist_os.Vfs.{Vfs, descriptor, no_descriptor}
use minimalist_os.Vfs.Descriptors.{IsValid}
use minimalist_os.Loader.{
  Loader, ProgramInfo, read_header, u16_at, u32_at, program_validate_elf, program_load,
}
use minimalist_os.Loader.Load.{vfs_ops, program_load-fails}

abbrev booted : Vfs
booted = record { file_descriptors = replicate 16 no_descriptor }

booted-IsValid : IsValid booted
booted-IsValid = refl

abbrev unknown : ProgramInfo
unknown = record { entry_point = 1; base_address = 2; size = 3; stack_size = 4; is_loaded = false }

abbrev used_100 : Loader
used_100 = record { program_memory = []; program_memory_used = 100 }

program_load-fails_example :
    let (status, info', l', s') =
      program_load vfs_ops [] (some (b'a' ∷ 0 ∷ [])) (some unknown) used_100 booted in
    (status ≡ failure)
    × (info' ≡ some unknown)
    × (l' ≡ used_100)
    × ((j : ℕ) → (descriptor s' j).in_use ≡ (descriptor booted j).in_use)
program_load-fails_example =
    program_load-fails [] (b'a' ∷ 0 ∷ []) unknown used_100 booted booted-IsValid

-- The first bytes of an executable for the i386 pass the test.
accepted :
    program_validate_elf (
      read_header (
        0x7F ∷ 0x45 ∷ 0x4C ∷ 0x46 ∷ 1 ∷ 1 ∷ 1 ∷ 0 ∷ 0 ∷ 0 ∷ 0 ∷ 0 ∷ 0 ∷ 0 ∷ 0 ∷ 0 ∷ 2 ∷ 0 ∷ 3 ∷ 0
        ∷ []))
    ≡ pos 0
unfolding program_validate_elf read_header u16_at u32_at
accepted = refl
