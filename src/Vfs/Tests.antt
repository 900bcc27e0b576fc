-- ===== src/Vfs/Tests.antt =====
-- Runs of the calls on descriptors.
use minimalist_os.Base.{◌≡◌, refl, [], ◌∷◌, pos, replicate}
use minimalist_os.Base.Search.{find_index}
use minimalist_os.CString.{strlen, memcpy}
use minimalist_os.Vfs.{
  Vfs, no_descriptor, fs_open, find_free, fs_read, descriptor, is_bad, put_descriptor, to_read,
  to_int,
}

abbrev booted : Vfs
booted = record { file_descriptors = replicate 16 no_descriptor }

unfoldable opened : Vfs
opened = (fs_open [] 0 booted).1

-- Reading five bytes, then three more, goes on where the first read stopped.
first_bytes :
    (fs_read (pos 0) (replicate 6 0) 5 opened).1 ≡ b'H' ∷ b'e' ∷ b'l' ∷ b'l' ∷ b'o' ∷ 0 ∷ []
unfolding opened fs_open find_free find_index no_descriptor fs_read descriptor is_bad to_read strlen
    memcpy
first_bytes = refl

next_bytes :
    (fs_read (pos 0) (replicate 3 0) 3 (fs_read (pos 0) (replicate 6 0) 5 opened).2).1
    ≡ 32 ∷ b'f' ∷ b'r' ∷ []
unfolding opened fs_open find_free find_index no_descriptor fs_read descriptor is_bad put_descriptor
    to_read to_int strlen memcpy
next_bytes = refl
