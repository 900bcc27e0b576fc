-- ===== src/Loader.antt =====
-- kernel/program_loader.c: the memory for programs and the ELF loader. The loader's calls of the file
-- system are a record of operations, so that the file system of the kernel is one instance.
pub mod Space
pub mod Load
mod Tests
use minimalist_os.Base.{
  ℕ, zero, suc, ◌+◌, ◌-◌, ◌*◌, ◌%◌, ◌^◌, List, [], ◌∷◌, ◌++◌, Bool, true, false, not, ◌||◌, Option,
  none, some, ℤ, pos, negsuc, success, failure, is_zero, ltb, leb, ◌==◌, if◌then◌else◌, get_or, set,
  take, drop, replicate,
}
use minimalist_os.Memory.{align_up, clear_heap}
use minimalist_os.Process.{CpuContext, Scheduler, process_create}

abbrev pub max_program_size : ℕ
max_program_size = 1024 * 1024

abbrev pub elf_magic : ℕ
elf_magic = 0x464C457F

abbrev pub pt_load : ℕ
pt_load = 1

-- The 52 bytes of `elf32_header_t` that the loader reads fields of.
pub record ElfHeader : Type 0 where
  pub e_magic : ℕ
  pub e_class : ℕ
  pub e_data : ℕ
  pub e_type : ℕ
  pub e_machine : ℕ
  pub e_entry : ℕ
  pub e_phoff : ℕ
  pub e_phentsize : ℕ
  pub e_phnum : ℕ

abbrev pub header_size : ℕ
header_size = 52

-- The fields of `elf32_phdr_t`, which has 32 bytes, that the loader reads.
pub record ElfPhdr : Type 0 where
  pub p_type : ℕ
  pub p_offset : ℕ
  pub p_vaddr : ℕ
  pub p_filesz : ℕ
  pub p_memsz : ℕ

abbrev pub phdr_size : ℕ
phdr_size = 32

-- Little-endian fields of packed structures.
unfoldable pub u16_at : List ℕ → ℕ → ℕ
u16_at bytes o = get_or bytes o 0 + 2 ^ 8 * get_or bytes (o + 1) 0

unfoldable pub u32_at : List ℕ → ℕ → ℕ
u32_at bytes o = u16_at bytes o + 2 ^ 16 * u16_at bytes (o + 2)

unfoldable pub read_header : List ℕ → ElfHeader
read_header bytes = record {
  e_magic = u32_at bytes 0;
  e_class = get_or bytes 4 0;
  e_data = get_or bytes 5 0;
  e_type = u16_at bytes 16;
  e_machine = u16_at bytes 18;
  e_entry = u32_at bytes 24;
  e_phoff = u32_at bytes 28;
  e_phentsize = u16_at bytes 42;
  e_phnum = u16_at bytes 44;
}

-- The program header at an offset.
unfoldable pub read_phdr : List ℕ → ℕ → ElfPhdr
read_phdr bytes o = record {
  p_type = u32_at bytes o;
  p_offset = u32_at bytes (o + 4);
  p_vaddr = u32_at bytes (o + 8);
  p_filesz = u32_at bytes (o + 16);
  p_memsz = u32_at bytes (o + 20);
}

pub record ProgramInfo : Type 0 where
  pub entry_point : ℕ
  pub base_address : ℕ
  pub size : ℕ
  pub stack_size : ℕ
  pub is_loaded : Bool

-- An address in `program_memory` is its offset.
pub record Loader : Type 0 where
  pub program_memory : List ℕ
  pub program_memory_used : ℕ

unfoldable pub program_loader_init : Loader → ℤ × Loader
program_loader_init l = (success, record l { program_memory_used = 0 })

unfoldable pub program_validate_elf : ElfHeader → ℤ
program_validate_elf header =
    if not (header.e_magic == elf_magic)
    then failure
    else if not (header.e_class == 1)
    then failure
    else if not (header.e_data == 1)
    then failure
    else if not (header.e_type == 2)
    then failure
    else if not (header.e_machine == 3)
    then failure
    else success

unfoldable pub program_alloc_memory : ℕ → ℕ → Loader → Option ℕ × Loader
program_alloc_memory size alignment l =
    let aligned_addr = align_up l.program_memory_used alignment in
    if ltb max_program_size ((aligned_addr + size) % 2 ^ 32)
    then (none, l)
    else (some aligned_addr, record l { program_memory_used = (aligned_addr + size) % 2 ^ 32 })

-- Only the last allocation is given back.
unfoldable pub program_free_memory : ℕ → ℕ → Loader → Loader
program_free_memory ptr size l =
    if (ptr + size) % 2 ^ 32 == l.program_memory_used
    then record l { program_memory_used = (l.program_memory_used + 2 ^ 32 - size) % 2 ^ 32 }
    else l

-- The calls of the file system. A buffer is the memory from its address on.
pub record FileOps : Type 1 where
  pub State : Type 0
  pub fs_open : List ℕ → ℕ → State → ℤ × State
  pub fs_seek : ℤ → ℕ → State → ℤ × State
  pub fs_read : ℤ → List ℕ → ℕ → State → ℤ × List ℕ × State
  pub fs_close : ℤ → State → ℤ × State

-- `(uint32_t)result`
abbrev pub as_u32 : ℤ → ℕ
as_u32 (pos n) = n % 2 ^ 32
as_u32 (negsuc n) = 2 ^ 32 - 1 - n % 2 ^ 32

abbrev pub is_negative : ℤ → Bool
is_negative (pos n) = false
is_negative (negsuc n) = true

-- The base address and the size after a segment was seen.
unfoldable pub extend_info : ElfPhdr → ProgramInfo → ProgramInfo
extend_info ph info =
    let base = if ltb ph.p_vaddr info.base_address then ph.p_vaddr else info.base_address in
    let end = (ph.p_vaddr + ph.p_memsz) % 2 ^ 32 in
    record info {
      base_address = base;
      size =
          if ltb ((base + info.size) % 2 ^ 32) end
          then (end + 2 ^ 32 - base) % 2 ^ 32
          else info.size;
    }

-- The cleared tail of a segment.
unfoldable pub clear_bss : ℕ → ElfPhdr → Loader → Loader
clear_bss address ph l =
    if ltb ph.p_filesz ph.p_memsz
    then record l {
      program_memory =
          clear_heap l.program_memory (address + ph.p_filesz) (ph.p_memsz - ph.p_filesz);
    }
    else l

-- What `program_load` stores before it looks at the segments.
unfoldable pub fresh_info : ElfHeader → ProgramInfo
fresh_info header = record {
  entry_point = header.e_entry;
  base_address = 0xFFFFFFFF;
  size = 0;
  stack_size = 8192;
  is_loaded = false;
}

-- The calls of the file system, as they stand in the loader.
module _ (ops : FileOps) where
  open ops use {State, fs_open, fs_seek, fs_read, fs_close}

  -- What the loop over the segments works on.
  pub record Progress : Type 0 where
    pub info : ProgramInfo
    pub loader : Loader
    pub files : State

  -- The part of a segment that is in the file, read to `address`; the Boolean says that all of it
  -- came.
  unfoldable pub read_segment : ℤ → ElfPhdr → ℕ → Loader → State → Bool × Loader × State
  read_segment fd ph address l files =
      if ltb 0 ph.p_filesz
      then (let (sought, files1) = fs_seek fd ph.p_offset files in
          let (count, bytes, files2) =
            fs_read fd (drop address l.program_memory) ph.p_filesz files1 in
          (
            as_u32 count == ph.p_filesz,
            record l { program_memory = take address l.program_memory ++ bytes },
            files2,
          ))
      else (true, l, files)

  -- One segment of type PT_LOAD, once its memory was granted at `segment`.
  unfoldable pub fill_segment : ℤ → ElfPhdr → ℕ → ProgramInfo → Loader → State → Bool × Progress
  fill_segment fd ph segment info l files =
      let (complete, l1, files1) = read_segment fd ph (segment + ph.p_vaddr) l files in
      if complete
      then (
        true,
        record { info = info; loader = clear_bss (segment + ph.p_vaddr) ph l1; files = files1 },
      )
      else (false, record { info = info; loader = l1; files = files1 })

  unfoldable pub load_segment : ℤ → ElfPhdr → Progress → Bool × Progress
  load_segment fd ph p =
      let info = extend_info ph p.info in
      let (segment, l) = program_alloc_memory ((ph.p_vaddr + ph.p_memsz) % 2 ^ 32) 4096 p.loader in
      elim segment [
        | none ↦ (false, record p { info = info; loader = l })
        | some s ↦ fill_segment fd ph s info l p.files
      ]

  -- The loop: `n` program headers are left, the next one stands at `o`.
  unfoldable pub load_segments : ℤ → ℕ → ℕ → Progress → Bool × Progress
  load_segments fd o zero p = (true, p)
  load_segments fd o (suc n) p =
      let ph = read_phdr p.loader.program_memory o in
      let this = if ph.p_type == pt_load then load_segment fd ph p else (true, p) in
      elim this.0 [ true ↦ load_segments fd (o + phdr_size) n this.1 | false ↦ this ]

  -- The exits of `program_load` behind the program headers.
  unfoldable pub finish : ℤ → ℕ → ℕ → Bool × Progress → ℤ × ProgramInfo × Loader × State
  finish fd phdrs ph_size (loaded, p) =
      let l = program_free_memory phdrs ph_size p.loader in
      let files = (fs_close fd p.files).1 in
      if loaded
      then (success, record p.info { is_loaded = true }, l, files)
      else (failure, p.info, l, files)

  -- From the reading of the program headers on.
  unfoldable pub load_headers :
      ℤ → ElfHeader → ℕ → ProgramInfo → Loader → State → ℤ × ProgramInfo × Loader × State
  load_headers fd header phdrs info l files =
      let ph_size = header.e_phentsize * header.e_phnum % 2 ^ 32 in
      let (sought, files1) = fs_seek fd header.e_phoff files in
      let (count, bytes, files2) = fs_read fd (drop phdrs l.program_memory) ph_size files1 in
      let l1 : Loader = record l { program_memory = take phdrs l.program_memory ++ bytes } in
      if is_negative count || not (as_u32 count == ph_size)
      then (failure, info, program_free_memory phdrs ph_size l1, (fs_close fd files2).1)
      else finish fd phdrs ph_size (
          load_segments fd phdrs header.e_phnum
            (record { info = fresh_info header; loader = l1; files = files2 }))

  -- From the valid header on.
  unfoldable pub load_image :
      ℤ → ElfHeader → ProgramInfo → Loader → State → ℤ × ProgramInfo × Loader × State
  load_image fd header info l files =
      let (phdrs, l1) = program_alloc_memory (header.e_phentsize * header.e_phnum % 2 ^ 32) 4 l in
      elim phdrs [
        | none ↦ (failure, info, l1, (fs_close fd files).1)
        | some p ↦ load_headers fd header p info l1 files
      ]

  -- From the open file on. `raw` is what the local variable `header` holds.
  unfoldable pub load_file :
      ℤ → List ℕ → ProgramInfo → Loader → State → ℤ × ProgramInfo × Loader × State
  load_file fd raw info l files =
      let (sought, files1) = fs_seek fd 0 files in
      let (count, bytes, files2) = fs_read fd raw header_size files1 in
      if not (as_u32 count == header_size)
      then (failure, info, l, (fs_close fd files2).1)
      else if not (is_zero (program_validate_elf (read_header bytes)))
      then (failure, info, l, (fs_close fd files2).1)
      else load_image fd (read_header bytes) info l files2

  -- The caller's `prog_info` is none for a null pointer.
  unfoldable pub program_load :
      List ℕ
      → Option (List ℕ)
      → Option ProgramInfo
      → Loader
      → State
      → ℤ × Option ProgramInfo × Loader × State
  program_load raw none info l files = (failure, info, l, files)
  program_load raw (some filename) none l files = (failure, none, l, files)
  program_load raw (some filename) (some info) l files =
      let (fd, files1) = fs_open filename 0 files in
      let (status, info', l', files') = load_file fd raw info l files1 in
      if is_negative fd then (failure, some info, l, files1) else (status, some info', l', files')

-- "user_program" and its terminator.
abbrev pub user_program : List ℕ
user_program =
    b'u' ∷ b's' ∷ b'e' ∷ b'r' ∷ b'_' ∷ b'p' ∷ b'r' ∷ b'o' ∷ b'g' ∷ b'r' ∷ b'a' ∷ b'm' ∷ 0 ∷ []

-- The stack is given back where no process could be created.
unfoldable pub start_process :
    (CpuContext → ℕ → ℕ → CpuContext)
    → ProgramInfo
    → ℕ
    → Loader
    → Scheduler
    → ℤ × Loader × Scheduler
start_process context_init info stack l s =
    let (pid, s') = process_create context_init user_program (some info.entry_point) s in
    if is_negative pid
    then (failure, program_free_memory stack info.stack_size l, s')
    else (pid, l, s')

unfoldable pub program_execute_from_info :
    (CpuContext → ℕ → ℕ → CpuContext)
    → Option ProgramInfo
    → Loader
    → Scheduler
    → ℤ × Loader × Scheduler
program_execute_from_info context_init none l s = (failure, l, s)
program_execute_from_info context_init (some info) l s =
    let (stack, l') = program_alloc_memory info.stack_size 4 l in
    if not info.is_loaded
    then (failure, l, s)
    else elim stack [ none ↦ (failure, l', s) | some p ↦ start_process context_init info p l' s ]

unfoldable pub program_cleanup : Option ProgramInfo → Loader → Loader
program_cleanup none l = l
program_cleanup (some info) l = if info.is_loaded then record l { program_memory_used = 0 } else l

-- `blank` is what the local variable `prog_info` holds at first.
unfoldable pub program_execute :
    (ops : FileOps)
    → (CpuContext → ℕ → ℕ → CpuContext)
    → List ℕ
    → ProgramInfo
    → Option (List ℕ)
    → Loader
    → ops.State
    → Scheduler
    → ℤ × Loader × ops.State × Scheduler
program_execute ops context_init raw blank filename l files s =
    let (status, info, l1, files1) = program_load ops raw filename (some blank) l files in
    let (result, l2, s') = program_execute_from_info context_init info l1 s in
    if not (is_zero status)
    then (failure, l1, files1, s)
    else (result, program_cleanup info l2, files1, s')
