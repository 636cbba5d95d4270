-- ===== src/Ramfs.antt =====
-- The read-only file system in memory (kernel/ramfs.c).
pub mod Read
pub mod Lookup
use glass_os.Prelude.{
  ℕ, zero, suc, ◌+◌, ◌-◌, ◌==◌, set, get_or, ◌||◌, Bool, true, false, Option, none, some, List, [],
  ◌∷◌, ◌++◌, text, length, take, drop, get_elem?, ltb, leb, if◌then◌else◌,
}
use glass_os.Text.{Text, text_equal}
use glass_os.Kernel.{Kernel, M, EventResult, event_ok, event_denied, event_fault, ◌>>=◌, ◌>>◌, pure}
use glass_os.Object.{object_id, object_register}
use glass_os.Event.{event_record, event_record_kind, event_current}

-- enum ramfs_file_type
pub data RamfsFileType : Type 0 where
  ramfs_file_text ramfs_file_module ramfs_file_executable : RamfsFileType

-- struct ramfs_file; `data` holds `size` bytes.
pub record RamfsFile : Type 0 where
  pub path : Text
  pub data_bytes : List ℕ
  pub type : RamfsFileType

abbrev pub size : RamfsFile → ℕ
size f = length f.data_bytes

abbrev readme : List ℕ
readme =
    text "Glass RAM filesystem"
    ++ (10 ∷ text "Use ls to list files, cat <path> to read text, and run <path> to load a module."
        ++ 10 ∷ [])

abbrev about_module : List ℕ
about_module =
    text "# RAMFS shell module"
    ++ (10 ∷ text "print Module loaded through the filesystem interface." ++ 10 ∷ [])

abbrev memory_module : List ℕ
memory_module = text "# Report allocator state" ++ (10 ∷ text "meminfo" ++ 10 ∷ [])

abbrev hello_code : List ℕ
hello_code =
    0xB8 ∷ 0x01 ∷ 0x00 ∷ 0x00 ∷ 0x00 ∷ 0xBF ∷ 0x40 ∷ 0x00 ∷ 0x40 ∷ 0x00 ∷ 0xCD ∷ 0x80 ∷ 0xB8 ∷ 0x02
    ∷ 0x00 ∷ 0x00 ∷ 0x00 ∷ 0xCD ∷ 0x80 ∷ 0xB8 ∷ 0x03 ∷ 0x00 ∷ 0x00 ∷ 0x00 ∷ 0xBF ∷ 0x48 ∷ 0x00
    ∷ 0x40 ∷ 0x00 ∷ 0xCD ∷ 0x80 ∷ 0xB8 ∷ 0x04 ∷ 0x00 ∷ 0x00 ∷ 0x00 ∷ 0xBF ∷ 0x48 ∷ 0x00 ∷ 0x40
    ∷ 0x00 ∷ 0xCD ∷ 0x80 ∷ 0x48 ∷ 0xA1 ∷ 0x00 ∷ 0x00 ∷ 0x60 ∷ 0x00 ∷ 0x00 ∷ 0x00 ∷ 0x00 ∷ 0x00
    ∷ 0x90 ∷ 0x90 ∷ 0x90 ∷ 0x90 ∷ 0x90 ∷ 0x90 ∷ 0x90 ∷ 0x90 ∷ 0x90 ∷ 0x90 ∷ 0x90 ∷ []

abbrev hello_program : List ℕ
hello_program = hello_code ++ (text "system" ++ (0 ∷ 0 ∷ text "/config/theme" ++ 0 ∷ []))

-- `files`
abbrev pub files : List RamfsFile
files =
    record { path = text "/README.TXT"; data_bytes = readme; type = ramfs_file_text }
    ∷ record {
      path = text "/modules/ABOUT.MOD";
      data_bytes = about_module;
      type = ramfs_file_module;
    }
    ∷ record {
      path = text "/modules/MEMORY.MOD";
      data_bytes = memory_module;
      type = ramfs_file_module;
    }
    ∷ record { path = text "/bin/hello"; data_bytes = hello_program; type = ramfs_file_executable }
    ∷ []

abbrev type_name : RamfsFileType → Text
type_name ramfs_file_text = text "file"
type_name ramfs_file_module = text "module"
type_name ramfs_file_executable = text "executable"

-- The loop of ramfs_init: false at the first file without data.
unfoldable pub register_files : List RamfsFile → ℕ → M Bool
register_files [] parent k = (true, k)
register_files (f ∷ fs) parent k =
    let (_, r) =
      object_register (type_name f.type) f.path parent (text "read-only") (event_current k)
        k.registry in
    let rest = register_files fs parent (record k { registry = r }) in
    if size f == 0 then (false, k) else rest

abbrev note : Text → Text → EventResult → Text → M ℕ
note target operation result policy k =
    event_record (text "ramfs") target operation result (event_current k) policy k

unfoldable pub ramfs_init : M Bool
ramfs_init k =
    let (valid, k') = register_files files (object_id (text "ramfs") k.registry) k in
    if valid
    then (do
      note (text "ramfs") (text "initialize") event_ok (text "allow:boot-filesystem")
      pure true)
        k'
    else (do
      note (text "ramfs") (text "initialize") event_fault (text "deny:invalid-file")
      pure false)
        k'

abbrev pub ramfs_file_count : ℕ
ramfs_file_count = length files

-- The option is the null pointer.
unfoldable pub ramfs_file_at : ℕ → Option RamfsFile
ramfs_file_at index = if ltb index ramfs_file_count then get_elem? files index else none

-- The loop of ramfs_lookup, with its comparison.
unfoldable pub find_file : Text → List RamfsFile → Option RamfsFile
find_file path [] = none
find_file path (f ∷ fs) = if text_equal f.path path then some f else find_file path fs

unfoldable pub ramfs_lookup : Text → M (Option RamfsFile)
ramfs_lookup path k = elim (find_file path files) [
  | some f ↦
      (do
        event_record_kind (text "ramfs") path (text "lookup") event_ok (event_current k)
            (text "allow:filesystem:lookup") (text "state")
        pure (some f))
        k
  | none ↦
      (do
        event_record_kind (text "ramfs") path (text "lookup") event_denied (event_current k)
            (text "deny:not-found") (text "state")
        pure none)
        k
]

-- The copying loop of ramfs_read, with `rounds` bytes left from index `i` on.
unfoldable pub copy_bytes : ℕ → ℕ → ℕ → List ℕ → List ℕ → List ℕ
copy_bytes zero i offset source destination = destination
copy_bytes (suc rounds) i offset source destination =
    copy_bytes rounds (i + 1) offset source (set destination i (get_or source (offset + i) 0))

-- ramfs_read of a file into a buffer that is not null: the number of bytes, and the buffer.
unfoldable pub ramfs_read : RamfsFile → ℕ → List ℕ → ℕ → ℕ × List ℕ
unfolding copy_bytes
ramfs_read file offset buffer buffer_size =
    if leb (size file) offset
    then (0, buffer)
    else let available = size file - offset in
      let bytes = if ltb buffer_size available then buffer_size else available in
      (bytes, copy_bytes bytes 0 offset file.data_bytes buffer)
