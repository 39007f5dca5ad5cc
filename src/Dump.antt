-- ===== src/Dump.antt =====
-- src/app.c: the file of opus packets that an upload is written to; tools/decode_opus_dump.c: the
-- program that reads it. The names of the files are not modelled.
pub mod Decode
pub mod Laws
pub mod Wav
use xiaozhi.Base.{
  ℕ, ◌+◌, ◌*◌, ◌%◌, ◌/◌, Bool, true, false, not, ◌||◌, List, [], ◌∷◌, ◌++◌, Option, none, some,
  ◌==◌, ltb, take, if◌then◌else◌, length, Status, ok, failed,
}
use xiaozhi.Base.Strings.{Bytes}

-- `opus_dump_file` with the bytes written to the file, `opus_dump_index`, and the files closed so
-- far, the last one first.
pub record Dump : Type 0 where
  pub file : Option Bytes
  pub index : ℕ
  pub saved : List Bytes

-- `fclose` of a file that is open.
unfoldable pub close_file : Dump → Dump
close_file dump = elim dump.file [
  | none ↦ dump
  | some bytes ↦ record dump { file = none; saved = bytes ∷ dump.saved }
]

-- `app_open_opus_dump_file`: whether the file in build/ can be opened, and the one in /tmp.
unfoldable pub open_dump : Dump → Bool → Bool → Status × Dump
open_dump dump in_build in_tmp =
    let closed = close_file dump in
    if in_build || in_tmp
    then (ok, record closed { file = some []; index = closed.index + 1 })
    else (failed, record closed { index = closed.index + 1 })

-- `app_close_opus_dump_file`; `initialized` is `opus_dump_mutex_initialized`.
unfoldable pub close_dump : Dump → Bool → Dump
close_dump dump initialized = if not initialized then dump else close_file dump

-- The two bytes before a packet.
unfoldable pub header : ℕ → Bytes
header len = len % 256 ∷ (len / 256) % 256 ∷ []

-- `app_write_opus_packet`: how many bytes each `fwrite` takes.
unfoldable pub write_packet : Dump → Bytes → Bool → ℕ → ℕ → Status × Dump
write_packet dump packet initialized first second =
    if length packet == 0 || ltb 65535 (length packet) || not initialized
    then (failed, dump)
    else (elim dump.file [
      | none ↦ (failed, dump)
      | some bytes ↦
          if not (length (take first (header (length packet))) == 2)
          then (failed, record dump { file = some (bytes ++ take first (header (length packet))) })
          else (
            if length (take second packet) == length packet then ok else failed,
            record dump { file = some (bytes ++ (header (length packet) ++ take second packet)) },
          )
    ])
