-- ===== src/Kernel/Limits/Read.antt =====
-- The numbers that are read from /proc/sys/kernel: the file of each, and the texts that are accepted.
use async_procfs.Prelude.{ℕ, ◌<◌, ◌^◌, ◌≡◌, ◌↔◌, ◌++◌, FilePath, Text, codes, returned, arith}
use async_procfs.Std.Strings.{trim}
use async_procfs.Std.Ints.{parse_uint}
use async_procfs.Std.Ints.Decimal.{SpellsNumber, parse_uint_iff}
use async_procfs.Env.{Env}
use async_procfs.Machine.{M, State}
use async_procfs.Procfs.{AsyncProcfs, read_options}
use async_procfs.Helpers.{read_value, read_file}
use async_procfs.Kernel.Limits.{shmall, shmmax, shmmni, threads_max}

-- What the kernel's documents name: all pages of shared memory, the size of a segment, how many segments
-- there are, and how many threads.
pub data Limit : Type 0 where
  pages segment_size segments threads : Limit

-- The file of each, and the width of its numbers.
abbrev pub file_name : Limit → Text
file_name pages = codes "shmall"
file_name segment_size = codes "shmmax"
file_name segments = codes "shmmni"
file_name threads = codes "threads-max"

abbrev pub width : Limit → ℕ
width pages = 64
width segment_size = 64
width segments = 64
width threads = 32

module _ (E : Env) (procfs : AsyncProcfs E.File) where
  -- The function of the source that reads it.
  abbrev pub getter : Limit → M E ℕ
  getter pages = shmall E procfs
  getter segment_size = shmmax E procfs
  getter segments = shmmni E procfs
  getter threads = threads_max E procfs

  module _ (file : E.File) (text : Text) (n : ℕ) (s : State E.World) (w₁ w₂ : E.World) where
    read_uint_iff :
        (bits : ℕ) (path : FilePath)
        → E.open_at procfs.file path (read_options E) s.world ≡ returned file w₁
        → E.hybrid_read_to_string file w₁ ≡ returned text w₂
        → (read_value E (parse_uint bits) E.from_parse_int procfs path s
            ≡ returned n (record s { world = w₂ }))
          ↔ (SpellsNumber (trim text) n × (n < 2 ^ bits))
    unfolding read_value read_file
    read_uint_iff bits path opened read = (spelled, made)
      where
        spelled :
            read_value E (parse_uint bits) E.from_parse_int procfs path s
              ≡ returned n (record s { world = w₂ })
            → SpellsNumber (trim text) n × (n < 2 ^ bits)
        spelled h = (parse_uint_iff bits (trim text) n).0 (ground arith)

        made :
            SpellsNumber (trim text) n × (n < 2 ^ bits)
            → read_value E (parse_uint bits) E.from_parse_int procfs path s
              ≡ returned n (record s { world = w₂ })
        made h = ground (arith, (parse_uint_iff bits (trim text) n).1 h)

    -- Where the file of a limit, `shmall`, `shmmax`, `shmmni` or `threads-max` below `sys/kernel`, can be
    -- opened and read, whatever text it holds, the function of that name returns a number exactly if the
    -- text, with the white space at its ends taken off, is a numeral, with or without a plus sign in
    -- front, of that number, which is less than 2 ^ 64, or 2 ^ 32 for `threads_max`.
    pub getters_iff :
        (limit : Limit)
        → E.open_at procfs.file (codes "sys/kernel/" ++ file_name limit) (read_options E) s.world
          ≡ returned file w₁
        → E.hybrid_read_to_string file w₁ ≡ returned text w₂
        → (getter limit s ≡ returned n (record s { world = w₂ }))
          ↔ (SpellsNumber (trim text) n × (n < 2 ^ width limit))
    unfolding shmall shmmax shmmni threads_max
    getters_iff pages opened read = read_uint_iff 64 _ opened read
    getters_iff segment_size opened read = read_uint_iff 64 _ opened read
    getters_iff segments opened read = read_uint_iff 64 _ opened read
    getters_iff threads opened read = read_uint_iff 32 _ opened read
