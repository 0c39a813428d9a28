-- ===== src/Gate/File.antt =====
-- `_read_regular_file`: a file is read through one descriptor, between two looks at what it is.
pub mod Whole
use devpath_shared.Base.{
  ℕ, zero, suc, ◌+◌, ◌-◌, Bool, true, false, ◌&&◌, not, List, [], ◌∷◌, ◌++◌, String, ◌<>◌, ◌==◌,
  leb, ltb, length, if◌then◌else◌,
}
use devpath_shared.Base.Result.{Result, ok, ◌>>=◌, ◌>>◌, ensure}
use devpath_shared.Runtime.{Bytes}

-- What `os.fstat` says, as far as it is looked at.
pub record Stat : Type 0 where
  pub is_regular : Bool
  pub dev : ℕ
  pub ino : ℕ
  pub size : ℕ
  pub mtime_ns : ℕ

-- What the operating system answers about one path: whether it is a link, whether `os.open` succeeds,
-- what `os.fstat` says before and after the loop, and the bytes that `os.read` returns at an offset
-- for a limit.
pub record File : Type 0 where
  pub is_symlink : Bool
  pub opens : Bool
  pub before : Stat
  pub after : Stat
  pub os_read : ℕ → ℕ → Bytes

abbrev pub min : ℕ → ℕ → ℕ
min a b = if leb a b then a else b

abbrev pub is_empty : Bytes → Bool
is_empty [] = true
is_empty (c ∷ s) = false

-- `while remaining > 0`, on fuel: every round but the last reads a byte at least, so as many rounds as
-- bytes remain are enough.
unfoldable pub read_chunks : File → ℕ → ℕ → ℕ → Bytes
read_chunks file zero offset remaining = []
read_chunks file (suc fuel) offset remaining =
    let chunk = file.os_read offset (min remaining 65536) in
    let rest = read_chunks file fuel (offset + length chunk) (remaining - length chunk) in
    if remaining == 0 then [] else if is_empty chunk then [] else chunk ++ rest

abbrev pub same_identity : Stat → Stat → Bool
same_identity a b =
    (a.dev == b.dev && a.ino == b.ino) && (a.size == b.size && a.mtime_ns == b.mtime_ns)

unfoldable pub read_regular_file : File → String → ℕ → Result Bytes
read_regular_file file label maximum = do
  ensure (not file.is_symlink) (label <> " must be one regular non-symlink file")
  ensure file.opens (label <> " must be one regular non-symlink file")
  ensure file.before.is_regular (label <> " must be one regular non-symlink file")
  ensure (ltb 0 file.before.size && leb file.before.size maximum)
      (label <> " size is outside the allowed bound")
  let raw = read_chunks file (suc file.before.size) 0 (suc file.before.size)
  ensure (length raw == file.before.size && same_identity file.after file.before)
      (label <> " changed while it was read")
  ok raw
