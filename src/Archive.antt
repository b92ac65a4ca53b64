-- ===== src/Archive.antt =====
-- internal/state/archive.go: the paths of an archive and its unpacking into a folder. A path below
-- the folder is a key: its segments, the last one first. Decompression and the tar format are not
-- modelled: an archive is the stream of its entries.
pub mod Paths
pub mod Files
pub mod Count
pub mod Safe
pub mod Calls
pub mod Contained
pub mod Proper
use yougpu_agent.Prelude.{
  ℕ, ◌+◌, ◌%◌, ◌^◌, pos, ltb_ℤ, String, Bool, Option, none, some, List, [], ◌∷◌, if◌then◌else◌,
}
use yougpu_agent.Prelude.Int64.{signed}
use yougpu_agent.Prelude.Result.{ok, err, Result, done, fail, continue, ◌>>=◌, ◌>>◌}
use yougpu_agent.Archive.Paths.{Key, safe_rel, included}
use yougpu_agent.Archive.Files.{
  Node, dir, file, symlink, Fs, Error, os, not_a_directory, directory_in_place, unsafe_path,
  too_many_entries, too_many_bytes, broken_archive, Act, lstat, create, rewrite, remove,
}

pub data Typeflag : Type 0 where
  type_dir type_reg type_symlink type_other : Typeflag

-- A tar header; `whole` is whether the entry's body can be read to its end.
pub record Header : Type 0 where
  pub name : String
  pub typeflag : Typeflag
  pub size : ℕ
  pub mode : ℕ
  pub mod_time : ℕ
  pub linkname : String
  pub whole : Option Error

-- What tar.Reader.Next yields, call by call.
pub data Stream : Type 0 where
  eof : Stream
  broken : Stream
  entry : Header → Stream → Stream

pub record Limits : Type 0 where
  pub bytes : ℕ
  pub entries : ℕ

-- Both fields are signed numbers of 64 bits, kept as the unsigned number of the same bits.
pub record Counter : Type 0 where
  pub bytes : ℕ
  pub entries : ℕ

-- counter.add; the sums of int64 and int wrap around, so a count that is too large is negative.
unfoldable pub add : Limits → ℕ → Counter → Result Error Counter
add limits size c =
    if ltb_ℤ (pos limits.entries) (signed (c.entries + 1))
    then err too_many_entries
    else if ltb_ℤ (pos limits.bytes) (signed (c.bytes + size))
    then err too_many_bytes
    else ok (record { bytes = (c.bytes + size) % 2 ^ 64; entries = (c.entries + 1) % 2 ^ 64 })

abbrev pub counted_size : Typeflag → ℕ → ℕ
counted_size type_reg size = size
counted_size type_dir size = 0
counted_size type_symlink size = 0
counted_size type_other size = 0

abbrev pub require_rel : Option Key → Result Error Key
require_rel none = err unsafe_path
require_rel (some rel) = ok rel

module _ (fails : ℕ → Bool) where
  unfoldable pub as_directory : Key → Option Node → Act (Unit {0})
  as_directory k none = create fails k dir
  as_directory k (some dir) = done tt
  as_directory k (some (file mode size mtime)) = fail not_a_directory
  as_directory k (some (symlink target)) = fail not_a_directory

  -- The loop walks the path from the folder down; the empty key is the path ".".
  unfoldable pub mkdir_inside : Key → Act (Unit {0})
  unfolding as_directory
  mkdir_inside [] = done tt
  mkdir_inside (s ∷ ks) = do
    mkdir_inside ks
    info ← lstat fails (s ∷ ks)
    as_directory (s ∷ ks) info

  unfoldable pub replaced : Key → Option Node → Act (Unit {0})
  replaced k none = done tt
  replaced k (some dir) = fail directory_in_place
  replaced k (some (file mode size mtime)) = remove fails k
  replaced k (some (symlink target)) = remove fails k

  unfoldable pub replace : Key → Act (Unit {0})
  unfolding replaced
  replace k = do info ← lstat fails k; replaced k info

  unfoldable pub finish_file : Key → Header → Option Error → Act (Unit {0})
  finish_file k h none = rewrite fails k (file (h.mode % 512) h.size h.mod_time)
  finish_file k h (some e) = fail e

  -- O_EXCL creates the file empty; the body is then copied and the times are set.
  unfoldable pub write_regular : Key → Header → Act (Unit {0})
  unfolding finish_file
  write_regular k h = do
    replace k
    create fails k (file (h.mode % 512) 0 0)
    finish_file k h h.whole

  unfoldable pub place : Typeflag → Key → Header → Act (Unit {0})
  place type_dir k h = mkdir_inside k
  place type_reg k h = write_regular k h
  place type_symlink k h = do replace k; create fails k (symlink h.linkname)
  place type_other k h = done tt

  unfoldable pub parent : Key → Key
  parent [] = []
  parent (s ∷ ks) = ks

  unfoldable pub place_rel : List String → Header → Result Error Key → Act (Unit {0})
  unfolding place parent
  place_rel include h (err e) fs = (err e, fs)
  place_rel include h (ok k) fs =
      if included include k
      then (do mkdir_inside (parent k); place h.typeflag k h) fs
      else (ok tt, fs)

  -- One entry that the counter lets pass.
  unfoldable pub unpack_entry : List String → Header → Act (Unit {0})
  unfolding place_rel
  unpack_entry include h = place_rel include h (require_rel (safe_rel h.name))

  unfoldable pub unpack_from : Limits → List String → Stream → Counter → Act (Unit {0})
  unpack_from limits include eof c = done tt
  unpack_from limits include broken c = fail broken_archive
  unpack_from limits include (entry h rest) c =
      continue (add limits (counted_size h.typeflag h.size) c)
        (λ c'. unpack_entry include h >> unpack_from limits include rest c')

  unfoldable pub unpack : Stream → List String → Limits → Act (Unit {0})
  unfolding unpack_from
  unpack stream include limits =
      unpack_from limits include stream (record { bytes = 0; entries = 0 })
