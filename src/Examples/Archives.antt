-- ===== src/Examples/Archives.antt =====
-- Examples of archives that are unpacked.
use yougpu_agent.Prelude.Int64.{signed}
use yougpu_agent.Prelude.Result.{ok}
use yougpu_agent.Prelude.{◌^◌, ◌-◌, arith, ℕ, ◌≤◌, Bool, false, none, some, [], ◌∷◌, ◌≡◌, refl}
use yougpu_agent.Archive.{
  Stream, eof, entry, Limits, type_reg, type_symlink, type_dir, add, unpack_entry, unpack,
}
use yougpu_agent.Archive.Paths.{Key, safe_rel, clean, is_rooted, trim_slash, split, included}
use yougpu_agent.Archive.Files.{Fs, dir, lookup}
use yougpu_agent.Archive.Contained.{unpack_contained}
use yougpu_agent.Archive.Count.{unpack_within, add_wraps, IsSmall, entries_of, bytes_of, IsSound}

-- A link out of the folder, and a file to be written through it.
abbrev hostile : Stream
hostile =
    entry
      (record {
        name = "out";
        typeflag = type_symlink;
        size = 0;
        mode = 511;
        mod_time = 1;
        linkname = "/etc";
        whole = none;
      })
      (entry
        (record {
          name = "out/passwd";
          typeflag = type_reg;
          size = 3;
          mode = 420;
          mod_time = 1;
          linkname = "";
          whole = none;
        })
        eof)

abbrev limits : Limits
limits = record { bytes = 10; entries = 5 }

abbrev folder : Fs
folder = record { nodes = ("data" ∷ [], dir) ∷ []; calls = 0; escaped = false }

abbrev never : ℕ → Bool
never n = false

unpack_contained_example :
    (folder.escaped ≡ false → (unpack never hostile [] limits folder).1.escaped ≡ false)
    × ((d : Key)
        → lookup d folder.nodes ≡ some dir
        → lookup d (unpack never hostile [] limits folder).1.nodes ≡ some dir)
unpack_contained_example = unpack_contained never hostile [] limits folder

abbrev harmless : Stream
harmless =
    entry
      (record {
        name = "models";
        typeflag = type_dir;
        size = 0;
        mode = 493;
        mod_time = 1;
        linkname = "";
        whole = none;
      })
      (entry
        (record {
          name = "models/a";
          typeflag = type_reg;
          size = 3;
          mode = 420;
          mod_time = 1;
          linkname = "";
          whole = none;
        })
        eof)

harmless-IsSmall : IsSmall (2 ^ 62) harmless
harmless-IsSmall = ground arith

unpack_within_example : IsSound harmless × (entries_of harmless ≤ 5) × (bytes_of harmless ≤ 10)
unfolding unpack add unpack_entry safe_rel clean is_rooted trim_slash split included signed
unpack_within_example =
    unpack_within never harmless [] limits folder (omega arith) (omega arith) harmless-IsSmall refl

add_wraps_example :
    add limits (2 ^ 63 - 1) (record { bytes = 1; entries = 1 })
    ≡ ok (record { bytes = 2 ^ 63; entries = 2 })
add_wraps_example =
    add_wraps limits (2 ^ 63 - 1) (record { bytes = 1; entries = 1 }) (omega arith) (omega arith)
      (omega arith) (omega arith) (omega arith)
