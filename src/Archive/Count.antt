-- ===== src/Archive/Count.antt =====
-- What an archive that was unpacked without an error is known to be.
use yougpu_agent.Prelude.{
  ℕ, ◌+◌, ◌^◌, ◌<◌, ◌≤◌, String, List, Bool, true, ◌≡◌, inl, inr, arith, Option-cases, is_some,
}
use yougpu_agent.Prelude.Int64.{signed, signed_small}
use yougpu_agent.Prelude.Result.{ok, Result-cases, continue}
use yougpu_agent.Archive.Paths.{safe_rel}
use yougpu_agent.Archive.Files.{Fs}
use yougpu_agent.Archive.{
  Header, Stream, eof, broken, entry, Limits, Counter, add, counted_size, place_rel, unpack_entry,
  unpack_from, unpack,
}

-- The entries of a stream, and the bytes of its regular files.
abbrev pub entries_of : Stream → ℕ
entries_of eof = 0
entries_of broken = 0
entries_of (entry h rest) = 1 + entries_of rest

abbrev pub bytes_of : Stream → ℕ
bytes_of eof = 0
bytes_of broken = 0
bytes_of (entry h rest) = counted_size h.typeflag h.size + bytes_of rest

-- The stream ends as it should, and every name in it is a safe path.
abbrev pub IsSound : Stream → Type 0
IsSound eof = Unit {0}
IsSound broken = ⊥
IsSound (entry h rest) = (is_some (safe_rel h.name) ≡ true) × IsSound rest

-- No file of the stream is larger than the bound.
abbrev pub IsSmall : ℕ → Stream → Type 0
IsSmall bound eof = Unit {0}
IsSmall bound broken = Unit {0}
IsSmall bound (entry h rest) = (counted_size h.typeflag h.size ≤ bound) × IsSmall bound rest

-- While no sum leaves the range, the limits are kept.
add-ok :
    (limits : Limits) (size : ℕ) (c c' : Counter)
    → c.entries + 1 < 2 ^ 63
    → c.bytes + size < 2 ^ 63
    → add limits size c ≡ ok c'
    → (c'.entries ≡ c.entries + 1)
      × (c'.bytes ≡ c.bytes + size)
      × (c'.entries ≤ limits.entries)
      × (c'.bytes ≤ limits.bytes)
unfolding add
add-ok limits size c c' le lb h =
    let h' = rw (signed_small _ le, signed_small _ lb) at h in ground arith

-- A sum of bytes that leaves the range of int64 is negative, and no limit stops it.
pub add_wraps :
    (limits : Limits) (size : ℕ) (c : Counter)
    → c.entries + 1 ≤ limits.entries
    → limits.entries < 2 ^ 63
    → c.bytes < 2 ^ 63
    → size < 2 ^ 63
    → 2 ^ 63 ≤ c.bytes + size
    → add limits size c ≡ ok (record { bytes = c.bytes + size; entries = c.entries + 1 })
unfolding add signed
add_wraps limits size c room small lb ls over = ground arith

module _ (fails : ℕ → Bool) where
  unpack_entry-ok :
      (include : List String) (h : Header) (fs : Fs)
      → (unpack_entry fails include h fs).0 ≡ ok tt
      → is_some (safe_rel h.name) ≡ true
  unfolding unpack_entry place_rel
  unpack_entry-ok include h fs e = elim (Option-cases (safe_rel h.name)) [
    | inl refused ↦ cc (rw (refused, place_rel) at e)
    | inr (k, found) ↦ rw found
  ]

  unpack_from-ok :
      (limits : Limits) (include : List String) (stream : Stream) (c : Counter) (fs : Fs)
      → limits.entries < 2 ^ 62
      → limits.bytes < 2 ^ 62
      → IsSmall (2 ^ 62) stream
      → c.entries ≤ limits.entries
      → c.bytes ≤ limits.bytes
      → (unpack_from fails limits include stream c fs).0 ≡ ok tt
      → IsSound stream
        × (c.entries + entries_of stream ≤ limits.entries)
        × (c.bytes + bytes_of stream ≤ limits.bytes)
  unfolding unpack_from
  unpack_from-ok limits include eof c fs te tb small he hb e = (tt, omega arith, omega arith)
  unpack_from-ok limits include broken c fs te tb small he hb e = cc
  unpack_from-ok limits include (entry h rest) c fs te tb (sm, small) he hb e =
      elim (Result-cases (add limits (counted_size h.typeflag h.size) c)) [
        | inr (x, bad) ↦ cc (rw bad at e)
        | inl (c', added) ↦
            let (ce, cb, le, lb) =
              add-ok limits (counted_size h.typeflag h.size) c c' (omega arith) (omega arith)
                added in
            let e' = rw added at e in
            elim (Result-cases (unpack_entry fails include h fs).0) [
              | inr (x, bad) ↦ cc (rw (bad, continue) at e')
              | inl (u, fine) ↦
                  let (sound, es, bs) =
                    unpack_from-ok limits include rest c' (unpack_entry fails include h fs).1 te tb
                      small le lb (rw (fine, continue) at e') in
                  ((unpack_entry-ok include h fs fine, sound), omega arith, omega arith)
            ]
      ]

  -- An archive that unpacks without an error was read to its end, has only safe paths, has at most
  -- as many entries as the limit allows, and its files have at most as many bytes. The limits are
  -- below 2 ^ 62 and no file is larger than 2 ^ 62, so that no sum leaves the range of int64.
  pub unpack_within :
      (stream : Stream) (include : List String) (limits : Limits) (fs : Fs)
      → limits.entries < 2 ^ 62
      → limits.bytes < 2 ^ 62
      → IsSmall (2 ^ 62) stream
      → (unpack fails stream include limits fs).0 ≡ ok tt
      → IsSound stream × (entries_of stream ≤ limits.entries) × (bytes_of stream ≤ limits.bytes)
  unfolding unpack
  unpack_within stream include limits fs te tb small e =
      let (sound, es, bs) =
        unpack_from-ok limits include stream (record { bytes = 0; entries = 0 }) fs te tb small
          (omega arith) (omega arith) e in
      (sound, omega arith, omega arith)
