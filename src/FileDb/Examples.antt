-- ===== src/FileDb/Examples.antt =====
-- A shared directory with a file, a hidden file and a directory below it.
use misc_uni_stuff.Base.{ℕ, ◌≡◌, ◌↔◌, refl, List, [], ◌∷◌, false, none, some, length, replicate, ok}
use mathlib.Core.List.{Memᴰ}
use misc_uni_stuff.Glib.{list_slist}
use misc_uni_stuff.Request.{Handler, request_ontimeout}
use misc_uni_stuff.Request.Model.{Sorted, sorted_tree}
use misc_uni_stuff.Search.{Filedata}
use misc_uni_stuff.FileDb.{
  regular, directory, Entries, end, entry, Stat, is_other, stat, add_file, get_md5sum_file, Md5,
  FileDb, recurse_md5,
}
use misc_uni_stuff.FileDb.Scan.{IsSound, IsSoundEntries}
use misc_uni_stuff.FileDb.Paths.{Reached, recurse_md5_iff}

-- A sum that is the first byte, sixteen times.
abbrev sum : List ℕ → List ℕ
sum [] = replicate 16 0
sum (b ∷ bytes) = replicate 16 b

length-sum : (bytes : List ℕ) → length (sum bytes) ≡ 16
length-sum [] = refl
length-sum (b ∷ bytes) = refl

instance abbrev first_byte : Md5
first_byte = record { md5_stream = sum; length-md5_stream = length-sum }

abbrev junk : List ℕ → Stat
junk path = record { st_mode = is_other; st_size = 0 }

abbrev shared : Entries
shared = entry (97 ∷ []) (regular 2 (some (5 ∷ 6 ∷ []))) (
    entry (46 ∷ 98 ∷ []) (regular 2 none)
      (entry (99 ∷ []) (directory (entry (100 ∷ []) (regular 1 (some (7 ∷ []))) end)) end))

shared-IsSound : IsSoundEntries shared
unfolding IsSound
shared-IsSound = (tt, (tt, ((tt, tt), tt)))

recurse_md5_iff_example :
    (db : List Filedata) × (recurse_md5 junk (115 ∷ []) (directory shared) [] ≡ ok db)
    × ((f : Filedata) → Memᴰ f db ↔ Reached (115 ∷ 47 ∷ []) shared f)
recurse_md5_iff_example = recurse_md5_iff junk (115 ∷ []) shared shared-IsSound

-- s/a and s/c/d.
two_files :
    recurse_md5 junk (115 ∷ []) (directory shared) []
    ≡ ok (
        record {
          fullfilename = 115 ∷ 47 ∷ 97 ∷ [];
          filename = 97 ∷ [];
          md5sum = replicate 16 5;
          filesize = 2;
        }
        ∷ record {
          fullfilename = 115 ∷ 47 ∷ 99 ∷ 47 ∷ 100 ∷ [];
          filename = 100 ∷ [];
          md5sum = replicate 16 7;
          filesize = 1;
        }
        ∷ [])
unfolding recurse_md5 add_file get_md5sum_file stat
two_files = refl

abbrev requests : Handler Sorted
requests = record {
  tree = sorted_tree.create;
  cell = λ k. record {
    starttime = 0;
    timeout = request_ontimeout;
    model = 0;
    widget = 0;
    active = false;
    timedout = false;
    reqno = 0;
  };
  freed = λ k. false;
  bad_accesses = [];
  calls = [];
}

abbrev old : FileDb
old = record { lastupdate = 100; filenametomd5 = [] }
