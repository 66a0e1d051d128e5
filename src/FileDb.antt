-- ===== src/FileDb.antt =====
-- pingu/file_db.c: the database of the files in the shared directory, and the text of an MD5 sum.
-- The file system is an argument: a tree of what readdir, stat, opendir and reading answer at each
-- place. A directory that contains itself through a link is no such tree.
pub mod Text
pub mod Scan
pub mod Paths
pub mod Update
pub mod Sums
mod Examples
use misc_uni_stuff.Base.{
  ℕ, zero, suc, ◌+◌, ◌/◌, ◌%◌, ◌≡◌, List, [], ◌∷◌, ◌++◌, Bool, true, false, not, ◌||◌, ltb, leb,
  ◌==◌, if◌then◌else◌, Option, none, some, length, Result, ok, fault, out_of_bounds, exited, ◌>>=◌,
}
use misc_uni_stuff.Glib.{Slist, Gtree, g_slist_append}
use misc_uni_stuff.Request.{Handler, compare_func, request_do_timeout}
use misc_uni_stuff.Search.{Filedata}

-- A regular file has its size and its bytes, if it can be read; `closed` is a directory that
-- opendir refuses, `special` is neither file nor directory, and stat fails on what is `dangling`.
mutual
  pub data Node : Type 0 where
    regular : ℕ → Option (List ℕ) → Node
    directory : Entries → Node
    closed special dangling : Node

  pub data Entries : Type 0 where
    end : Entries
    entry : List ℕ → Node → Entries → Entries

pub data Mode : Type 0 where
  is_dir is_reg is_other : Mode

pub record Stat : Type 0 where
  pub st_mode : Mode
  pub st_size : ℕ

-- gnulib's md5_stream, on a file that can be read.
pub record Md5 : Type 0 where
  pub md5_stream : List ℕ → List ℕ
  pub length-md5_stream : (bytes : List ℕ) → length (md5_stream bytes) ≡ 16

-- stat writes nothing where it fails.
pub stat : Node → Stat → Stat
stat (regular size bytes) buf = record { st_mode = is_reg; st_size = size }
stat (directory es) buf = record { st_mode = is_dir; st_size = 0 }
stat closed buf = record { st_mode = is_dir; st_size = 0 }
stat special buf = record { st_mode = is_other; st_size = 0 }
stat dangling buf = buf

-- `*st->d_name == '.'`
abbrev pub hidden : List ℕ → Bool
hidden [] = false
hidden (b ∷ name) = b == 46

-- The hexadecimal digit of a number below 16.
abbrev pub hex_digit : ℕ → ℕ
hex_digit d = if ltb d 10 then 48 + d else 87 + d

-- printf's "%02x" for a byte, as often as the loop goes round.
hex_loop : ℕ → List ℕ → Result (List ℕ)
hex_loop zero md5sum = ok []
hex_loop (suc n) [] = fault out_of_bounds
hex_loop (suc n) (b ∷ md5sum) =
    hex_loop n md5sum >>= λ rest. ok (hex_digit (b / 16) ∷ hex_digit (b % 16) ∷ rest)

pub get_md5sum_text : List ℕ → Result (List ℕ)
unfolding hex_loop
get_md5sum_text md5sum = hex_loop 16 md5sum

module _ ⦃m : Md5⦄ where
  -- The program ends where a file cannot be read.
  pub get_md5sum_file : Node → Result (List ℕ)
  get_md5sum_file (regular size (some bytes)) = ok (m.md5_stream bytes)
  get_md5sum_file (regular size none) = fault exited
  get_md5sum_file (directory es) = fault exited
  get_md5sum_file closed = fault exited
  get_md5sum_file special = fault exited
  get_md5sum_file dangling = fault exited

  module _ ⦃g : Slist⦄ where
    -- The size is taken whole: `filesize` is a size_t, whose width is left open.
    pub add_file : List ℕ → List ℕ → ℕ → Node → List Filedata → Result (List Filedata)
    unfolding get_md5sum_file
    add_file path d_name st_size node db = do
      md5sum ← get_md5sum_file node
      ok (
          g_slist_append db (record {
            fullfilename = path;
            filename = d_name;
            md5sum = md5sum;
            filesize = st_size;
          }))

    -- `junk` is what stands in the variable `buf` of a call before its first stat.
    module _ (junk : List ℕ → Stat) where
      mutual
        unfolding stat add_file

        pub recurse_md5 : List ℕ → Node → List Filedata → Result (List Filedata)
        recurse_md5 dirname (directory es) db = scan (dirname ++ 47 ∷ []) (junk dirname) es db
        recurse_md5 dirname (regular size bytes) db = ok db
        recurse_md5 dirname closed db = ok db
        recurse_md5 dirname special db = ok db
        recurse_md5 dirname dangling db = ok db

        -- The loop over the names, with `bar` the path of the directory.
        pub scan : List ℕ → Stat → Entries → List Filedata → Result (List Filedata)
        scan bar buf end db = ok db
        scan bar buf (entry d_name node rest) db =
            let buf' = stat node buf in
            let below = recurse_md5 (bar ++ d_name) node db in
            let added = add_file (bar ++ d_name) d_name buf'.st_size node db in
            let seen : Result (List Filedata) = elim buf'.st_mode [
              | is_dir ↦ below
              | is_reg ↦ added
              | is_other ↦ ok db
            ] in
            if hidden d_name then scan bar buf rest db else (seen >>= λ db'. scan bar buf' rest db')

-- The static variables.
pub record FileDb : Type 0 where
  pub lastupdate : ℕ
  pub filenametomd5 : List Filedata

module _ ⦃m : Md5⦄ ⦃g : Slist⦄ ⦃t : Gtree compare_func⦄ (junk : List ℕ → Stat) where
  -- The part under the lock: `mtime` is that of the shared directory.
  pub update_database : ℕ → List ℕ → Node → FileDb → Result FileDb
  update_database mtime dir node db =
      let rebuilt = recurse_md5 junk dir node [] in
      if not (mtime == db.lastupdate) || (db.lastupdate == 0)
      then (rebuilt >>= λ files. ok (record { lastupdate = mtime; filenametomd5 = files }))
      else ok db

  -- One run of the job, which then goes back to its pool. `curt` is the time of the sweep.
  pub create_filenametomd5 :
      ℕ → List ℕ → Node → ℕ → FileDb × Handler t.Tree → Result (FileDb × Handler t.Tree)
  unfolding update_database
  create_filenametomd5 mtime dir node curt s = do
    db ← update_database mtime dir node s.0
    ok (db, request_do_timeout s.1 curt)
