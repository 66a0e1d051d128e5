-- ===== src/FileDb/Update.antt =====
-- When the database is built again: create_filenametomd5 of pingu/file_db.c.
use misc_uni_stuff.Base.{
  ℕ, ◌≡◌, refl, List, [], ◌∷◌, ◌++◌, not, ◌||◌, ◌==◌, if◌then◌else◌, ok, Bool-cases, inl, inr,
}
use misc_uni_stuff.Glib.{Slist, Gtree}
use misc_uni_stuff.Request.{Handler, compare_func, request_do_timeout}
use misc_uni_stuff.FileDb.{
  Entries, directory, Stat, Md5, FileDb, update_database, create_filenametomd5,
}
use misc_uni_stuff.FileDb.Scan.{IsSoundEntries, listing_entries, recurse_md5-listing}

module _ ⦃m : Md5⦄ ⦃g : Slist⦄ ⦃t : Gtree compare_func⦄ (junk : List ℕ → Stat) where
  pub create_filenametomd5-listing :
      (mtime : ℕ) (dir : List ℕ) (es : Entries) (curt : ℕ) (db : FileDb) (requests : Handler t.Tree)
      → IsSoundEntries es
      → create_filenametomd5 junk mtime dir (directory es) curt (db, requests)
        ≡ ok (
          (if not (mtime == db.lastupdate) || (db.lastupdate == 0)
              then record {
                lastupdate = mtime;
                filenametomd5 = listing_entries (dir ++ 47 ∷ []) es;
              }
              else db),
          request_do_timeout requests curt,
        )
  unfolding create_filenametomd5 update_database
  create_filenametomd5-listing mtime dir es curt db requests v =
      rw (recurse_md5-listing junk dir es [] v)
        (elim (Bool-cases (not (mtime == db.lastupdate) || (db.lastupdate == 0))) [
          | inl e ↦ rw e refl
          | inr e ↦ rw e refl
        ])
