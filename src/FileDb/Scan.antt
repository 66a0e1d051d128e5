-- ===== src/FileDb/Scan.antt =====
-- The walk of recurse_md5 over a directory tree, pingu/file_db.c.
use misc_uni_stuff.Base.{
  ℕ, ◌≡◌, sym, ap, ◌∙◌, List, [], ◌∷◌, ◌++◌, if◌then◌else◌, none, some, Bool-cases, inl, inr, ok,
  append_assoc, append-nil,
}
use misc_uni_stuff.Glib.{Slist}
use misc_uni_stuff.Search.{Filedata}
use misc_uni_stuff.FileDb.{
  Node, regular, directory, closed, special, dangling, Entries, end, is_dir, is_reg, is_other,
  entry, Stat, Md5, stat, hidden, get_md5sum_file, add_file, recurse_md5, scan,
}

-- No name that is looked at is dangling, and each file that is looked at can be read.
unfoldable mutual
  pub IsSound : Node → Type 0
  IsSound (regular size (some bytes)) = Unit {0}
  IsSound (regular size none) = ⊥
  IsSound (directory es) = IsSoundEntries es
  IsSound closed = Unit {0}
  IsSound special = Unit {0}
  IsSound dangling = ⊥

  pub IsSoundEntries : Entries → Type 0
  IsSoundEntries end = Unit {0}
  IsSoundEntries (entry d_name node rest) =
      (if hidden d_name then Unit {0} else IsSound node) × IsSoundEntries rest

module _ ⦃m : Md5⦄ where
  -- The files below a node that stands at `path` under the name `name`, in the order of the names.
  unfoldable mutual
    pub listing : List ℕ → List ℕ → Node → List Filedata
    listing path name (regular size none) = []
    listing path name (regular size (some bytes)) =
        record {
          fullfilename = path;
          filename = name;
          md5sum = m.md5_stream bytes;
          filesize = size;
        }
        ∷ []
    listing path name (directory es) = listing_entries (path ++ 47 ∷ []) es
    listing path name closed = []
    listing path name special = []
    listing path name dangling = []

    pub listing_entries : List ℕ → Entries → List Filedata
    listing_entries bar end = []
    listing_entries bar (entry d_name node rest) =
        let here = listing (bar ++ d_name) d_name node in
        let others = listing_entries bar rest in if hidden d_name then others else here ++ others

  module _ ⦃g : Slist⦄ (junk : List ℕ → Stat) where
    scan-listing :
        (bar : List ℕ) (buf : Stat) (es : Entries) (db : List Filedata)
        → IsSoundEntries es
        → scan junk bar buf es db ≡ ok (db ++ listing_entries bar es)
    unfolding recurse_md5 listing IsSound add_file get_md5sum_file stat
    scan-listing bar buf end db v = ap ok (sym (append-nil db))
    scan-listing bar buf (entry d_name (regular size (some bytes)) rest) db v =
        let f : Filedata = record {
          fullfilename = bar ++ d_name;
          filename = d_name;
          md5sum = m.md5_stream bytes;
          filesize = size;
        } in
        elim (Bool-cases (hidden d_name)) [
          | inl e ↦ rw e (scan-listing bar buf rest db v.1)
          | inr e ↦
              rw (e, g.append_lem db f)
                (scan-listing bar (record { st_mode = is_reg; st_size = size }) rest (db ++ f ∷ [])
                    v.1
                  ∙ ap ok (append_assoc db (f ∷ []) (listing_entries bar rest)))
        ]
    scan-listing bar buf (entry d_name (regular size none) rest) db v =
        elim (Bool-cases (hidden d_name)) [
          | inl e ↦ rw e (scan-listing bar buf rest db v.1)
          | inr e ↦ absurd (rw e at v).0
        ]
    scan-listing bar buf (entry d_name (directory es) rest) db v =
        let bar' = bar ++ d_name ++ 47 ∷ [] in
        elim (Bool-cases (hidden d_name)) [
          | inl e ↦ rw e (scan-listing bar buf rest db v.1)
          | inr e ↦
              rw (e, scan-listing bar' (junk (bar ++ d_name)) es db (rw e at v).0)
                (scan-listing bar (record { st_mode = is_dir; st_size = 0 }) rest
                    (db ++ listing_entries bar' es) v.1
                  ∙ ap ok (append_assoc db (listing_entries bar' es) (listing_entries bar rest)))
        ]
    scan-listing bar buf (entry d_name closed rest) db v = elim (Bool-cases (hidden d_name)) [
      | inl e ↦ rw e (scan-listing bar buf rest db v.1)
      | inr e ↦ rw e (scan-listing bar (record { st_mode = is_dir; st_size = 0 }) rest db v.1)
    ]
    scan-listing bar buf (entry d_name special rest) db v = elim (Bool-cases (hidden d_name)) [
      | inl e ↦ rw e (scan-listing bar buf rest db v.1)
      | inr e ↦ rw e (scan-listing bar (record { st_mode = is_other; st_size = 0 }) rest db v.1)
    ]
    scan-listing bar buf (entry d_name dangling rest) db v = elim (Bool-cases (hidden d_name)) [
      | inl e ↦ rw e (scan-listing bar buf rest db v.1)
      | inr e ↦ absurd (rw e at v).0
    ]

    -- What the walk adds to the list is the listing of the tree, where no visible name dangles and
    -- each visible file can be read.
    pub recurse_md5-listing :
        (dirname : List ℕ) (es : Entries) (db : List Filedata)
        → IsSoundEntries es
        → recurse_md5 junk dirname (directory es) db
          ≡ ok (db ++ listing_entries (dirname ++ 47 ∷ []) es)
    unfolding recurse_md5
    recurse_md5-listing dirname es db v = scan-listing (dirname ++ 47 ∷ []) (junk dirname) es db v
