-- ===== src/FileDb/Sums.antt =====
-- The sums in the database, pingu/file_db.c, whatever stands in the shared directory.
use misc_uni_stuff.Base.{
  ℕ, ◌≡◌, ap, subst, List, [], ◌∷◌, ◌++◌, All, All-append, Bool-cases, inl, inr, not, ◌==◌, ◌||◌,
  none, some, length, Result, ok, bind-ok, ok-injective,
}
use misc_uni_stuff.Glib.{Slist, Gtree}
use misc_uni_stuff.Search.{Filedata}
use misc_uni_stuff.Request.{Handler, compare_func, request_do_timeout}
use misc_uni_stuff.FileDb.{
  Node, regular, directory, closed, special, dangling, Entries, end, entry, Stat, Mode, is_dir,
  is_reg, is_other, Md5, FileDb, stat, hidden, get_md5sum_file, add_file, recurse_md5, scan,
  update_database, create_filenametomd5,
}

-- Each file has a sum of sixteen bytes.
abbrev pub HasSums : List Filedata → Type 0
HasSums db = All (λ f. length f.md5sum ≡ 16) db

module _ ⦃m : Md5⦄ where
  get_md5sum_file-length :
      (node : Node) (md5sum : List ℕ) → get_md5sum_file node ≡ ok md5sum → length md5sum ≡ 16
  unfolding get_md5sum_file
  get_md5sum_file-length (regular size (some bytes)) md5sum e =
      subst (λ l. length l ≡ 16) (ok-injective e) (m.length-md5_stream bytes)
  get_md5sum_file-length (regular size none) md5sum e = cc e
  get_md5sum_file-length (directory es) md5sum e = cc e
  get_md5sum_file-length closed md5sum e = cc e
  get_md5sum_file-length special md5sum e = cc e
  get_md5sum_file-length dangling md5sum e = cc e

  module _ ⦃g : Slist⦄ where
    add_file-HasSums :
        (path d_name : List ℕ) (size : ℕ) (node : Node) (db u : List Filedata)
        → HasSums db
        → add_file path d_name size node db ≡ ok u
        → HasSums u
    unfolding add_file
    add_file-HasSums path d_name size node db u v e =
        let (md5sum, read, e') = bind-ok (get_md5sum_file node) _ u e in
        let f : Filedata = record {
          fullfilename = path;
          filename = d_name;
          md5sum = md5sum;
          filesize = size;
        } in
        subst HasSums (ok-injective e') (
          rw (g.append_lem db f) (
            All-append (λ f. length f.md5sum ≡ 16) db (f ∷ []) v
              (get_md5sum_file-length node md5sum read, tt)))

    module _ (junk : List ℕ → Stat) where
      -- One name.
      entry-HasSums :
          (bar : List ℕ) (buf : Stat) (d_name : List ℕ) (node : Node) (rest : Entries)
          (db u : List Filedata)
          → HasSums db
          → ((d : List Filedata) → recurse_md5 junk (bar ++ d_name) node db ≡ ok d → HasSums d)
          → ((b : Stat) (d : List Filedata) → HasSums d → scan junk bar b rest d ≡ ok u → HasSums u)
          → scan junk bar buf (entry d_name node rest) db ≡ ok u
          → HasSums u
      unfolding recurse_md5
      entry-HasSums bar buf d_name node rest db u v below later e =
          elim (Bool-cases (hidden d_name)) [
            | inl dot ↦ later buf db v (rw (dot, scan) at e)
            | inr visible ↦
                let (d, first, e') = bind-ok (seen (stat node buf)) _ u (rw (visible, scan) at e) in
                later (stat node buf) d (seen-HasSums (stat node buf) d first) e'
          ]
        where
          seen : Stat → Result (List Filedata)
          seen b = elim b.st_mode [
            | is_dir ↦ recurse_md5 junk (bar ++ d_name) node db
            | is_reg ↦ add_file (bar ++ d_name) d_name b.st_size node db
            | is_other ↦ ok db
          ]

          mode-HasSums :
              (mode : Mode) (size : ℕ) (d : List Filedata)
              → elim mode [
                | is_dir ↦ recurse_md5 junk (bar ++ d_name) node db
                | is_reg ↦ add_file (bar ++ d_name) d_name size node db
                | is_other ↦ ok db
              ]
                ≡ ok d
              → HasSums d
          mode-HasSums is_dir size d e = below d e
          mode-HasSums is_reg size d e = add_file-HasSums (bar ++ d_name) d_name size node db d v e
          mode-HasSums is_other size d e = subst HasSums (ok-injective e) v

          seen-HasSums : (b : Stat) (d : List Filedata) → seen b ≡ ok d → HasSums d
          seen-HasSums b d e = mode-HasSums b.st_mode b.st_size d e

      scan-HasSums :
          (bar : List ℕ) (buf : Stat) (es : Entries) (db u : List Filedata)
          → HasSums db
          → scan junk bar buf es db ≡ ok u
          → HasSums u
      unfolding recurse_md5
      scan-HasSums bar buf end db u v e = subst HasSums (ok-injective e) v
      scan-HasSums bar buf (entry d_name (directory es) rest) db u v e =
          entry-HasSums bar buf d_name (directory es) rest db u v
            (λ d e'. scan-HasSums (bar ++ d_name ++ 47 ∷ []) (junk (bar ++ d_name)) es db d v e')
            (λ b d w e'. scan-HasSums bar b rest d u w e') e
      scan-HasSums bar buf (entry d_name (regular size bytes) rest) db u v e =
          entry-HasSums bar buf d_name (regular size bytes) rest db u v
            (λ d e'. subst HasSums (ok-injective e') v)
            (λ b d w e'. scan-HasSums bar b rest d u w e') e
      scan-HasSums bar buf (entry d_name closed rest) db u v e =
          entry-HasSums bar buf d_name closed rest db u v
            (λ d e'. subst HasSums (ok-injective e') v)
            (λ b d w e'. scan-HasSums bar b rest d u w e') e
      scan-HasSums bar buf (entry d_name special rest) db u v e =
          entry-HasSums bar buf d_name special rest db u v
            (λ d e'. subst HasSums (ok-injective e') v)
            (λ b d w e'. scan-HasSums bar b rest d u w e') e
      scan-HasSums bar buf (entry d_name dangling rest) db u v e =
          entry-HasSums bar buf d_name dangling rest db u v
            (λ d e'. subst HasSums (ok-injective e') v)
            (λ b d w e'. scan-HasSums bar b rest d u w e') e

      pub recurse_md5-HasSums :
          (dirname : List ℕ) (node : Node) (db u : List Filedata)
          → HasSums db
          → recurse_md5 junk dirname node db ≡ ok u
          → HasSums u
      unfolding recurse_md5
      recurse_md5-HasSums dirname (directory es) db u v e =
          scan-HasSums (dirname ++ 47 ∷ []) (junk dirname) es db u v e
      recurse_md5-HasSums dirname (regular size bytes) db u v e = subst HasSums (ok-injective e) v
      recurse_md5-HasSums dirname closed db u v e = subst HasSums (ok-injective e) v
      recurse_md5-HasSums dirname special db u v e = subst HasSums (ok-injective e) v
      recurse_md5-HasSums dirname dangling db u v e = subst HasSums (ok-injective e) v

      module _ ⦃t : Gtree compare_func⦄ where
        update_database-HasSums :
            (mtime : ℕ) (dir : List ℕ) (node : Node) (db u : FileDb)
            → HasSums db.filenametomd5
            → update_database junk mtime dir node db ≡ ok u
            → HasSums u.filenametomd5
        unfolding update_database
        update_database-HasSums mtime dir node db u v e =
            elim (Bool-cases (not (mtime == db.lastupdate) || (db.lastupdate == 0))) [
              | inl due ↦
                  let (files, run, e') =
                    bind-ok (recurse_md5 junk dir node []) _ u (rw (due, update_database) at e) in
                  subst (λ (x : FileDb). HasSums x.filenametomd5) (ok-injective e')
                    (recurse_md5-HasSums dir node [] files tt run)
              | inr same ↦
                  subst (λ (x : FileDb). HasSums x.filenametomd5)
                    (ok-injective (rw (same, update_database) at e)) v
            ]

        -- What a run of the job leaves.
        pub create_filenametomd5-HasSums :
            (mtime : ℕ) (dir : List ℕ) (node : Node) (curt : ℕ) (db : FileDb)
            (requests : Handler t.Tree) (u : FileDb × Handler t.Tree)
            → HasSums db.filenametomd5
            → create_filenametomd5 junk mtime dir node curt (db, requests) ≡ ok u
            → HasSums u.0.filenametomd5 × (request_do_timeout requests curt ≡ u.1)
        unfolding create_filenametomd5
        create_filenametomd5-HasSums mtime dir node curt db requests u v e =
            let (x, run, e') = bind-ok (update_database junk mtime dir node db) _ u e in
            let same = ok-injective e' in
            (
              subst (λ (y : FileDb × Handler t.Tree). HasSums y.0.filenametomd5) same
                  (update_database-HasSums mtime dir node db x v run),
              ap (λ (y : FileDb × Handler t.Tree). y.1) same,
            )
