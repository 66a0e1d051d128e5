-- ===== src/FileDb/Paths.antt =====
-- Which files the database holds, in terms of paths below the shared directory, pingu/file_db.c.
use misc_uni_stuff.Base.{
  ℕ, ◌≡◌, refl, sym, subst, List, [], ◌∷◌, ◌++◌, false, none, some, Bool-cases, inl, inr, ◌⊎◌, ◌↔◌,
  ok,
}
use mathlib.Core.List.{Memᴰ}
use mathlib.Core.List.Memᴰ.{head, append_left, append_right, append_cases, cases_cons, not-nil}
use misc_uni_stuff.Glib.{Slist}
use misc_uni_stuff.Search.{Filedata}
use misc_uni_stuff.FileDb.{
  Node, regular, directory, closed, special, dangling, Entries, end, entry, Stat, Md5, hidden,
  recurse_md5,
}
use misc_uni_stuff.FileDb.Scan.{IsSoundEntries, listing, listing_entries, recurse_md5-listing}

-- A directory has an entry with this name.
pub data Has (d_name : List ℕ) (node : Node) : Entries → Type 0 where
  here : (rest : Entries) → Has d_name node (entry d_name node rest)
  later :
      (other : List ℕ) (n : Node) (rest : Entries)
      → Has d_name node rest
      → Has d_name node (entry other n rest)

-- From `bar`, a path with its final slash, a chain of visible names leads to a file that can be
-- read: its whole path, its last name, its size and its bytes.
pub data Leads : List ℕ → Entries → List ℕ → List ℕ → ℕ → List ℕ → Type 0 where
  file :
      (bar : List ℕ) (es : Entries) (name : List ℕ) (size : ℕ) (bytes : List ℕ)
      → hidden name ≡ false
      → Has name (regular size (some bytes)) es
      → Leads bar es (bar ++ name) name size bytes
  down :
      (bar : List ℕ) (es : Entries) (d_name : List ℕ) (below : Entries) (path name : List ℕ)
      (size : ℕ) (bytes : List ℕ)
      → hidden d_name ≡ false
      → Has d_name (directory below) es
      → Leads (bar ++ d_name ++ 47 ∷ []) below path name size bytes
      → Leads bar es path name size bytes

wider :
    (other : List ℕ) (n : Node) {bar : List ℕ} {es : Entries} {path name : List ℕ} {size : ℕ}
    {bytes : List ℕ}
    → Leads bar es path name size bytes
    → Leads bar (entry other n es) path name size bytes
wider other n (file bar es name size bytes seen h) =
    file bar _ name size bytes seen (later other n es h)
wider other n (down bar es d_name below path name size bytes seen h l) =
    down bar _ d_name below path name size bytes seen (later other n es h) l

module _ ⦃m : Md5⦄ where
  abbrev pub filedata : List ℕ → List ℕ → ℕ → List ℕ → Filedata
  filedata path name size bytes = record {
    fullfilename = path;
    filename = name;
    md5sum = m.md5_stream bytes;
    filesize = size;
  }

  has_listing :
      (bar d_name : List ℕ) (node : Node) (es : Entries) (f : Filedata)
      → hidden d_name ≡ false
      → Has d_name node es
      → Memᴰ f (listing (bar ++ d_name) d_name node)
      → Memᴰ f (listing_entries bar es)
  unfolding listing
  has_listing bar d_name node _ f seen (here rest) i =
      rw seen (append_left (listing_entries bar rest) i)
  has_listing bar d_name node _ f seen (later other n rest h) i =
      let below = has_listing bar d_name node rest f seen h i in
      elim (Bool-cases (hidden other)) [
        | inl e ↦ rw e below
        | inr e ↦ rw e (append_right (listing (bar ++ other) other n) below)
      ]

  leads_listing :
      (bar : List ℕ) (es : Entries) (path name : List ℕ) (size : ℕ) (bytes : List ℕ)
      → Leads bar es path name size bytes
      → Memᴰ (filedata path name size bytes) (listing_entries bar es)
  unfolding listing
  leads_listing bar es _ _ _ _ (file _ _ name size bytes seen h) =
      has_listing bar name (regular size (some bytes)) es _ seen h (head refl)
  leads_listing bar es _ _ _ _ (down _ _ d_name below path name size bytes seen h l) =
      has_listing bar d_name (directory below) es _ seen h
        (leads_listing (bar ++ d_name ++ 47 ∷ []) below path name size bytes l)

  -- A file to which some path leads.
  abbrev pub Reached : List ℕ → Entries → Filedata → Type 0
  Reached bar es f =
      (size : ℕ) × (bytes : List ℕ) × (path : List ℕ) × (name : List ℕ) × Leads bar es path name
        size bytes
      × (f ≡ filedata path name size bytes)

  Reached-listing :
      (bar : List ℕ) (es : Entries) (f : Filedata)
      → Reached bar es f
      → Memᴰ f (listing_entries bar es)
  Reached-listing bar es f (size, bytes, path, name, l, e) =
      subst (λ x. Memᴰ x (listing_entries bar es)) (sym e)
        (leads_listing bar es path name size bytes l)

  deeper :
      {bar d_name : List ℕ} {node : Node} {rest : Entries} {f : Filedata}
      → Reached bar rest f
      → Reached bar (entry d_name node rest) f
  deeper {bar} {d_name} {node} (size, bytes, path, name, l, e) =
      (size, bytes, path, name, wider d_name node l, e)

  first_or_later :
      (bar d_name : List ℕ) (node : Node) (rest : Entries) (f : Filedata)
      → Memᴰ f (listing_entries bar (entry d_name node rest))
      → ((hidden d_name ≡ false) × Memᴰ f (listing (bar ++ d_name) d_name node))
        ⊎ Memᴰ f (listing_entries bar rest)
  unfolding listing
  first_or_later bar d_name node rest f i = elim (Bool-cases (hidden d_name)) [
    | inl e ↦ inr (rw e at i)
    | inr e ↦ elim (append_cases (listing (bar ++ d_name) d_name node) (rw e at i)) [
      | inl first ↦ inl (e, first)
      | inr others ↦ inr others
    ]
  ]

  Reached-file :
      (bar d_name : List ℕ) (node : Node) (rest : Entries) (f : Filedata)
      → ((es : Entries) → node ≡ directory es → ⊥)
      → hidden d_name ≡ false
      → Memᴰ f (listing (bar ++ d_name) d_name node)
      → Reached bar (entry d_name node rest) f
  unfolding listing
  Reached-file bar d_name (regular size none) rest f h e i = elim i [ ]
  Reached-file bar d_name (regular size (some bytes)) rest f h e i = elim (cases_cons i) [
    | inl same ↦
        (size, bytes, bar ++ d_name, d_name, file bar _ d_name size bytes e (here rest), same)
    | inr none_left ↦ absurd (not-nil none_left)
  ]
  Reached-file bar d_name (directory es) rest f h e i = absurd (h es refl)
  Reached-file bar d_name closed rest f h e i = elim i [ ]
  Reached-file bar d_name special rest f h e i = elim i [ ]
  Reached-file bar d_name dangling rest f h e i = elim i [ ]

  listing_leads :
      (bar : List ℕ) (es : Entries) (f : Filedata)
      → Memᴰ f (listing_entries bar es)
      → Reached bar es f
  unfolding listing
  listing_leads bar end f i = elim i [ ]
  listing_leads bar (entry d_name (directory es) rest) f i =
      elim (first_or_later bar d_name (directory es) rest f i) [
        | inl (e, first) ↦
            let (size, bytes, path, name, l, same) =
              listing_leads (bar ++ d_name ++ 47 ∷ []) es f first in
            (
              size,
              bytes,
              path,
              name,
              down bar _ d_name es path name size bytes e (here rest) l,
              same,
            )
        | inr others ↦ deeper (listing_leads bar rest f others)
      ]
  listing_leads bar (entry d_name (regular size bytes) rest) f i =
      elim (first_or_later bar d_name (regular size bytes) rest f i) [
        | inl (e, first) ↦ Reached-file bar d_name (regular size bytes) rest f (λ es e. cc) e first
        | inr others ↦ deeper (listing_leads bar rest f others)
      ]
  listing_leads bar (entry d_name closed rest) f i =
      elim (first_or_later bar d_name closed rest f i) [
        | inl (e, first) ↦ Reached-file bar d_name closed rest f (λ es e. cc) e first
        | inr others ↦ deeper (listing_leads bar rest f others)
      ]
  listing_leads bar (entry d_name special rest) f i =
      elim (first_or_later bar d_name special rest f i) [
        | inl (e, first) ↦ Reached-file bar d_name special rest f (λ es e. cc) e first
        | inr others ↦ deeper (listing_leads bar rest f others)
      ]
  listing_leads bar (entry d_name dangling rest) f i =
      elim (first_or_later bar d_name dangling rest f i) [
        | inl (e, first) ↦ Reached-file bar d_name dangling rest f (λ es e. cc) e first
        | inr others ↦ deeper (listing_leads bar rest f others)
      ]

  module _ ⦃g : Slist⦄ (junk : List ℕ → Stat) where
    -- Where no visible name dangles and each visible file can be read, a scan of the shared
    -- directory ends with a database that has a file exactly if a chain of names without a leading
    -- dot leads to it from there: with its path, its last name, its size and the MD5 sum of its
    -- bytes.
    pub recurse_md5_iff :
        (dirname : List ℕ) (es : Entries)
        → IsSoundEntries es
        → (db : List Filedata) × (recurse_md5 junk dirname (directory es) [] ≡ ok db)
          × ((f : Filedata) → Memᴰ f db ↔ Reached (dirname ++ 47 ∷ []) es f)
    recurse_md5_iff dirname es v = (
      listing_entries (dirname ++ 47 ∷ []) es,
      recurse_md5-listing junk dirname es [] v,
      λ f. (listing_leads (dirname ++ 47 ∷ []) es f, Reached-listing (dirname ++ 47 ∷ []) es f),
    )
