-- ===== src/Download/Wanted.antt =====
-- Which file is sent: md5cmp and get_request_wantfile of pingu/download.c.
use misc_uni_stuff.Base.{
  ℕ, zero, suc, ◌+◌, ◌≡◌, ◌≢◌, ◌≤◌, ◌↔◌, refl, ap, ap₂, ◌∙◌, arith, List, [], ◌∷◌, ◌++◌, All, Bool,
  true, false, ◌==◌, ==_iff, Bool-cases, inl, inr, if◌then◌else◌, some, take, length, length-take,
  ok,
}
use misc_uni_stuff.Host.{Host}
use misc_uni_stuff.Packet.{FullPacket, max_packet}
use misc_uni_stuff.Net.Replies.{sending}
use misc_uni_stuff.Search.{Filedata}
use misc_uni_stuff.Download.{
  DownloadData, Transfers, md5cmp, md5cmp_loop, find_wanted, download_send_file,
  get_request_wantfile,
}
use misc_uni_stuff.Download.Waiting.{waiting_reply, download_send_file_reply-sent}

-- Whether the first `n` bytes agree.
abbrev agree : ℕ → List ℕ → List ℕ → Bool
agree zero text bar = true
agree (suc n) [] bar = true
agree (suc n) (t ∷ text) [] = true
agree (suc n) (t ∷ text) (b ∷ bar) = let rest = agree n text bar in if t == b then rest else false

md5cmp_loop-agree :
    (n : ℕ) (text bar : List ℕ)
    → n ≤ length text
    → n ≤ length bar
    → md5cmp_loop n text bar ≡ ok (agree n text bar)
unfolding md5cmp_loop
md5cmp_loop-agree zero text bar h k = refl
md5cmp_loop-agree (suc n) [] bar h k = absurd (omega arith)
md5cmp_loop-agree (suc n) (t ∷ text) [] h k = absurd (omega arith)
md5cmp_loop-agree (suc n) (t ∷ text) (b ∷ bar) h k =
    ground (arith, md5cmp_loop-agree n text bar (omega arith) (omega arith))

agree-take :
    (n : ℕ) (text bar : List ℕ)
    → length text ≡ n
    → n ≤ length bar
    → agree n text bar ≡ true
    → text ≡ take n bar
agree-take zero [] bar h k e = refl
agree-take zero (t ∷ text) bar h k e = absurd (omega arith)
agree-take (suc n) [] bar h k e = absurd (omega arith)
agree-take (suc n) (t ∷ text) [] h k e = absurd (omega arith)
agree-take (suc n) (t ∷ text) (b ∷ bar) h k e = elim (Bool-cases (t == b)) [
  | inl same ↦
      ap₂ (λ x l. x ∷ l) ((==_iff t b).0 same)
        (agree-take n text bar (omega arith) (omega arith) (rw same at e))
  | inr other ↦ absurd (ground arith)
]

take-agree :
    (n : ℕ) (text bar : List ℕ) → n ≤ length bar → text ≡ take n bar → agree n text bar ≡ true
take-agree n text bar k e = rw e (agree_prefix n bar)
  where
    agree_prefix : (n : ℕ) (bar : List ℕ) → agree n (take n bar) bar ≡ true
    agree_prefix zero bar = refl
    agree_prefix (suc n) [] = refl
    agree_prefix (suc n) (b ∷ bar) = ground (arith, agree_prefix n bar)

-- A sum of sixteen bytes is compared with the first sixteen bytes of the request.
pub md5cmp_lem :
    (text bar : List ℕ)
    → length text ≡ 16
    → 16 ≤ length bar
    → (same : Bool) × (md5cmp text bar ≡ ok same) × ((same ≡ true) ↔ (text ≡ take 16 bar))
unfolding md5cmp
md5cmp_lem text bar h k = (
  agree 16 text bar,
  md5cmp_loop-agree 16 text bar (omega arith) k,
  (agree-take 16 text bar h k, take-agree 16 text bar k),
)

find_wanted-first :
    (md5sum : List ℕ) (before after : List Filedata) (f : Filedata)
    → 16 ≤ length md5sum
    → All (λ x. (length x.md5sum ≡ 16) × (x.md5sum ≢ take 16 md5sum)) before
    → f.md5sum ≡ take 16 md5sum
    → find_wanted md5sum (before ++ f ∷ after) ≡ ok (some f)
unfolding find_wanted
find_wanted-first md5sum [] after f long v e =
    let c = md5cmp_lem f.md5sum md5sum (ap length e ∙ length-take 16 md5sum ∙ omega arith) long in
    let same : c.0 ≡ true = c.2.1 e in rw (c.1, same) refl
find_wanted-first md5sum (x ∷ before) after f long v e =
    let c = md5cmp_lem x.md5sum md5sum v.0.0 long in
    elim (Bool-cases c.0) [
      | inl same ↦ absurd (v.0.1 (c.2.0 same))
      | inr other ↦ rw (c.1, other) (find_wanted-first md5sum before after f long v.1 e)
    ]

module _ ⦃h : Host⦄ where
  -- A request for an MD5 sum is answered with the first file of the database that has this sum: its
  -- port and name go to the asker in one datagram, and the job that sends it enters the pool.
  pub get_request_wantfile-first :
      (p : FullPacket) (before after : List Filedata) (f : Filedata) (fileid listenid port : ℕ)
      (s : Transfers)
      → 16 ≤ length p.payload
      → All (λ x. (length x.md5sum ≡ 16) × (x.md5sum ≢ take 16 p.payload)) before
      → f.md5sum ≡ take 16 p.payload
      → length f.filename + 32 ≤ max_packet
      → get_request_wantfile p (before ++ f ∷ after) (some fileid) (some (listenid, port)) s
        ≡ ok (record s {
          net =
              sending s.net
                (s.net.sent ++ waiting_reply p port (take 16 p.payload) f.filename ∷ []);
          download_pool =
              s.download_pool
              ++ some (record { listenport = port; listenid = listenid; fileid = fileid }) ∷ [];
        })
  unfolding get_request_wantfile download_send_file
  get_request_wantfile-first p before after f fileid listenid port s long v e fits =
      let d : DownloadData = record { listenport = port; listenid = listenid; fileid = fileid } in
      rw
        (
          find_wanted-first p.payload before after f long v e,
          download_send_file_reply-sent p d f.filename p.payload s.net long fits
              (length-take 16 p.payload ∙ omega arith),
        )
        refl
