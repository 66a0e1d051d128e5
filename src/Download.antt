-- ===== src/Download.antt =====
-- pingu/download.c: a request for the file with an MD5 sum, the answer that names a port, and what
-- the asker makes of it. What the system calls return is an argument; the sockets that are
-- connected and the files that are created are logged.
pub mod Wanted
pub mod Waiting
pub mod Loops
pub mod Jobs
pub mod Asking
pub mod Sending
mod Examples
use misc_uni_stuff.Base.{
  ℕ, suc, ◌+◌, List, [], ◌∷◌, ◌++◌, Bool, true, false, leb, ◌==◌, if◌then◌else◌, Option, none, some,
  take, drop, length, Result, ok, fault, out_of_bounds, guard, ◌>>=◌, ◌>>◌,
}
use misc_uni_stuff.Host.{Host, store16, load16}
use misc_uni_stuff.Packet.{
  FullPacket, SockaddrIn, fillin_packet, request_wantfile, reply_transferwaiting,
}
use misc_uni_stuff.Net.{Net, transmit, af_inet}
use misc_uni_stuff.Glib.{Slist, Gtree}
use misc_uni_stuff.Request.{Handler, compare_func, download_request_timeout, update, request_start}
use misc_uni_stuff.Search.{Filedata, FiledataResponse, copy_out, c_string}

abbrev pub max_digest_bin_bytes : ℕ
max_digest_bin_bytes = 16

-- "../downloads"
abbrev pub download_directory : List ℕ
download_directory = 46 ∷ 46 ∷ 47 ∷ 100 ∷ 111 ∷ 119 ∷ 110 ∷ 108 ∷ 111 ∷ 97 ∷ 100 ∷ 115 ∷ []

pub record DownloadData : Type 0 where
  pub listenport : ℕ
  pub listenid : ℕ
  pub fileid : ℕ

-- The jobs of the two pools, and what was connected and created. A job of the first may be NULL.
pub record Transfers : Type 0 where
  pub net : Net
  pub download_pool : List (Option DownloadData)
  pub upload_pool : List DownloadData
  pub connected : List SockaddrIn
  pub created : List (List ℕ)

-- The loop of md5cmp, with `n` bytes to go; it stops at the first difference.
md5cmp_loop : ℕ → List ℕ → List ℕ → Result Bool
md5cmp_loop ℕ.zero text bar = ok true
md5cmp_loop (suc n) (t ∷ text) (b ∷ bar) =
    let rest = md5cmp_loop n text bar in if t == b then rest else ok false
md5cmp_loop (suc n) [] bar = fault out_of_bounds
md5cmp_loop (suc n) (t ∷ text) [] = fault out_of_bounds

pub md5cmp : List ℕ → List ℕ → Result Bool
unfolding md5cmp_loop
md5cmp text bar = md5cmp_loop max_digest_bin_bytes text bar

-- The search through the database for the first file with the sum.
pub find_wanted : List ℕ → List Filedata → Result (Option Filedata)
find_wanted md5sum [] = ok none
find_wanted md5sum (f ∷ m) =
    let rest = find_wanted md5sum m in
    md5cmp f.md5sum md5sum >>= λ same. if same then ok (some f) else rest

-- The path that an answer is written to.
pub full_file : List ℕ → List ℕ
full_file filename = download_directory ++ 47 ∷ c_string filename

-- `opened` is what socket returned, and `reused` and `listens` whether setsockopt and listen
-- succeed.
abbrev pub download_create_socket : Option ℕ → Bool → Bool → Option ℕ
download_create_socket none reused listens = none
download_create_socket (some listening) reused listens =
    if reused then (if listens then some listening else none) else none

-- The new socket and the port that getsockname tells, where it succeeds.
abbrev pub listening_socket : Option ℕ → Option ℕ → Option (ℕ × ℕ)
listening_socket none bound = none
listening_socket (some listenid) none = none
listening_socket (some listenid) (some port) = some (listenid, port)

module _ ⦃h : Host⦄ where
  pub download_send_file_reply : FullPacket → DownloadData → List ℕ → List ℕ → Net → Result Net
  download_send_file_reply p d filename md5sum s = do
    guard (leb max_digest_bin_bytes (length md5sum)) out_of_bounds
    transmit p.addr
        (fillin_packet reply_transferwaiting (22 + length filename) p.packet.request_handle)
        (0
          ∷ 0
          ∷ 0
          ∷ 0
          ∷ (store16 h.order d.listenport ++ (take max_digest_bin_bytes md5sum ++ filename)))
        s

  -- `opened` is the file, and `listening` the socket with its port, where the calls succeed.
  pub download_send_file :
      FullPacket
      → List ℕ
      → List ℕ
      → Option ℕ
      → Option (ℕ × ℕ)
      → Net
      → Result (Net × Option DownloadData)
  download_send_file p md5sum sfilename none listening s = ok (s, none)
  download_send_file p md5sum sfilename (some fileid) none s = ok (s, none)
  download_send_file p md5sum sfilename (some fileid) (some (listenid, port)) s = do
    let d : DownloadData = record { listenport = port; listenid = listenid; fileid = fileid }
    s' ← download_send_file_reply p d sfilename md5sum s
    ok (s', some d)

  pub get_request_wantfile :
      FullPacket → List Filedata → Option ℕ → Option (ℕ × ℕ) → Transfers → Result Transfers
  get_request_wantfile p database opened listening s = do
    wanted ← find_wanted p.payload database
    elim wanted [
      | none ↦ ok s
      | some f ↦ download_send_file p p.payload f.filename opened listening s.net >>= λ done.
          ok (record s { net = done.0; download_pool = s.download_pool ++ done.1 ∷ [] })
    ]

  -- The address that the answer is fetched from.
  pub waiting_address : FullPacket → Result SockaddrIn
  waiting_address p = do
    port ← load16 h.order (drop 4 p.payload)
    ok (record { sin_family = af_inet; sin_port = port; s_addr = p.addr.s_addr })

  -- `sockfd` is the new socket, `connects` whether it connects, and `filefd` the new file. The port
  -- in the job is what malloc left.
  pub fetch : SockaddrIn → List ℕ → Option ℕ → Bool → Option ℕ → ℕ → Transfers → Transfers
  fetch ad fullfile none connects filefd junk s = s
  fetch ad fullfile (some sockfd) false filefd junk s = record s {
    connected = s.connected ++ ad ∷ [];
  }
  fetch ad fullfile (some sockfd) true none junk s = record s {
    connected = s.connected ++ ad ∷ [];
    created = s.created ++ fullfile ∷ [];
  }
  fetch ad fullfile (some sockfd) true (some filefd) junk s = record s {
    connected = s.connected ++ ad ∷ [];
    created = s.created ++ fullfile ∷ [];
    upload_pool =
        s.upload_pool ++ record { listenport = junk; listenid = sockfd; fileid = filefd } ∷ [];
  }

  pub download_reply_transferwaiting :
      FullPacket → Option ℕ → Bool → Option ℕ → ℕ → Transfers → Result Transfers
  unfolding waiting_address fetch full_file
  download_reply_transferwaiting p sockfd connects filefd junk s = do
    filename ← copy_out p.payload 22 p.packet.packet_length
    ad ← waiting_address p
    ok (fetch ad (full_file filename) sockfd connects filefd junk s)

-- The fields that download_make_request sets before request_start; the block is new.
pub fill_timeout : {T : Type 0} → ℕ → Handler T → Handler T
fill_timeout k s = record s {
  cell = update s.cell k (record (s.cell k) { timeout = download_request_timeout });
  freed = update s.freed k false;
}

module _ ⦃g : Slist⦄ ⦃t : Gtree compare_func⦄ ⦃h : Host⦄ where
  -- `req` is what malloc returned.
  pub download_make_request :
      List ℕ → SockaddrIn → ℕ → ℕ → Handler t.Tree → Net → Result (Handler t.Tree × Net)
  unfolding fill_timeout
  download_make_request md5sum host now req requests net = do
    let started = request_start (fill_timeout req requests) req now
    net' ← transmit host (fillin_packet request_wantfile max_digest_bin_bytes started.1) md5sum net
    ok (started.0, net')

  -- The row that the user clicked on.
  pub get_reply_download_file :
      FiledataResponse → ℕ → ℕ → Handler t.Tree → Net → Result (Handler t.Tree × Net)
  get_reply_download_file k now req requests net =
      download_make_request k.md5sum k.addr now req requests net
