-- ===== src/Search.antt =====
-- pingu/filesearch.c: queries for a file name, the replies to them, and how both travel; and
-- set_destination_ip of pingu/socket.c. A model of GTK is the list of its rows.
pub mod Wire
pub mod Passing
pub mod Hops
pub mod Query
pub mod Answers
pub mod Replies
pub mod Forward
pub mod Sending
mod Examples
use misc_uni_stuff.Base.{
  ℕ, ◌+◌, ◌-◌, List, [], ◌∷◌, ◌++◌, Bool, true, false, ltb, leb, ◌==◌, if◌then◌else◌, Option, none,
  some, take, drop, length, Result, ok, fault, null_pointer, out_of_bounds, negative_size, guard,
  ◌>>=◌, ◌>>◌,
}
use misc_uni_stuff.Host.{Host, hton, store16, store32, load16, load32}
use misc_uni_stuff.Glib.{Slist, Gtree, g_slist_append}
use misc_uni_stuff.Packet.{
  Packet, SockaddrIn, FullPacket, fillin_packet, request_filesearch, reply_filesearch,
}
use misc_uni_stuff.Net.{Net, transmit, send_to_all_except, send_to_all, af_inet, servlet_port}
use misc_uni_stuff.Request.{
  Handler, Request, OnTimeout, request_ontimeout, compare_func, update, request_start, request_get,
}

-- `struct filedata` of file_db.h; names are byte strings without their final NUL.
pub record Filedata : Type 0 where
  pub fullfilename : List ℕ
  pub filename : List ℕ
  pub md5sum : List ℕ
  pub filesize : ℕ

pub record FiledataResponse : Type 0 where
  pub filename : List ℕ
  pub md5sum : List ℕ
  pub size : ℕ
  pub addr : SockaddrIn

-- GLib's GPatternSpec: whether a pattern matches a name.
pub record Glob : Type 0 where
  pub pattern_match : List ℕ → List ℕ → Bool

-- The C string at the front of a block: what stands before the first NUL.
pub c_string : List ℕ → List ℕ
c_string [] = []
c_string (b ∷ l) = if b == 0 then [] else b ∷ c_string l

pub set_destination_ip : ℕ → ℕ → ℕ
set_destination_ip local current = if local == 0 then current else local

-- `len` bytes from offset `from` on; a negative length turns into a huge one.
pub copy_out : List ℕ → ℕ → ℕ → Result (List ℕ)
copy_out bytes from until = do
  guard (leb from until) negative_size
  guard (leb until (length bytes)) out_of_bounds
  ok (take (until - from) (drop from bytes))

module _ ⦃h : Host⦄ where
  pub send_file_details : FullPacket → Filedata → Net → Result Net
  unfolding set_destination_ip
  send_file_details p f s = do
    guard (leb 16 (length f.md5sum)) out_of_bounds
    local ← load32 h.order p.payload
    port ← load16 h.order (drop 4 p.payload)
    transmit
        (record {
          sin_family = af_inet;
          sin_port = port;
          s_addr = set_destination_ip local p.addr.s_addr;
        })
        (fillin_packet reply_filesearch (20 + length f.fullfilename) p.packet.request_handle)
        (store32 h.order f.filesize ++ (take 16 f.md5sum ++ f.fullfilename)) s

  -- The pattern that a query asks for.
  pub query_pattern : FullPacket → Result (List ℕ)
  unfolding copy_out
  query_pattern p = do search ← copy_out p.payload 8 p.packet.packet_length; ok (c_string search)

  module _ ⦃m : Glob⦄ where
    pub answer_each : FullPacket → List ℕ → List Filedata → Net → Result Net
    answer_each p search [] s = ok s
    answer_each p search (f ∷ rest) s = do
      s' ← if m.pattern_match search f.filename then send_file_details p f s else ok s
      answer_each p search rest s'

  -- The packet that is passed on, if it is.
  pub passed_on : FullPacket → Result (Option FullPacket)
  passed_on p =
      let ttl = if ltb 2 p.packet.ttl then 2 else p.packet.ttl in
      if ltb 0 ttl
      then (do
        origin ← load32 h.order p.payload
        ok (
            some (record p {
              packet = record p.packet { ttl = ttl - 1 };
              payload =
                  if origin == 0
                  then store32 h.order p.addr.s_addr ++ drop 4 p.payload
                  else p.payload;
            })))
      else ok none

  module _ ⦃g : Slist⦄ where
    pub get_request_search_passon : FullPacket → Net → Result Net
    get_request_search_passon p s = do
      forward ← passed_on p
      elim forward [ none ↦ ok s | some q ↦ send_to_all_except q.addr q.packet q.payload s ]

    module _ ⦃m : Glob⦄ where
      pub get_request_search : FullPacket → List Filedata → Net → Result Net
      get_request_search p database s = do
        search ← query_pattern p
        s' ← answer_each p search database s
        get_request_search_passon p s'

  -- The row for the window.
  pub read_response : FullPacket → Result FiledataResponse
  read_response p = do
    size ← load32 h.order p.payload
    name ← copy_out p.payload 20 p.packet.packet_length
    md5sum ← copy_out p.payload 4 20
    ok (record { filename = c_string name; md5sum = md5sum; size = size; addr = p.addr })

  -- The four bytes of the address, which the receivers fill in, the port, two bytes that malloc
  -- left, and the text.
  pub query_payload : List ℕ → ℕ → ℕ → List ℕ
  query_payload search junk junk' =
      store32 h.order 0 ++ (store16 h.order (hton h.order servlet_port) ++ (junk ∷ junk' ∷ search))

-- The rows of each window, by its model.
abbrev pub Models : Type 0
Models = ℕ → List FiledataResponse

-- The fields that searchfile sets before request_start, the block being new, and those it sets
-- after.
pub fill_request : {T : Type 0} → ℕ → ℕ → Handler T → Handler T
fill_request now k s = record s {
  cell = update s.cell k (record (s.cell k) { starttime = now + 300; timeout = request_ontimeout });
  freed = update s.freed k false;
}

pub fill_data : {T : Type 0} → ℕ → ℕ → ℕ → Handler T → Handler T
fill_data model meek k s = record s {
  cell = update s.cell k (record (s.cell k) { model = model; widget = meek });
}

module _ ⦃g : Slist⦄ ⦃t : Gtree compare_func⦄ ⦃h : Host⦄ where
  -- The row is appended to the list of the request's model.
  pub add_row : ℕ → FullPacket → Models → Result Models
  add_row model p models = do
    k ← read_response p
    ok (update models model (g_slist_append (models model) k))

  -- A request that is not in the table is NULL, and its field is read.
  pub get_reply_search : FullPacket → Handler t.Tree → Models → Result Models
  unfolding add_row
  get_reply_search p requests models = elim (request_get requests p.packet.request_handle) [
    | none ↦ fault null_pointer
    | some l ↦
        if (requests.cell l).active then add_row (requests.cell l).model p models else ok models
  ]

  -- `req`, `model` and `meek` are what malloc, model_gslist_new and filename_search_begin returned.
  pub searchfile :
      List ℕ
      → ℕ
      → ℕ
      → ℕ
      → ℕ
      → ℕ
      → ℕ
      → Handler t.Tree
      → Models
      → Net
      → Result (Handler t.Tree × Models × Net)
  unfolding fill_request fill_data
  searchfile search now req model meek junk junk' requests models net = do
    let started = request_start (fill_request now req requests) req now
    net' ←
        send_to_all (fillin_packet request_filesearch (8 + length search) started.1)
          (query_payload search junk junk') net
    ok (fill_data model meek req started.0, update models model [], net')
