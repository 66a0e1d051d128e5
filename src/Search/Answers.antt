-- ===== src/Search/Answers.antt =====
-- The answers to a query: send_file_details, get_request_search and the reading of an answer, of
-- pingu/filesearch.c.
use misc_uni_stuff.Base.{
  ℕ, ◌+◌, ◌-◌, ◌^◌, ◌<◌, ◌≤◌, ◌≡◌, arith, refl, sym, ap, ◌∙◌, List, [], ◌∷◌, ◌++◌, All, drop,
  length, le→leb, ok, ◌>>=◌, if◌then◌else◌, Bool-cases, inl, inr, drop-length-append,
  take-length-append, take_all, length-append, append_assoc, append-nil,
}
use misc_uni_stuff.Host.{Host, load16, load32, store32, load32-store32}
use misc_uni_stuff.Glib.{Slist}
use misc_uni_stuff.Net.{Net, af_inet}
use misc_uni_stuff.Net.Replies.{sending, transmit-fillin_packet}
use misc_uni_stuff.Packet.{
  FullPacket, Packet, SockaddrIn, fillin_packet, reply_filesearch, read_packet, recvfrom,
  max_packet,
}
use misc_uni_stuff.Packet.Wire.{
  datagram_of, length-datagram_of, fillin_length, recvfrom-append, cross_same,
  read_packet-fillin_packet,
}
use misc_uni_stuff.Search.Query.{IsText, c_string_text}
use misc_uni_stuff.Search.Wire.{length-store32}
use misc_uni_stuff.Search.{
  Filedata, Glob, set_destination_ip, copy_out, send_file_details, query_pattern, answer_each,
  get_request_search_passon, get_request_search, read_response,
}

-- A file that an answer can tell of: an MD5 sum, a size of 32 bits and a name without NUL that fits
-- into a packet.
pub record IsFiledata (f : Filedata) : Type 0 where
  pub md5sum : length f.md5sum ≡ 16
  pub filesize : f.filesize < 2 ^ 32
  pub fullfilename : length f.fullfilename + 30 ≤ max_packet
  pub text : IsText f.fullfilename

-- Copying a name that ends a block, from `at` on.
pub copy_name :
    (at : ℕ) (l : List ℕ) (name : List ℕ) (n : ℕ)
    → drop at l ≡ name
    → length l ≡ at + length name
    → n ≡ at + length name
    → copy_out l at n ≡ ok name
unfolding copy_out
copy_name at l name n e long len =
    let whole = take_all (length name) name (omega arith) in
    let amount : at + length name - at ≡ length name = omega arith in
    rw
      (
        len,
        le→leb at (at + length name) (omega arith),
        le→leb (at + length name) (length l) (omega arith),
        amount,
        e,
        whole,
      )
      refl

module _ ⦃h : Host⦄ where
  -- The bytes that tell of a file.
  abbrev pub details : Filedata → List ℕ
  details f = store32 h.order f.filesize ++ (f.md5sum ++ f.fullfilename)

  length-details : (f : Filedata) → IsFiledata f → length (details f) ≡ 20 + length f.fullfilename
  length-details f v =
      let a = length-append (store32 h.order f.filesize) (f.md5sum ++ f.fullfilename) in
      let b = length-append f.md5sum f.fullfilename in
      let c = length-store32 h.order f.filesize in let d = v.md5sum in omega arith

  -- The datagram that tells of a file, and where it goes.
  abbrev pub answer : FullPacket → ℕ → ℕ → Filedata → SockaddrIn × List ℕ
  answer p local port f = (
    record {
      sin_family = af_inet;
      sin_port = port;
      s_addr = set_destination_ip local p.addr.s_addr;
    },
    datagram_of h
        (fillin_packet reply_filesearch (20 + length f.fullfilename) p.packet.request_handle)
        (details f),
  )

  send_file_details-sent :
      (p : FullPacket) (f : Filedata) (local port : ℕ) (s : Net)
      → load32 h.order p.payload ≡ ok local
      → load16 h.order (drop 4 p.payload) ≡ ok port
      → IsFiledata f
      → send_file_details p f s ≡ ok (sending s (s.sent ++ answer p local port f ∷ []))
  unfolding send_file_details
  send_file_details-sent p f local port s address service v =
      let long = le→leb 16 (length f.md5sum) (let e = v.md5sum in omega arith) in
      let whole = take_all 16 f.md5sum (let e = v.md5sum in omega arith) in
      let small : 20 + length f.fullfilename < 2 ^ 16 = (let e = v.fullfilename in omega arith) in
      rw (long, address, service, whole)
        (transmit-fillin_packet _ reply_filesearch (20 + length f.fullfilename)
          p.packet.request_handle (details f) s small (length-details f v))

  module _ ⦃m : Glob⦄ where
    -- One answer for each file whose name matches, in the order of the database.
    abbrev pub answers : FullPacket → ℕ → ℕ → List ℕ → List Filedata → List (SockaddrIn × List ℕ)
    answers p local port text [] = []
    answers p local port text (f ∷ rest) =
        if m.pattern_match text f.filename
        then answer p local port f ∷ answers p local port text rest
        else answers p local port text rest

    answer_each-sent :
        (p : FullPacket) (text : List ℕ) (local port : ℕ) (files : List Filedata) (s : Net)
        → load32 h.order p.payload ≡ ok local
        → load16 h.order (drop 4 p.payload) ≡ ok port
        → All IsFiledata files
        → answer_each p text files s ≡ ok (sending s (s.sent ++ answers p local port text files))
    unfolding answer_each
    answer_each-sent p text local port [] s address service v =
        ap (λ x. ok (sending s x)) (sym (append-nil s.sent))
    answer_each-sent p text local port (f ∷ files) s address service v =
        elim (Bool-cases (m.pattern_match text f.filename)) [
          | inl e ↦
              (let next = sending s (s.sent ++ answer p local port f ∷ []) in
                rw
                  (
                    e,
                    send_file_details-sent p f local port s address service v.0,
                    answer_each-sent p text local port files next address service v.1,
                  )
                  (ap (λ x. ok (sending s x))
                    (append_assoc s.sent (answer p local port f ∷ [])
                      (answers p local port text files))))
          | inr e ↦ (rw e (answer_each-sent p text local port files s address service v.1))
        ]

    module _ ⦃g : Slist⦄ where
      -- A query with a text, an address and a port, at a host whose shared files all have sums of
      -- sixteen bytes, sizes below 2^32 and names without NUL that fit into a packet, is answered
      -- once for each file of the database whose name matches it, to the address and the port that
      -- it asks for, and then passed on.
      pub get_request_search-sent :
          (p : FullPacket) (text : List ℕ) (local port : ℕ) (files : List Filedata) (s : Net)
          → query_pattern p ≡ ok text
          → load32 h.order p.payload ≡ ok local
          → load16 h.order (drop 4 p.payload) ≡ ok port
          → All IsFiledata files
          → get_request_search p files s
            ≡ get_request_search_passon p (sending s (s.sent ++ answers p local port text files))
      unfolding get_request_search
      get_request_search-sent p text local port files s asked address service v =
          rw (asked, answer_each-sent p text local port files s address service v) refl

  drop20 : (f : Filedata) → IsFiledata f → drop 20 (details f) ≡ f.fullfilename
  drop20 f v =
      ap (drop 20) (sym (append_assoc (store32 h.order f.filesize) f.md5sum f.fullfilename))
      ∙ drop-length-append 20 (store32 h.order f.filesize ++ f.md5sum) f.fullfilename (
          let a = length-append (store32 h.order f.filesize) f.md5sum in
          let b = length-store32 h.order f.filesize in let c = v.md5sum in omega arith)

  copy_md5sum : (f : Filedata) → IsFiledata f → copy_out (details f) 4 20 ≡ ok f.md5sum
  unfolding copy_out
  copy_md5sum f v =
      let long = length-details f v in
      let sum =
        drop-length-append 4 (store32 h.order f.filesize) (f.md5sum ++ f.fullfilename)
          (length-store32 h.order f.filesize) in
      let first = take-length-append 16 f.md5sum f.fullfilename v.md5sum in
      rw (le→leb 20 (length (details f)) (omega arith), sum, first) refl

  read_response-details :
      (f : Filedata) (p : Packet) (ad : SockaddrIn)
      → IsFiledata f
      → p.packet_length ≡ 20 + length f.fullfilename
      → read_response (record { packet = p; payload = details f; addr = ad })
        ≡ ok (record { filename = f.fullfilename; md5sum = f.md5sum; size = f.filesize; addr = ad })
  unfolding read_response
  read_response-details f p ad v len =
      rw
        (
          load32-store32 h.order f.filesize (f.md5sum ++ f.fullfilename) v.filesize,
          copy_name 20 (details f) f.fullfilename p.packet_length (drop20 f v) (length-details f v)
              len,
          copy_md5sum f v,
          c_string_text f.fullfilename v.text,
        )
        refl

  -- The answer as it is read.
  abbrev pub arrived : FullPacket → Filedata → SockaddrIn → FullPacket
  arrived q f ad = record {
    packet = fillin_packet reply_filesearch (20 + length f.fullfilename) q.packet.request_handle;
    payload = details f;
    addr = ad;
  }

  pub read_answer :
      (q : FullPacket) (f : Filedata) (local port : ℕ) (buffer : List ℕ) (ad : SockaddrIn)
      → IsFiledata f
      → q.packet.request_handle < 2 ^ 16
      → read_packet (recvfrom buffer (answer q local port f).1) ad ≡ ok (arrived q f ad)
  read_answer q f local port buffer ad v small =
      let n = 20 + length f.fullfilename in
      let handle = q.packet.request_handle in
      let sent = datagram_of h (fillin_packet reply_filesearch n handle) (details f) in
      let fits : length f.fullfilename + 30 ≤ max_packet = v.fullfilename in
      let long = length-details f v in
      let size = length-datagram_of h (fillin_packet reply_filesearch n handle) (details f) in
      let bounded : length sent ≤ max_packet = omega arith in
      rw (recvfrom-append buffer sent bounded) (
        read_packet-fillin_packet h h ad reply_filesearch n handle (details f)
          (drop (length sent) buffer) (omega arith) small long
        ∙ ap
            (λ x. ok (record {
              packet = fillin_packet reply_filesearch n x;
              payload = details f;
              addr = ad;
            }))
            (cross_same h.order handle))

  pub read_response-arrived :
      (q : FullPacket) (f : Filedata) (ad : SockaddrIn)
      → IsFiledata f
      → read_response (arrived q f ad)
        ≡ ok (record { filename = f.fullfilename; md5sum = f.md5sum; size = f.filesize; addr = ad })
  read_response-arrived q f ad v =
      let n = 20 + length f.fullfilename in
      let handle = q.packet.request_handle in
      let fits : length f.fullfilename + 30 ≤ max_packet = v.fullfilename in
      let long = length-details f v in
      read_response-details f (fillin_packet reply_filesearch n handle) ad v
        (sym (fillin_length h reply_filesearch n handle (details f) (omega arith) long) ∙ long)

  -- A file with a sum of sixteen bytes, a size below 2^32 and a name without NUL that fits into a
  -- packet: for a query that carries an address and a port and has a handle of 16 bits,
  -- send_file_details sends one datagram, to the address it answers to and that port, and this
  -- datagram, received over any buffer by a host of the same byte order, is read as the file's
  -- name, MD5 sum and size, and the address that it came from.
  pub read_response-send_file_details :
      (q : FullPacket) (f : Filedata) (local port : ℕ) (buffer : List ℕ) (ad : SockaddrIn) (s : Net)
      → load32 h.order q.payload ≡ ok local
      → load16 h.order (drop 4 q.payload) ≡ ok port
      → IsFiledata f
      → q.packet.request_handle < 2 ^ 16
      → (to : SockaddrIn) × (bytes : List ℕ) × (send_file_details q f s
          ≡ ok (record s { sent = s.sent ++ (to, bytes) ∷ [] }))
        × (to.s_addr ≡ set_destination_ip local q.addr.s_addr)
        × (to.sin_port ≡ port)
        × ((read_packet (recvfrom buffer bytes) ad >>= read_response)
            ≡ ok (record {
              filename = f.fullfilename;
              md5sum = f.md5sum;
              size = f.filesize;
              addr = ad;
            }))
  read_response-send_file_details q f local port buffer ad s address service v small = (
    (answer q local port f).0,
    (answer q local port f).1,
    send_file_details-sent q f local port s address service v,
    refl,
    refl,
    rw (read_answer q f local port buffer ad v small) (read_response-arrived q f ad v),
  )
