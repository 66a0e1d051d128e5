-- ===== src/Download/Waiting.antt =====
-- The answer that names a port: download_send_file_reply and download_reply_transferwaiting of
-- pingu/download.c.
use misc_uni_stuff.Base.{
  ℕ, ◌+◌, ◌^◌, ◌≡◌, ◌<◌, ◌≤◌, refl, sym, ap, ◌∙◌, arith, List, [], ◌∷◌, ◌++◌, Bool, Option, take,
  drop, length, le→leb, ok, ◌>>=◌, length-append, drop-length-append, append_assoc,
}
use misc_uni_stuff.Host.{Host, store16, load16-store16}
use misc_uni_stuff.Packet.{
  FullPacket, Packet, SockaddrIn, fillin_packet, reply_transferwaiting, read_packet, recvfrom,
  max_packet,
}
use misc_uni_stuff.Packet.Wire.{
  cross, datagram_of, length-datagram_of, fillin_length, recvfrom-append, read_packet-fillin_packet,
}
use misc_uni_stuff.Net.{Net, af_inet}
use misc_uni_stuff.Net.Replies.{sending, transmit-fillin_packet}
use misc_uni_stuff.Search.Query.{IsText, c_string_text}
use misc_uni_stuff.Search.Answers.{copy_name}
use misc_uni_stuff.Download.{
  DownloadData, Transfers, download_directory, full_file, fetch, waiting_address,
  download_send_file_reply, download_reply_transferwaiting,
}

module _ ⦃h : Host⦄ where
  -- Four bytes for the address, the port, the sum and the name.
  abbrev pub waiting : ℕ → List ℕ → List ℕ → List ℕ
  waiting port md5sum filename = 0 ∷ 0 ∷ 0 ∷ 0 ∷ (store16 h.order port ++ (md5sum ++ filename))

  length-store16 : (x : ℕ) → length (store16 h.order x) ≡ 2
  unfolding store16
  length-store16 x = ground arith

  pub length-waiting :
      (port : ℕ) (md5sum filename : List ℕ)
      → length md5sum ≡ 16
      → length (waiting port md5sum filename) ≡ 22 + length filename
  length-waiting port md5sum filename e = omega (
    arith,
    length-append (store16 h.order port) (md5sum ++ filename),
    length-append md5sum filename,
    length-store16 port,
  )

  abbrev pub waiting_reply : FullPacket → ℕ → List ℕ → List ℕ → SockaddrIn × List ℕ
  waiting_reply p port md5sum filename = (
    p.addr,
    datagram_of h
        (fillin_packet reply_transferwaiting (22 + length filename) p.packet.request_handle)
        (waiting port md5sum filename),
  )

  -- A file that fits into a packet is announced in one datagram to the asker.
  pub download_send_file_reply-sent :
      (p : FullPacket) (d : DownloadData) (filename md5sum : List ℕ) (s : Net)
      → 16 ≤ length md5sum
      → length filename + 32 ≤ max_packet
      → length (take 16 md5sum) ≡ 16
      → download_send_file_reply p d filename md5sum s
        ≡ ok (sending s (s.sent ++ waiting_reply p d.listenport (take 16 md5sum) filename ∷ []))
  unfolding download_send_file_reply
  download_send_file_reply-sent p d filename md5sum s long fits e =
      rw (le→leb 16 (length md5sum) long) (
        transmit-fillin_packet p.addr reply_transferwaiting (22 + length filename)
          p.packet.request_handle (waiting d.listenport (take 16 md5sum) filename) s (omega arith)
          (length-waiting d.listenport (take 16 md5sum) filename e))

  drop22 :
      (port : ℕ) (md5sum filename : List ℕ)
      → length md5sum ≡ 16
      → drop 22 (waiting port md5sum filename) ≡ filename
  drop22 port md5sum filename e =
      ap (drop 18) (sym (append_assoc (store16 h.order port) md5sum filename))
      ∙ drop-length-append 18 (store16 h.order port ++ md5sum) filename
          (omega (arith, length-append (store16 h.order port) md5sum, length-store16 port))

  read_waiting :
      (p : Packet) (port : ℕ) (md5sum filename : List ℕ) (ad : SockaddrIn) (sockfd : Option ℕ)
      (connects : Bool) (filefd : Option ℕ) (junk : ℕ) (s : Transfers)
      → length md5sum ≡ 16
      → IsText filename
      → port < 2 ^ 16
      → p.packet_length ≡ 22 + length filename
      → download_reply_transferwaiting
          (record { packet = p; payload = waiting port md5sum filename; addr = ad })
          sockfd
          connects
          filefd
          junk
          s
        ≡ ok (
            fetch
              (record { sin_family = af_inet; sin_port = port; s_addr = ad.s_addr })
              (full_file filename)
              sockfd
              connects
              filefd
              junk
              s)
  unfolding download_reply_transferwaiting waiting_address full_file
  read_waiting p port md5sum filename ad sockfd connects filefd junk s e t small len =
      rw
        (
          copy_name 22 (waiting port md5sum filename) filename p.packet_length
              (drop22 port md5sum filename e) (length-waiting port md5sum filename e) len,
          load16-store16 h.order port (md5sum ++ filename) small,
        )
        refl

  -- Who receives the announcement of a file, from a host of the same byte order and over any
  -- buffer, connects to the sender's address at the announced port, and writes to a file in the
  -- download directory under the announced name, whatever that name is.
  pub download_reply_transferwaiting-waiting :
      (q : FullPacket) (port : ℕ) (md5sum filename : List ℕ) (buffer : List ℕ) (ad : SockaddrIn)
      (sockfd : Option ℕ) (connects : Bool) (filefd : Option ℕ) (junk : ℕ) (s : Transfers)
      → length md5sum ≡ 16
      → IsText filename
      → port < 2 ^ 16
      → length filename + 32 ≤ max_packet
      → q.packet.request_handle < 2 ^ 16
      → (read_packet (recvfrom buffer (waiting_reply q port md5sum filename).1) ad >>= λ p.
          download_reply_transferwaiting p sockfd connects filefd junk s)
        ≡ ok (
            fetch
              (record { sin_family = af_inet; sin_port = port; s_addr = ad.s_addr })
              (download_directory ++ 47 ∷ filename)
              sockfd
              connects
              filefd
              junk
              s)
  unfolding full_file
  download_reply_transferwaiting-waiting q port md5sum filename buffer ad sockfd connects filefd
        junk s e t small fits handle =
      let n = 22 + length filename in
      let d = waiting port md5sum filename in
      let sent = datagram_of h (fillin_packet reply_transferwaiting n q.packet.request_handle) d in
      let long = length-waiting port md5sum filename e in
      let bounded : length sent ≤ max_packet =
        (let l =
            length-datagram_of h (fillin_packet reply_transferwaiting n q.packet.request_handle)
              d in
          omega arith) in
      rw
        (
          recvfrom-append buffer sent bounded,
          read_packet-fillin_packet h h ad reply_transferwaiting n q.packet.request_handle d
              (drop (length sent) buffer) (omega arith) handle long,
        )
        (read_waiting
            (fillin_packet reply_transferwaiting n (cross h.order h.order q.packet.request_handle))
            port md5sum filename ad sockfd connects filefd junk s e t small
            (sym (
                fillin_length h reply_transferwaiting n
                  (cross h.order h.order q.packet.request_handle) d (omega arith) long)
              ∙ long)
          ∙ ap
              (λ name. ok (
                fetch (record { sin_family = af_inet; sin_port = port; s_addr = ad.s_addr })
                  (download_directory ++ 47 ∷ name) sockfd connects filefd junk s))
              (c_string_text filename t))
