-- ===== src/Download/Asking.antt =====
-- The request for a file, download_make_request of pingu/download.c.
use misc_uni_stuff.Base.{ℕ, ◌^◌, ◌≡◌, ◌<◌, refl, arith, List, [], ◌∷◌, ◌++◌, length, ok}
use misc_uni_stuff.Host.{Host}
use misc_uni_stuff.Glib.{Slist, Gtree}
use misc_uni_stuff.Packet.{SockaddrIn, fillin_packet, request_wantfile}
use misc_uni_stuff.Packet.Wire.{datagram_of}
use misc_uni_stuff.Net.{Net}
use misc_uni_stuff.Net.Replies.{sending, transmit-fillin_packet}
use misc_uni_stuff.Request.{Handler, compare_func, request_start}
use misc_uni_stuff.Request.Numbers.{IsHandler, request_start_number}
use misc_uni_stuff.Search.{FiledataResponse}
use misc_uni_stuff.Download.{fill_timeout, download_make_request, get_reply_download_file}

module _ ⦃g : Slist⦄ ⦃t : Gtree compare_func⦄ where
  pub fill_timeout-IsHandler :
      (k : ℕ) (s : Handler t.Tree) → IsHandler s → IsHandler (fill_timeout k s)
  unfolding fill_timeout
  fill_timeout-IsHandler k s v = record {
    positive = v.positive;
    fits = v.fits;
    numbered = λ j i e. ground (arith, v.numbered j i);
    alive = λ j i e. ground (arith, v.alive j i);
  }

  -- The table after the request, and its number.
  abbrev pub wanting : ℕ → ℕ → Handler t.Tree → Handler t.Tree × ℕ
  wanting now req s = request_start (fill_timeout req s) req now

  pub wanting-lt : (now req : ℕ) (s : Handler t.Tree) → IsHandler s → (wanting now req s).1 < 2 ^ 16
  wanting-lt now req s v =
      (request_start_number (fill_timeout req s) req now (fill_timeout-IsHandler req s v)).1

  module _ ⦃h : Host⦄ where
    abbrev pub want_datagram : ℕ → List ℕ → List ℕ
    want_datagram n md5sum = datagram_of h (fillin_packet request_wantfile 16 n) md5sum

    download_make_request-sent :
        (md5sum : List ℕ) (host : SockaddrIn) (now req : ℕ) (s : Handler t.Tree) (net : Net)
        → length md5sum ≡ 16
        → download_make_request md5sum host now req s net
          ≡ ok (
            (wanting now req s).0,
            sending net (net.sent ++ (host, want_datagram (wanting now req s).1 md5sum) ∷ []),
          )
    unfolding download_make_request
    download_make_request-sent md5sum host now req s net e =
        rw
          (transmit-fillin_packet host request_wantfile 16 (wanting now req s).1 md5sum net
            (omega arith) e)
          refl

    pub get_reply_download_file-sent :
        (k : FiledataResponse) (now req : ℕ) (s : Handler t.Tree) (net : Net)
        → length k.md5sum ≡ 16
        → get_reply_download_file k now req s net
          ≡ ok (
            (wanting now req s).0,
            sending net (net.sent ++ (k.addr, want_datagram (wanting now req s).1 k.md5sum) ∷ []),
          )
    unfolding get_reply_download_file
    get_reply_download_file-sent k now req s net e =
        download_make_request-sent k.md5sum k.addr now req s net e
