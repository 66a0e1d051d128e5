-- ===== src/Dispatch/Examples.antt =====
-- Two hosts of the same byte order, one of which shares a file.
use misc_uni_stuff.Base.{
  ℕ, ◌≡◌, ◌≢◌, ◌<◌, ◌>>=◌, refl, arith, [], ◌∷◌, ◌++◌, All, map, length, replicate, true, false,
  none, inl, inr, ok,
}
use mathlib.Core.List.{Memᴰ}
use misc_uni_stuff.Host.{Host, little, big}
use misc_uni_stuff.Glib.{list_slist}
use misc_uni_stuff.Packet.{
  SockaddrIn, FullPacket, fillin_packet, read_packet, recvfrom, request_ping,
}
use misc_uni_stuff.Packet.Wire.{cross, datagram_of, fillin_packet-fields}
use misc_uni_stuff.Net.{Net}
use misc_uni_stuff.Net.Known.{IsKnown}
use misc_uni_stuff.Net.Reach.{start, Reach-IsNet}
use misc_uni_stuff.Net.Replies.{sending, clients}
use misc_uni_stuff.Request.{Handler, request_ontimeout, request_init, update}
use misc_uni_stuff.Request.Numbers.{IsHandler}
use misc_uni_stuff.Request.Invariant.{Reach-IsHandler}
use misc_uni_stuff.Request.Model.{Sorted, sorted_tree}
use misc_uni_stuff.Search.{Filedata, Glob, searchfile}
use misc_uni_stuff.Search.Query.{IsText}
use misc_uni_stuff.Search.Answers.{IsFiledata}
use misc_uni_stuff.Dispatch.{World, Calls, with_net, apply_packet}
use misc_uni_stuff.Dispatch.Foreign.{handled, apply_packet_foreign}
use misc_uni_stuff.Dispatch.Greeting.{
  replies, ping_from, Welcome, apply_packet-greeting, replies-Welcome,
}
use misc_uni_stuff.Dispatch.Rows.{row_of}
use misc_uni_stuff.Dispatch.Found.{query_datagram, found, searchfile-found}

instance abbrev pc : Host
pc = record { order = little }

abbrev sparc : Host
sparc = record { order = big }

instance abbrev any_name : Glob
any_name = record { pattern_match = λ pattern name. true }

abbrev anna : SockaddrIn
anna = record { sin_family = 2; sin_port = 48398; s_addr = 16777226 }

abbrev berta : SockaddrIn
berta = record { sin_family = 2; sin_port = 48398; s_addr = 33554442 }

abbrev blank : Handler Sorted
blank = record {
  tree = sorted_tree.create;
  cell = λ k. record {
    starttime = 0;
    timeout = request_ontimeout;
    model = 0;
    widget = 0;
    active = false;
    timedout = false;
    reqno = 0;
  };
  freed = λ k. false;
  bad_accesses = [];
  calls = [];
}

abbrev idle : World Sorted
idle = record {
  requests = request_init blank;
  models = λ k. [];
  transfers = record {
    net = start 4;
    download_pool = [];
    upload_pool = [];
    connected = [];
    created = [];
  };
  database = [];
}

abbrev song : Filedata
song = record {
  fullfilename = 97 ∷ 98 ∷ [];
  filename = 97 ∷ 98 ∷ [];
  md5sum = replicate 16 5;
  filesize = 300;
}

abbrev sharing : World Sorted
sharing = record idle { database = song ∷ [] }

abbrev calls : Calls
calls = record {
  now = 50;
  later = 51;
  upstream_now = 52;
  opened = none;
  listenfd = none;
  reused = true;
  listens = true;
  bound = none;
  sockfd = none;
  connects = true;
  filefd = none;
  junk = 0;
}

idle-IsHandler : IsHandler idle.requests
idle-IsHandler = Reach-IsHandler blank idle.requests misc_uni_stuff.Request.Invariant.Reach.here

song-IsFiledata : IsFiledata song
unfolding IsText
song-IsFiledata = record {
  md5sum = refl;
  filesize = omega arith;
  fullfilename = omega arith;
  text = song_text;
}
  where
    song_text : IsText (97 ∷ 98 ∷ [])
    song_text = (omega arith, (omega arith, tt))

pattern-IsText : IsText (97 ∷ 42 ∷ [])
unfolding IsText
pattern-IsText = (omega arith, (omega arith, tt))

searchfile-found_example :
    (u x : World Sorted) × (n : ℕ) × (searchfile
        (97 ∷ 42 ∷ [])
        60
        8
        40
        41
        0
        0
        idle.requests
        idle.models
        idle.transfers.net
      ≡ ok (u.requests, u.models, u.transfers.net))
    × (u.transfers.net.sent
        ≡ map (λ a. (a, query_datagram (97 ∷ 42 ∷ []) n 0 0)) (clients idle.transfers.net []))
    × ((read_packet (recvfrom [] (query_datagram (97 ∷ 42 ∷ []) n 0 0)) anna >>= λ p.
          apply_packet calls p sharing)
        ≡ ok x)
    × Memᴰ (found n song anna) x.transfers.net.sent
    × ((read_packet (recvfrom [] (found n song anna).1) berta >>= λ p. apply_packet calls p u)
        ≡ ok (record u { models = update u.models 40 (row_of song berta ∷ []) }))
searchfile-found_example =
    searchfile-found (97 ∷ 42 ∷ []) 60 8 40 41 0 0 idle sharing calls calls song [] [] anna berta
      pattern-IsText (omega arith) idle-IsHandler (omega arith) (λ e. omega (arith, e))
      (song-IsFiledata, tt) (Memᴰ.head refl) song-IsFiledata refl

abbrev unheard : FullPacket
unheard = record { packet = fillin_packet 9 3 0; payload = 1 ∷ 2 ∷ 3 ∷ []; addr = anna }

apply_packet_foreign_example : apply_packet calls unheard sharing ≡ ok sharing
apply_packet_foreign_example =
    apply_packet_foreign calls unheard sharing (inr (inr (inl no_operation)))
  where
    operation : unheard.packet.operation ≡ 9
    operation = (fillin_packet-fields pc 9 3 0).3

    no_operation : All (λ n. unheard.packet.operation ≢ n) handled
    no_operation = ground (arith, operation)

apply_packet-greeting_example :
    (u : Net) × IsKnown (start 4) anna 51 u
    × ((read_packet
            (recvfrom [] (datagram_of sparc (fillin_packet ⦃h = sparc⦄ request_ping 0 0) []))
            anna
          >>= λ p. apply_packet calls p sharing)
        ≡ ok (with_net sharing (sending u (u.sent ++ replies (ping_from sparc pc anna) u))))
    × (0 < length (replies (ping_from sparc pc anna) u))
    × All (λ r. r.0 ≡ anna) (replies (ping_from sparc pc anna) u)
apply_packet-greeting_example =
    apply_packet-greeting sparc pc calls sharing [] anna
      (Reach-IsNet 4 (start 4) misc_uni_stuff.Net.Reach.Reach.here)

replies-Welcome_example :
    All (Welcome pc sparc calls idle [] berta) (replies (ping_from sparc pc anna) (start 4))
replies-Welcome_example =
    replies-Welcome pc sparc calls idle [] berta (ping_from sparc pc anna) (start 4)
      (Reach-IsNet 4 (start 4) misc_uni_stuff.Net.Reach.Reach.here)
      (omega (arith, (fillin_packet-fields pc request_ping 0 (cross big little 0)).2))
