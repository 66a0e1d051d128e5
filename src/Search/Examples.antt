-- ===== src/Search/Examples.antt =====
-- A query from one host to a second, which passes it on to a third.
use misc_uni_stuff.Base.{
  ℕ, ◌+◌, ◌≡◌, ◌≤◌, refl, ap, ◌∙◌, length, arith, List, [], ◌∷◌, ◌++◌, true, drop, replicate, some,
  ok, ◌>>=◌,
}
use misc_uni_stuff.Host.{Host, little, big, hton, load16, load32, store16, store32}
use misc_uni_stuff.Glib.{list_slist}
use misc_uni_stuff.Packet.{SockaddrIn, FullPacket, send_packet, read_packet, recvfrom}
use misc_uni_stuff.Net.{servlet_port}
use misc_uni_stuff.Net.Reach.{start}
use misc_uni_stuff.Net.Replies.{sending}
use misc_uni_stuff.Search.{
  Filedata, Glob, send_file_details, passed_on, set_destination_ip, query_payload, query_pattern,
  copy_out, c_string, FiledataResponse, get_request_search, get_request_search_passon,
  read_response,
}
use misc_uni_stuff.Search.Wire.{Fits}
use misc_uni_stuff.Packet.Wire.{
  IsPacket, seen, datagram_of, send_packet-datagram_of, length-datagram_of, recvfrom-append,
  read_packet-datagram_of,
}
use misc_uni_stuff.Search.Hops.{Passed, Passed-hops, Passed-set_destination_ip}
use misc_uni_stuff.Search.Query.{IsText, query_pattern-query_payload}
use misc_uni_stuff.Request.Model.{sorted_tree}
use misc_uni_stuff.Search.Answers.{
  IsFiledata, answers, get_request_search-sent, read_response-send_file_details,
}

abbrev sparc : Host
sparc = record { order = big }

instance abbrev pc : Host
pc = record { order = little }

instance abbrev any_name : Glob
any_name = record { pattern_match = λ pattern name. true }

abbrev anna : SockaddrIn
anna = record { sin_family = 2; sin_port = 48398; s_addr = 16777226 }

abbrev berta : SockaddrIn
berta = record { sin_family = 2; sin_port = 48398; s_addr = 33554442 }

abbrev text : List ℕ
text = 97 ∷ 42 ∷ []

abbrev query : FullPacket
query = record {
  packet = record {
    magic = 0;
    version = 0;
    request_handle = 1;
    ttl = 3;
    operation = 1;
    packet_length = 10;
  };
  payload = query_payload ⦃h = sparc⦄ text 0 0;
  addr = anna;
}

-- The query as the second host passes it on, and the third receives it.
abbrev second : FullPacket
second = record query {
  packet = record query.packet { ttl = 1 };
  payload = 10 ∷ 0 ∷ 0 ∷ 1 ∷ 14 ∷ 189 ∷ 0 ∷ 0 ∷ text;
}

query-passed_on : passed_on query ≡ ok (some second)
unfolding passed_on query_payload load32 store32 store16 hton
query-passed_on = refl

abbrev third : FullPacket
third = record second { addr = berta }

-- The second host's datagram, and what a third host of the other byte order reads.
abbrev passed_bytes : List ℕ
passed_bytes = datagram_of pc second.packet second.payload

abbrev far : FullPacket
far = record third { packet = record (seen pc sparc second.packet) { packet_length = 10 } }

query-IsPacket : IsPacket query.packet
query-IsPacket = record {
  magic = omega arith;
  version = omega arith;
  request_handle = omega arith;
  packet_length = omega arith;
}

second-IsPacket : IsPacket second.packet
second-IsPacket = record {
  magic = omega arith;
  version = omega arith;
  request_handle = omega arith;
  packet_length = omega arith;
}

second-sent : send_packet second.packet second.payload ≡ ok passed_bytes
second-sent = send_packet-datagram_of pc second.packet second.payload refl

second-read : read_packet ⦃h = sparc⦄ (recvfrom [] passed_bytes) berta ≡ ok far
second-read =
    let size = length-datagram_of pc second.packet second.payload in
    ap (λ bytes. read_packet ⦃h = sparc⦄ bytes berta)
      (recvfrom-append [] passed_bytes (omega arith))
    ∙ read_packet-datagram_of pc sparc berta second.packet second.payload
        (drop (length passed_bytes) []) second-IsPacket refl

abbrev way : Passed pc query 1 sparc far
way =
    Passed.next berta passed_bytes [] query-passed_on second-sent second-read
      (Passed.here sparc far)

query-Fits : Fits query
unfolding query_payload store32 store16
query-Fits = record { fields = query-IsPacket; filled = refl; room = omega arith }

abbrev after_address : List ℕ
after_address = 14 ∷ 189 ∷ 0 ∷ 0 ∷ text

query-carried : query.payload ≡ store32 little 0 ++ after_address
unfolding query_payload store32 store16 hton
query-carried = refl

Passed-hops_example : (1 ≤ 2) × (1 + far.packet.ttl ≤ query.packet.ttl)
Passed-hops_example = Passed-hops pc sparc query far 1 way

Passed-set_destination_ip_example :
    ((local : ℕ) × (load32 big far.payload ≡ ok local)
      × (store32 big (set_destination_ip local far.addr.s_addr)
          ≡ store32 little (set_destination_ip 0 query.addr.s_addr)))
    × (drop 4 far.payload ≡ after_address)
Passed-set_destination_ip_example =
    Passed-set_destination_ip pc sparc query far 1 0 after_address query-Fits query-carried
      (omega arith) (omega arith) (λ e. omega (arith, e)) way

text-IsText : IsText text
unfolding IsText
text-IsText = (omega arith, (omega arith, tt))

query_pattern-query_payload_example :
    (query_pattern ⦃h = sparc⦄ far ≡ ok text)
    × (((local : ℕ) × (load32 big far.payload ≡ ok local)
          × (store32 big (set_destination_ip local far.addr.s_addr)
              ≡ store32 little query.addr.s_addr))
        × (load16 big (drop 4 far.payload) ≡ ok (hton big servlet_port)))
query_pattern-query_payload_example =
    query_pattern-query_payload sparc pc sparc text 0 0 query far 1 text-IsText (omega arith)
      query-IsPacket refl refl (omega arith) (λ e. omega (arith, e)) way

abbrev file : Filedata
file = record {
  fullfilename = 97 ∷ 98 ∷ [];
  filename = 97 ∷ 98 ∷ [];
  md5sum = replicate 16 5;
  filesize = 300;
}

file-IsFiledata : IsFiledata file
unfolding IsText
file-IsFiledata = record {
  md5sum = refl;
  filesize = omega arith;
  fullfilename = omega arith;
  text = file_text;
}
  where
    file_text : IsText (97 ∷ 98 ∷ [])
    file_text = (omega arith, (omega arith, tt))

third_text : query_pattern third ≡ ok text
unfolding query_pattern copy_out c_string
third_text = refl

third_address : load32 little third.payload ≡ ok 16777226
unfolding load32
third_address = refl

third_port : load16 little (drop 4 third.payload) ≡ ok 48398
unfolding load16
third_port = refl

abbrev file_row : FiledataResponse
file_row = record { filename = 97 ∷ 98 ∷ []; md5sum = replicate 16 5; size = 300; addr = berta }

read_response-send_file_details_example :
    (to : SockaddrIn) × (bytes : List ℕ) × (send_file_details third file (start 4)
      ≡ ok (sending (start 4) ((to, bytes) ∷ [])))
    × (to.s_addr ≡ set_destination_ip 16777226 33554442)
    × (to.sin_port ≡ 48398)
    × ((read_packet (recvfrom [] bytes) berta >>= read_response) ≡ ok file_row)
read_response-send_file_details_example =
    read_response-send_file_details third file 16777226 48398 [] berta (start 4) third_address
      third_port file-IsFiledata (omega arith)

get_request_search-sent_example :
    get_request_search third (file ∷ []) (start 4)
    ≡ get_request_search_passon third
        (sending (start 4) ([] ++ answers third 16777226 48398 text (file ∷ [])))
get_request_search-sent_example =
    get_request_search-sent third text 16777226 48398 (file ∷ []) (start 4) third_text third_address
      third_port (file-IsFiledata, tt)
