-- ===== src/Packet.antt =====
-- pingu/protocol.h, and fillin_packet, send_packet, read_packet and the receive buffer of incoming
-- in pingu/socket.c. Bytes are numbers below 256, and a block of memory is the list of its bytes.
pub mod Wire
pub mod Ttl
pub mod RoundTrip
pub mod Incoming
mod Examples
use misc_uni_stuff.Base.{
  ℕ, List, [], ◌∷◌, Option, none, some, ◌++◌, take, drop, length, leb, Result, ok, fault,
  out_of_bounds, guard, ◌>>=◌, ◌>>◌,
}
use misc_uni_stuff.Host.{Host, u8, u16, hton, store16, load16}

abbrev pub standard_ttl : ℕ
standard_ttl = 3

abbrev pub request_ping : ℕ
request_ping = 0x00

abbrev pub request_filesearch : ℕ
request_filesearch = 0x01

abbrev pub request_wantfile : ℕ
request_wantfile = 0x02

abbrev pub reply_servers : ℕ
reply_servers = 0xff

abbrev pub reply_noservers : ℕ
reply_noservers = 0xfb

abbrev pub reply_filesearch : ℕ
reply_filesearch = 0xfe

abbrev pub reply_transferwaiting : ℕ
reply_transferwaiting = 0xfd

abbrev pub reply_filenotfound : ℕ
reply_filenotfound = 0xfc

abbrev pub protocol_magic : ℕ
protocol_magic = 0x3773

abbrev pub protocol_version : ℕ
protocol_version = 0x0010

abbrev pub ping_time : ℕ
ping_time = 5

abbrev pub pong_time : ℕ
pong_time = 30

pub record Packet : Type 0 where
  pub magic : ℕ
  pub version : ℕ
  pub request_handle : ℕ
  pub ttl : ℕ
  pub operation : ℕ
  pub packet_length : ℕ

-- `struct sockaddr_in`. The address and the port are the words that the host loads from it.
pub record SockaddrIn : Type 0 where
  pub sin_family : ℕ
  pub sin_port : ℕ
  pub s_addr : ℕ

-- `payload` is the field `data`, with NULL as the empty block.
pub record FullPacket : Type 0 where
  pub packet : Packet
  pub payload : List ℕ
  pub addr : SockaddrIn

-- The two fields of one byte each.
load8_pair : List ℕ → Result (ℕ × ℕ)
load8_pair (a ∷ b ∷ rest) = ok (a, b)
load8_pair bytes = fault out_of_bounds

module _ ⦃h : Host⦄ where
  pub fillin_packet : ℕ → ℕ → ℕ → Packet
  fillin_packet operation datalen request = record {
    magic = hton h.order protocol_magic;
    version = hton h.order protocol_version;
    request_handle = u16 request;
    ttl = standard_ttl;
    operation = u8 operation;
    packet_length = u16 datalen;
  }

  -- The ten bytes of the struct in memory.
  pub packet_bytes : Packet → List ℕ
  packet_bytes p =
      store16 h.order p.magic
      ++ (store16 h.order p.version
          ++ (store16 h.order p.request_handle
              ++ (p.ttl ∷ p.operation ∷ store16 h.order p.packet_length)))

  -- The datagram that is handed to sendto. The copy of `d` faults if the block is too short.
  pub send_packet : Packet → List ℕ → Result (List ℕ)
  send_packet p d = do
    guard (leb p.packet_length (length d)) out_of_bounds
    ok (
        packet_bytes (record p { packet_length = hton h.order p.packet_length })
        ++ take p.packet_length d)

  -- The struct at the front of a block.
  pub load_packet : List ℕ → Result Packet
  load_packet read = do
    magic ← load16 h.order read
    version ← load16 h.order (drop 2 read)
    request_handle ← load16 h.order (drop 4 read)
    bytes ← load8_pair (drop 6 read)
    packet_length ← load16 h.order (drop 8 read)
    ok (record {
      magic = magic;
      version = version;
      request_handle = request_handle;
      ttl = bytes.0;
      operation = bytes.1;
      packet_length = packet_length;
    })

  pub read_packet : List ℕ → SockaddrIn → Result FullPacket
  read_packet read ad = do
    p ← load_packet read
    let packet_length = hton h.order p.packet_length
    guard (leb packet_length (length (drop 10 read))) out_of_bounds
    ok (record {
      packet = record p { packet_length = packet_length };
      payload = take packet_length (drop 10 read);
      addr = ad;
    })

abbrev pub max_packet : ℕ
max_packet = 65536

-- recvfrom writes the datagram over the front of the buffer, and leaves the rest of it as it was.
pub recvfrom : List ℕ → List ℕ → List ℕ
recvfrom buffer datagram =
    take max_packet datagram ++ drop (length (take max_packet datagram)) buffer

-- The loop of incoming over what the calls of recvfrom return, none for a failure, which ends it:
-- the packets that are pushed to the thread pool. Without a next result the loop waits.
pub incoming : ⦃h : Host⦄ → List ℕ → List (Option (List ℕ × SockaddrIn)) → Result (List FullPacket)
incoming buffer [] = ok []
incoming buffer (none ∷ results) = ok []
incoming buffer (some (datagram, client) ∷ results) = do
  fullpacket ← read_packet (recvfrom buffer datagram) client
  rest ← incoming (recvfrom buffer datagram) results
  ok (fullpacket ∷ rest)
