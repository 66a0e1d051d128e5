-- ===== src/Dispatch/Trials.antt =====
-- A host downloads the one file that another one shares.
use misc_uni_stuff.Base.{
  ◌==◌, if◌then◌else◌, ℕ, refl, List, [], ◌∷◌, length, replicate, true, false, some,
}
use misc_uni_stuff.Host.{Host, little}
use misc_uni_stuff.Glib.{list_slist}
use misc_uni_stuff.Packet.{SockaddrIn}
use misc_uni_stuff.Net.Reach.{start}
use misc_uni_stuff.Request.{Handler, request_ontimeout, request_init}
use misc_uni_stuff.Request.Invariant.{Reach}
use misc_uni_stuff.Request.Model.{Sorted, sorted_tree}
use misc_uni_stuff.Search.{Filedata, FiledataResponse, Glob}
use misc_uni_stuff.FileDb.{regular, Entries, end, entry, Stat, is_other, Md5}
use misc_uni_stuff.Dispatch.{World, Calls}

instance abbrev pc : Host
pc = record { order = little }

instance abbrev any_name : Glob
any_name = record { pattern_match = λ pattern name. true }

-- A sum that is the number of bytes, sixteen times.
instance abbrev counting : Md5
counting = record {
  md5_stream = λ bytes. replicate 16 (length bytes);
  length-md5_stream = λ bytes. refl;
}

abbrev anna : SockaddrIn
anna = record { sin_family = 2; sin_port = 48398; s_addr = 16777226 }

abbrev berta : SockaddrIn
berta = record { sin_family = 2; sin_port = 48398; s_addr = 33554442 }

abbrev shared : Entries
shared = entry (97 ∷ 98 ∷ []) (regular 3 (some (5 ∷ 6 ∷ 7 ∷ []))) end

abbrev junk : List ℕ → Stat
junk path = record { st_mode = is_other; st_size = 0 }

abbrev song : Filedata
song = record {
  fullfilename = 46 ∷ 47 ∷ 97 ∷ 98 ∷ [];
  filename = 97 ∷ 98 ∷ [];
  md5sum = replicate 16 3;
  filesize = 3;
}

abbrev row : FiledataResponse
row = record { filename = song.fullfilename; md5sum = song.md5sum; size = 3; addr = berta }

abbrev blank : Handler Sorted
blank = record {
  tree = sorted_tree.create;
  cell = λ k. record {
    starttime = 0;
    timeout = request_ontimeout;
    model = 0;
    widget = 0;
    active = false;
    timedout = false;
    reqno = 0;
  };
  freed = λ k. false;
  bad_accesses = [];
  calls = [];
}

abbrev asking : World Sorted
asking = record {
  requests = request_init blank;
  models = λ k. [];
  transfers = record {
    net = start 4;
    download_pool = [];
    upload_pool = [];
    connected = [];
    created = [];
  };
  database = [];
}

abbrev sharing : World Sorted
sharing = record asking { database = song ∷ [] }

abbrev calls : Calls
calls = record {
  now = 50;
  later = 51;
  upstream_now = 52;
  opened = some 5;
  listenfd = some 6;
  reused = true;
  listens = true;
  bound = some 4660;
  sockfd = some 7;
  connects = true;
  filefd = some 8;
  junk = 0;
}

-- What comes out of the network on the port that is listened on.
abbrev arrives : SockaddrIn → List (List ℕ)
arrives to = if to.sin_port == 4660 then (5 ∷ []) ∷ (6 ∷ 7 ∷ []) ∷ [] else []
