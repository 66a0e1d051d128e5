-- ===== src/Dispatch/Delivered.antt =====
-- A download from the click to the file on the disk: get_reply_download_file of pingu/filesearch.c,
-- apply_packet of pingu/socket.c, the jobs of pingu/download.c, and the scan of pingu/file_db.c
-- that found the file.
use misc_uni_stuff.Base.{ℕ, List}
use mathlib.Core.List.{Memᴰ}
use misc_uni_stuff.Host.{Host}
use misc_uni_stuff.Glib.{Slist, Gtree}
use misc_uni_stuff.Packet.{SockaddrIn}
use misc_uni_stuff.Net.{af_inet}
use misc_uni_stuff.Request.{compare_func}
use misc_uni_stuff.Search.{Glob}
use misc_uni_stuff.FileDb.{Md5}

module _ ⦃g : Slist⦄ ⦃t : Gtree compare_func⦄ ⦃h : Host⦄ ⦃m : Glob⦄ ⦃s : Md5⦄ where
  -- The address that the asker is to connect to.
  abbrev pub offered : ℕ → SockaddrIn → SockaddrIn
  offered port ad = record { sin_family = af_inet; sin_port = port; s_addr = ad.s_addr }
