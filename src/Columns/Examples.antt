-- ===== src/Columns/Examples.antt =====
-- The texts of a row and of a known server.
use misc_uni_stuff.Base.{
  ℕ, zero, suc, ◌≡◌, ◌<◌, All, refl, arith, List, [], ◌∷◌, replicate, true, some, pos, get_elem?,
  ok, ◌>>=◌,
}
use misc_uni_stuff.Host.{Host, little, store32}
use misc_uni_stuff.Glib.{Gpointer, null, block, list_slist}
use misc_uni_stuff.Packet.{SockaddrIn}
use misc_uni_stuff.Net.{Net, deref}
use misc_uni_stuff.Net.Reach.{start}
use misc_uni_stuff.Net.Invariant.{IsNet}
use misc_uni_stuff.Search.{FiledataResponse}
use misc_uni_stuff.ListModel.{
  GtkTreeIter, unset, string, model_gslist_get_iter, model_gslist_get_value,
}
use misc_uni_stuff.Columns.{inet_ntop, dotted}
use misc_uni_stuff.Columns.Decimal.{digits, decimal, signed_decimal, numbers}
use misc_uni_stuff.Columns.Files.{
  to_int, hostname, get_reply_column, read_row, read_row-get_reply_column,
}
use misc_uni_stuff.Columns.Servers.{servermodel, get_value-servermodel}

instance abbrev pc : Host
pc = record { order = little }

-- 10.0.0.1, with the port 3773.
abbrev anna : SockaddrIn
anna = record { sin_family = 2; sin_port = 48398; s_addr = 16777226 }

abbrev song : FiledataResponse
song = record { filename = 97 ∷ 98 ∷ []; md5sum = replicate 16 3; size = 4294967295; addr = anna }

-- 4 GB less one byte are shown as "-1".
large_size : signed_decimal (to_int 4294967295) ≡ 45 ∷ 49 ∷ []
unfolding to_int signed_decimal decimal digits
large_size = refl

-- "10.0.0.1:48398", where the port is 3773.
host_column :
    get_reply_column [] (pos 3) song
    ≡ ok (49 ∷ 48 ∷ 46 ∷ 48 ∷ 46 ∷ 48 ∷ 46 ∷ 49 ∷ 58 ∷ 52 ∷ 56 ∷ 51 ∷ 57 ∷ 56 ∷ [])
unfolding get_reply_column hostname inet_ntop dotted store32 decimal digits
host_column = refl

All-replicate : (n b : ℕ) → b < 256 → All (λ x. x < 256) (replicate n b)
All-replicate zero b h = tt
All-replicate (suc n) b h = (h, All-replicate n b h)

read_row-get_reply_column_example :
    (do
      name ← get_reply_column [] (pos 0) song
      sum ← get_reply_column [] (pos 1) song
      size ← get_reply_column [] (pos 2) song
      host ← get_reply_column [] (pos 3) song
      read_row name sum size host)
    ≡ ok song
read_row-get_reply_column_example =
    read_row-get_reply_column [] song refl (All-replicate 16 3 (omega arith)) (omega arith) refl
      (omega arith) (omega arith)

abbrev hearing : Net
hearing = record (start 4) {
  cell = λ k. record { client = anna; lastpinged = 0; lastponged = 100 };
  free = 1;
  sockets = block 0 ∷ [];
  servermodel = block 0 ∷ [];
  pingers = block 0 ∷ [];
}

hearing-IsNet : IsNet hearing
hearing-IsNet = record {
  sync = refl;
  pinged = λ p. refl;
  sockets = (omega arith, tt);
  possible = tt;
}

abbrev garbage : GtkTreeIter
garbage = record { stamp = 0; user_data = []; user_data2 = null; user_data3 = null }

get_value-servermodel_example :
    (it : GtkTreeIter) × (p : Gpointer) × (text : List ℕ) × (model_gslist_get_iter
        (servermodel [] 7 hearing)
        garbage
        (pos 0 ∷ [])
      ≡ ok (true, it))
    × (get_elem? hearing.sockets 0 ≡ some p)
    × (model_gslist_get_value (servermodel [] 7 hearing) it (pos 0) unset ≡ string text)
    × (numbers 4 text ≡ store32 little (deref hearing p).client.s_addr)
get_value-servermodel_example =
    get_value-servermodel [] 7 0 hearing garbage hearing-IsNet (omega arith)
