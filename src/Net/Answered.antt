-- ===== src/Net/Answered.antt =====
-- A server that answers its pings, in any order of the handlers of pingu/socket.c.
use misc_uni_stuff.Base.{ℕ, ◌+◌, ◌≡◌, ◌≤◌, ◌<◌, refl, sym, subst, ◌∙◌, some, arith, ◌++◌, true}
use misc_uni_stuff.Host.{Host}
use misc_uni_stuff.Glib.{Slist, block, same_pointer}
use misc_uni_stuff.Packet.{SockaddrIn, pong_time}
use misc_uni_stuff.Net.{Net, deref, find_servlet}
use misc_uni_stuff.Net.Pointers.{count}
use misc_uni_stuff.Net.Lookup.{
  first_match, find_servlet-first_match, first_match_same, first_match-count,
}
use misc_uni_stuff.Net.Invariant.{IsNet, count-list_node}
use misc_uni_stuff.Net.Sending.{transmit-OnlySends}
use misc_uni_stuff.Net.Reach.Step.{
  hears, learns, connects, answers, forwards, broadcasts, sends, looks, pings,
}
use misc_uni_stuff.Net.Reach.{
  Step, generate_reply_servers-Sends, send_to_all_except-Sends, send_to_all-Sends, Step-IsNet,
  taken-IsNetBut,
}
use misc_uni_stuff.Net.Dropping.{idle_pinger-Stays}
use misc_uni_stuff.Net.Staying.{
  last_heard, Stays, Stays-trans, count-free, hears-Stays, learns-Stays, connects-Stays,
  OnlySends-Stays, looks-Stays,
}

module _ ⦃g : Slist⦄ ⦃h : Host⦄ where
  -- The time of the last packet from `a`, after a step: a packet from `a` makes it new.
  abbrev pub heard_at : {s u : Net} → SockaddrIn → ℕ → Step s u → ℕ
  heard_at a last (hears source now later e) = last_heard a source later last
  heard_at a last (learns q now e) = last
  heard_at a last (connects resolved now e) = last
  heard_at a last (answers q e) = last
  heard_at a last (forwards to p d e) = last
  heard_at a last (broadcasts p d e) = last
  heard_at a last (sends to p d e) = last
  heard_at a last (looks e) = last
  heard_at a last (pings before after p f later e run) = last

  -- Where the step is a run of the job of block `k`, the last packet was heard at most thirty
  -- seconds before.
  abbrev pub Answers : {s u : Net} → ℕ → ℕ → Step s u → Type 0
  Answers k last (pings before after p f later e run) =
      same_pointer p (block k) ≡ true → f ≤ last + pong_time
  Answers k last (hears source now later e) = Unit
  Answers k last (learns q now e) = Unit
  Answers k last (connects resolved now e) = Unit
  Answers k last (answers q e) = Unit
  Answers k last (forwards a p d e) = Unit
  Answers k last (broadcasts p d e) = Unit
  Answers k last (sends a p d e) = Unit
  Answers k last (looks e) = Unit

  -- A run of the handlers with the time of the last packet from `a`, in which the job of block `k`
  -- finds it new enough every time. At the start this is the pong time of the servlet.
  pub data Answered (a : SockaddrIn) (k : ℕ) (s : Net) : ℕ → Net → Type 0 where
    here : Answered a k s (s.cell k).lastponged s
    next :
        {u w : Net} {last : ℕ}
        → Answered a k s last u
        → (st : Step u w) → Answers k last st
        → Answered a k s (heard_at a last st) w

  Step-Stays :
      {s u : Net} (a : SockaddrIn) (k : ℕ) (st : Step s u)
      → IsNet s
      → k < s.free
      → first_match s a s.sockets ≡ some (block k)
      → Answers k (s.cell k).lastponged st
      → Stays k (heard_at a (s.cell k).lastponged st) s u
  Step-Stays {s} {u} a k (hears source now later e) v old found c =
      rw e (hears-Stays k s a source now later v.sockets old found)
  Step-Stays {s} {u} a k (learns q now e) v old found c = learns-Stays q k now s u e v.sockets old
  Step-Stays {s} {u} a k (connects resolved now e) v old found c =
      connects-Stays k s u resolved now e v.sockets old
  Step-Stays {s} {u} a k (answers q e) v old found c =
      OnlySends-Stays k s u (generate_reply_servers-Sends q s u e)
  Step-Stays {s} {u} a k (forwards to p d e) v old found c =
      OnlySends-Stays k s u (send_to_all_except-Sends to p d s u e)
  Step-Stays {s} {u} a k (broadcasts p d e) v old found c =
      OnlySends-Stays k s u (send_to_all-Sends p d s u e)
  Step-Stays {s} {u} a k (sends to p d e) v old found c =
      OnlySends-Stays k s u (transmit-OnlySends to p d s u e)
  Step-Stays {s} {u} a k (looks e) v old found c =
      rw e (looks-Stays k s (count-list_node s.free s.possible_servers v.possible))
  Step-Stays {s} {u} a k (pings before after p f later e run) v old found c =
      let taken : Net = record s { pingers = before ++ after } in
      let stays =
        idle_pinger-Stays p k f later taken u (taken-IsNetBut s before after p e v) run c in
      record {
        address = stays.address;
        entries = stays.entries;
        ponged = stays.ponged;
        found = λ x hit. stays.found x (first_match_same s taken x s.sockets (λ j. refl) ∙ hit);
      }

  Answered-Stays :
      (a : SockaddrIn) (k : ℕ) (s : Net) {last : ℕ} {u : Net}
      → IsNet s
      → first_match s a s.sockets ≡ some (block k)
      → Answered a k s last u
      → IsNet u × Stays k last s u
  Answered-Stays a k s v found here =
      (v, record { address = refl; entries = omega arith; ponged = refl; found = λ x hit. hit })
  Answered-Stays a k s v found (next {u} {w} r st c) =
      let (v', stays) = Answered-Stays a k s v found r in
      let found' = stays.found a found in
      let listed = first_match-count u a u.sockets (block k) found' in
      let old = count-free u.free k u.sockets v'.sockets listed in
      let in_time = subst (λ t. Answers k t st) (sym stays.ponged) c in
      let more = Step-Stays a k st v' old found' in_time in
      (
        Step-IsNet st v',
        subst (λ t. Stays k (heard_at a t st) s w) stays.ponged (Stays-trans stays more),
      )

  -- A server that answers is never dropped. From well formed tables, in which a server is found
  -- under an address, and whatever order the packets, pings, connections and searches for new
  -- servers come in: if whenever its job runs the last packet from this address (at the start, its
  -- last pong) was handled at most thirty seconds before, then the same servlet is still found
  -- under the address, on the list and with a job in the pool; its address is the same, and its
  -- pong time is that of the last packet.
  pub Answered-known :
      (a : SockaddrIn) (k last : ℕ) (s u : Net)
      → IsNet s
      → find_servlet s a ≡ some (block k)
      → Answered a k s last u
      → (find_servlet u a ≡ some (block k))
        × (0 < count (block k) u.sockets)
        × (0 < count (block k) u.pingers)
        × ((deref u (block k)).client ≡ (deref s (block k)).client)
        × ((deref u (block k)).lastponged ≡ last)
  Answered-known a k last s u v known r =
      let found = sym (find_servlet-first_match s a) ∙ known in
      let (v', stays) = Answered-Stays a k s v found r in
      let found' = stays.found a found in
      let listed = first_match-count u a u.sockets (block k) found' in
      (
        find_servlet-first_match u a ∙ found',
        listed,
        omega (arith, listed, v'.pinged (block k)),
        stays.address,
        stays.ponged,
      )
