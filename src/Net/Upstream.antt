-- ===== src/Net/Upstream.antt =====
-- Learning of a server from an answer to a ping: add_upstream_server, pingu/socket.c.
use misc_uni_stuff.Base.{
  ℕ, suc, ◌≡◌, ◌≤◌, refl, sym, ◌∙◌, arith, List, [], ◌∷◌, ◌++◌, All, ◌==◌, if◌then◌else◌, some,
  Option-cases, inl, inr, ok, length, drop, length-drop,
}
use misc_uni_stuff.Host.{Host, Endian, load16, load32}
use misc_uni_stuff.Glib.{Slist, Gpointer, null, list_node, block}
use misc_uni_stuff.Packet.{SockaddrIn, FullPacket}
use misc_uni_stuff.Net.{
  Net, deref, find_servlet, new_servlet_real, upstream_address, add_upstream_server,
}
use misc_uni_stuff.Net.Lookup.{
  IsServlet, first_match, find_custom-first_match, find_servlet-first_match, first_match_ext,
  first_match-All, first_match-append,
}

load16-two : (e : Endian) (l : List ℕ) → 2 ≤ length l → (v : ℕ) × (load16 e l ≡ ok v)
unfolding load16
load16-two e [] h = absurd (omega arith)
load16-two e (a ∷ []) h = absurd (omega arith)
load16-two e (a ∷ b ∷ l) h = (_, refl)

load32-four : (e : Endian) (l : List ℕ) → 4 ≤ length l → (v : ℕ) × (load32 e l ≡ ok v)
unfolding load32
load32-four e [] h = absurd (omega arith)
load32-four e (a ∷ []) h = absurd (omega arith)
load32-four e (a ∷ b ∷ []) h = absurd (omega arith)
load32-four e (a ∷ b ∷ c ∷ []) h = absurd (omega arith)
load32-four e (a ∷ b ∷ c ∷ d ∷ l) h = (_, refl)

-- The table after a new possible server.
abbrev with_possible : Net → SockaddrIn → ℕ → Net
with_possible s a now = record s {
  cell = λ j.
      if s.free == j then record { client = a; lastpinged = 0; lastponged = now } else s.cell j;
  free = suc s.free;
  possible_servers = s.possible_servers ++ block s.free ∷ [];
}

module _ ⦃g : Slist⦄ where
  with_possible-find :
      (s : Net) (a source : SockaddrIn) (now : ℕ) (entry : Gpointer)
      → All (IsServlet s.free) s.sockets
      → find_servlet s source ≡ some entry
      → (find_servlet (with_possible s a now) source ≡ some entry)
        × (deref (with_possible s a now) entry ≡ deref s entry)
  with_possible-find s a source now entry v e =
      let u = with_possible s a now in
      let old = sym (find_servlet-first_match s source) ∙ e in
      (
        find_servlet-first_match u source
            ∙ first_match_ext s.free s u source s.sockets (λ k h. ground arith) v
            ∙ old,
        same entry (first_match-All (IsServlet s.free) s source s.sockets entry old v),
      )
    where
      same : (p : Gpointer) → IsServlet s.free p → deref (with_possible s a now) p ≡ deref s p
      same null h = absurd h
      same list_node h = absurd h
      same (block k) h = ground arith

  new_match :
      (s : Net) (a : SockaddrIn) (now : ℕ)
      → first_match (with_possible s a now) a (block s.free ∷ []) ≡ some (block s.free)
  new_match s a now = ground arith

  module _ ⦃h : Host⦄ where
    -- What `s` learns from `k` in becoming `u`.
    pub record Learned (s : Net) (k : FullPacket) (u : Net) : Type 0 where
      pub address : ℕ
      pub port : ℕ
      pub names :
          (load32 h.order k.payload ≡ ok address) × (load16 h.order (drop 4 k.payload) ≡ ok port)
      pub entry : Gpointer
      pub possible : first_match u (upstream_address port address) u.possible_servers ≡ some entry
      pub sockets : u.sockets ≡ s.sockets
      pub sent : u.sent ≡ s.sent

    -- With the lists allocated, an answer of six bytes or more never fails; after it some possible
    -- server has the address and the port that it names, and a server that is known stays known,
    -- with its times.
    pub add_upstream_server-Learned :
        (k : FullPacket) (now : ℕ) (s : Net)
        → 6 ≤ length k.payload
        → All (IsServlet s.free) s.sockets
        → All (IsServlet s.free) s.possible_servers
        → (u : Net) × (add_upstream_server k now s ≡ ok u)
          × Learned s k u
          × ((source : SockaddrIn) (entry : Gpointer)
              → find_servlet s source ≡ some entry
              → (find_servlet u source ≡ some entry) × (deref u entry ≡ deref s entry))
    unfolding add_upstream_server new_servlet_real
    add_upstream_server-Learned k now s long v possible =
        let (port, p) =
          load16-two h.order (drop 4 k.payload) (let l = length-drop 4 k.payload in omega arith) in
        let (address, q) = load32-four h.order k.payload (omega arith) in
        let a = upstream_address port address in
        let searched = find_custom-first_match s a s.possible_servers in
        elim (Option-cases (first_match s a s.possible_servers)) [
          | inr (entry, e) ↦ (
            s,
            rw (p, q, searched, e) refl,
            record {
              address = address;
              port = port;
              names = (q, p);
              entry = entry;
              possible = e;
              sockets = refl;
              sent = refl;
            },
            λ source entry e'. (e', refl),
          )
          | inl e ↦
              let u = with_possible s a now in
              (
                u,
                rw (p, q, searched, e, g.append_lem s.possible_servers (block s.free)) refl,
                record {
                  address = address;
                  port = port;
                  names = (q, p);
                  entry = block s.free;
                  possible =
                      first_match-append u a s.possible_servers (block s.free ∷ []) (
                        first_match_ext s.free s u a s.possible_servers (λ k h. ground arith)
                          possible
                        ∙ e)
                      ∙ new_match s a now;
                  sockets = refl;
                  sent = refl;
                },
                λ source entry e'. with_possible-find s a source now entry v e',
              )
        ]
