-- ===== src/Net/Race.antt =====
-- add_upstream_server of pingu/socket.c on the threads of the pool request_processors: it takes no
-- lock.
use misc_uni_stuff.Base.{
  ℕ, suc, ◌≡◌, refl, ap, ◌∙◌, arith, [], ◌∷◌, ◌++◌, Option, none, some, ◌≢◌, append_assoc,
}
use misc_uni_stuff.Host.{Host}
use misc_uni_stuff.Glib.{Slist, Gpointer, block, g_slist_find_custom}
use misc_uni_stuff.Packet.{SockaddrIn}
use misc_uni_stuff.Net.{Net, deref, cmp_at, slist_data, new_servlet_real, add_possible}
use misc_uni_stuff.Request.{update}

-- Where a call stands: at g_slist_find_custom, at new_servlet_real, and at its end.
pub data Pc : Type 0 where
  looking adding finished : Pc

pub record Threads : Type 0 where
  pub net : Net
  pub pc : ℕ → Pc

-- Thread `i` handles a packet that tells of the server at `told i`. The append stands for one step.
module _ ⦃g : Slist⦄ ⦃h : Host⦄ (told : ℕ → SockaddrIn) (now : ℕ → ℕ) where
  abbrev pub looked_up : Net → SockaddrIn → Option Gpointer
  looked_up s a = slist_data (g_slist_find_custom s.possible_servers a (cmp_at s))

  pub data Step (s : Threads) : Threads → Type 0 where
    sees :
        (i : ℕ) (moo : Gpointer)
        → s.pc i ≡ looking
        → looked_up s.net (told i) ≡ some moo
        → Step s (record s { pc = update s.pc i finished })
    misses :
        (i : ℕ)
        → s.pc i ≡ looking
        → looked_up s.net (told i) ≡ none
        → Step s (record s { pc = update s.pc i adding })
    adds :
        (i : ℕ)
        → s.pc i ≡ adding
        → Step s (record s {
          net = add_possible (new_servlet_real s.net (told i) (now i));
          pc = update s.pc i finished;
        })

  pub data Reach (s : Net) : Threads → Type 0 where
    here : Reach s (record { net = s; pc = λ i. looking })
    next : {u w : Threads} → Reach s u → Step u w → Reach s w

  -- The tables after the two calls.
  abbrev pub added_twice : ℕ → ℕ → Net → Net
  added_twice i j s =
      add_possible
        (new_servlet_real (add_possible (new_servlet_real s (told i) (now i))) (told j) (now j))

  added_twice_run :
      (s : Net) (i j : ℕ)
      → i ≢ j
      → looked_up s (told i) ≡ none
      → told j ≡ told i
      → (u : Threads) × Reach s u
        × (u.net ≡ added_twice i j s)
        × (u.pc i ≡ finished)
        × (u.pc j ≡ finished)
  added_twice_run s i j other absent same = (
    _,
    next
        (next
          (next (next here (misses i refl absent))
            (misses j (ground (arith, other)) (rw same absent)))
          (adds i (ground (arith, other))))
        (adds j (ground (arith, other))),
    refl,
    ground (arith, other),
    ground (arith, other),
  )

  -- Nothing keeps two threads apart that hear of the same new server: some run of their calls ends
  -- with two servlets of its address at the end of the list of possible servers.
  pub add_upstream_server-raced :
      (s : Net) (i j : ℕ)
      → i ≢ j
      → looked_up s (told i) ≡ none
      → told j ≡ told i
      → (u : Threads) × Reach s u
        × (u.pc i ≡ finished)
        × (u.pc j ≡ finished)
        × (u.net.possible_servers ≡ s.possible_servers ++ block s.free ∷ block (suc s.free) ∷ [])
        × ((deref u.net (block s.free)).client ≡ told i)
        × ((deref u.net (block (suc s.free))).client ≡ told i)
  unfolding new_servlet_real
  add_upstream_server-raced s i j other absent same =
      let (u, run, net, end_i, end_j) = added_twice_run s i j other absent same in
      let old : Gpointer = block s.free in
      let new : Gpointer = block (suc s.free) in
      (
        u,
        run,
        end_i,
        end_j,
        ap (λ (n : Net). n.possible_servers) net
            ∙ g.append_lem (g.append s.possible_servers old) new
            ∙ ap (λ l. l ++ new ∷ []) (g.append_lem s.possible_servers old)
            ∙ append_assoc s.possible_servers (old ∷ []) (new ∷ []),
        ap (λ (n : Net). (n.cell s.free).client) net ∙ ground arith,
        ap (λ (n : Net). (n.cell (suc s.free)).client) net ∙ ground (arith, same),
      )
