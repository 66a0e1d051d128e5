-- ===== src/Net/Invariant.antt =====
-- The invariant of the tables of servers and of the jobs that ping them, pingu/socket.c, and the
-- handlers that change the tables.
use misc_uni_stuff.Base.{
  ℕ, zero, suc, ◌+◌, ◌≡◌, ◌<◌, refl, ap, sym, ◌∙◌, arith, List, [], ◌∷◌, ◌==◌, All, All-append,
  Bool-cases, Option-cases, inl, inr, take, append-nil,
}
use misc_uni_stuff.Glib.{Slist, Gpointer, null, list_node, block, same_pointer}
use misc_uni_stuff.Packet.{SockaddrIn}
use misc_uni_stuff.Net.{Net, Servlet, assign, check_add_server, look_for_new_servers, drop_servlet}
use misc_uni_stuff.Net.Pointers.{
  count, one_if, count-append, count-snoc, count-remove, same_pointer_refl,
}
use misc_uni_stuff.Net.Known.{with_new, check_add_server-known, check_add_server-unknown}
use misc_uni_stuff.Net.Lookup.{IsServlet, first_match}
use misc_uni_stuff.Net.Lookout.{started, look_for_new_servers-started}

-- The window's list is the list of known servers; a servlet has as many jobs as entries; no list
-- holds anything but servlets.
pub record IsNet (s : Net) : Type 0 where
  pub sync : s.servermodel ≡ s.sockets
  pub pinged : (p : Gpointer) → count p s.sockets ≡ count p s.pingers
  pub sockets : All (IsServlet s.free) s.sockets
  pub possible : All (IsServlet s.free) s.possible_servers

-- While the job of `p` runs, it is not in the pool.
pub record IsNetBut (p : Gpointer) (s : Net) : Type 0 where
  pub sync : s.servermodel ≡ s.sockets
  pub pinged : (q : Gpointer) → count q s.sockets ≡ count q s.pingers + one_if (same_pointer p q)
  pub sockets : All (IsServlet s.free) s.sockets
  pub possible : All (IsServlet s.free) s.possible_servers

pub All-take : (P : Gpointer → Type 0) (n : ℕ) (l : List Gpointer) → All P l → All P (take n l)
All-take P zero l v = tt
All-take P (suc n) [] v = tt
All-take P (suc n) (p ∷ l) v = (v.0, All-take P n l v.1)

pub count-list_node : (n : ℕ) (l : List Gpointer) → All (IsServlet n) l → count list_node l ≡ 0
count-list_node n [] v = refl
count-list_node n (null ∷ l) v = absurd v.0
count-list_node n (list_node ∷ l) v = absurd v.0
count-list_node n (block k ∷ l) v = omega (arith, count-list_node n l v.1)

pub IsServlet-suc : (n : ℕ) (l : List Gpointer) → All (IsServlet n) l → All (IsServlet (suc n)) l
IsServlet-suc n [] v = tt
IsServlet-suc n (null ∷ l) v = absurd v.0
IsServlet-suc n (list_node ∷ l) v = absurd v.0
IsServlet-suc n (block k ∷ l) v = (omega (arith, v.0), IsServlet-suc n l v.1)

pub started-IsNet :
    (s : Net) (l : List Gpointer) → IsNet s → All (IsServlet s.free) l → IsNet (started l s)
started-IsNet s [] v h = record {
  sync = v.sync ∙ sym (append-nil s.sockets);
  pinged = λ p. omega (arith, count-append p s.sockets [], count-append p s.pingers [], v.pinged p);
  sockets = All-append (IsServlet s.free) s.sockets [] v.sockets tt;
  possible = v.possible;
}
started-IsNet s (j ∷ l) v h = record {
  sync = refl;
  pinged = λ p.
      omega (arith, count-append p s.sockets (j ∷ l), count-append p s.pingers (j ∷ l), v.pinged p);
  sockets = All-append (IsServlet s.free) s.sockets (j ∷ l) v.sockets h;
  possible = v.possible;
}

pub asked-IsNet : (s : Net) (n : ℕ) → IsNet s → IsNet (record s { asked = n })
asked-IsNet s n v = record {
  sync = v.sync;
  pinged = v.pinged;
  sockets = v.sockets;
  possible = v.possible;
}

pub assign-IsNet : (s : Net) (p : Gpointer) (x : Servlet) → IsNet s → IsNet (assign s p x)
assign-IsNet s null x v = v
assign-IsNet s list_node x v = v
assign-IsNet s (block k) x v = record {
  sync = v.sync;
  pinged = v.pinged;
  sockets = v.sockets;
  possible = v.possible;
}

pub with_new-IsNet :
    ⦃g : Slist⦄ (s : Net) (source : SockaddrIn) (later : ℕ)
    → IsNet s
    → IsNet (with_new s source later)
with_new-IsNet s source later v = record {
  sync = refl;
  pinged = λ p. omega (
    arith,
    count-snoc p (block s.free) s.sockets,
    count-snoc p (block s.free) s.pingers,
    v.pinged p,
  );
  sockets =
      All-append (IsServlet (suc s.free)) s.sockets (block s.free ∷ [])
        (IsServlet-suc s.free s.sockets v.sockets) (omega arith, tt);
  possible = IsServlet-suc s.free s.possible_servers v.possible;
}

module _ ⦃g : Slist⦄ where
  pub check_add_server-IsNet :
      (s : Net) (source : SockaddrIn) (now later : ℕ)
      → IsNet s
      → IsNet (check_add_server s source now later)
  check_add_server-IsNet s source now later v =
      elim (Option-cases (first_match s source s.sockets)) [
        | inl e ↦
            rw (check_add_server-unknown s source now later e) (with_new-IsNet s source later v)
        | inr (p, e) ↦ rw (check_add_server-known s source now later p e) (assign-IsNet s p _ v)
      ]

  pub look_for_new_servers-IsNet : (s : Net) → IsNet s → IsNet (look_for_new_servers s)
  look_for_new_servers-IsNet s v =
      rw (look_for_new_servers-started s (count-list_node s.free s.possible_servers v.possible)) (
        asked-IsNet (started (take 6 s.possible_servers) s) _ (
          started-IsNet s (take 6 s.possible_servers) v
            (All-take (IsServlet s.free) 6 s.possible_servers v.possible)))

  pub All-remove :
      (P : Gpointer → Type 0) (l : List Gpointer) (p : Gpointer) → All P l → All P (g.remove l p)
  All-remove P [] p v = rw (g.remove-nil p) tt
  All-remove P (q ∷ l) p v = elim (Bool-cases (same_pointer q p)) [
    | inl e ↦ rw (g.remove-cons q l p, e) v.1
    | inr e ↦ rw (g.remove-cons q l p, e) (v.0, All-remove P l p v.1)
  ]

  pub removed-IsNet :
      (s : Net) (p : Gpointer)
      → IsNetBut p s
      → IsNet
          (record s { servermodel = g.remove s.servermodel p; sockets = g.remove s.servermodel p })
  removed-IsNet s p v = record {
    sync = refl;
    pinged = λ q. rw v.sync (omega (arith, count-remove q p s.sockets listed, v.pinged q));
    sockets = rw v.sync (All-remove (IsServlet s.free) s.sockets p v.sockets);
    possible = v.possible;
  }
    where
      listed : 0 < count p s.sockets
      listed = omega (arith, v.pinged p, ap one_if (same_pointer_refl p))

  pub drop_servlet-IsNet : (s : Net) (p : Gpointer) → IsNetBut p s → IsNet (drop_servlet p s)
  unfolding drop_servlet
  drop_servlet-IsNet s p v = elim (Bool-cases (g.len (g.remove s.servermodel p) == 0)) [
    | inl e ↦ rw e (look_for_new_servers-IsNet _ (removed-IsNet s p v))
    | inr e ↦ rw e (removed-IsNet s p v)
  ]
