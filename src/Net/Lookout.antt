-- ===== src/Net/Lookout.antt =====
-- look_for_new_servers, pingu/socket.c.
use misc_uni_stuff.Base.{
  ℕ, zero, suc, ◌+◌, ◌≡◌, refl, arith, List, [], ◌∷◌, ◌++◌, ◌==◌, if◌then◌else◌, take, length,
  append_assoc, append-nil, length-take,
}
use misc_uni_stuff.Glib.{Slist, Gpointer, null, list_node}
use misc_uni_stuff.Net.{Net, new_servlet_startup, startup_loop, remove_loop, look_for_new_servers}
use misc_uni_stuff.Net.Pointers.{count, remove_absent}

-- The state after the servlets of `l` were started, in order.
abbrev pub model_after : List Gpointer → Net → List Gpointer
model_after [] s = s.servermodel
model_after (j ∷ l) s = s.sockets ++ j ∷ l

abbrev pub started : List Gpointer → Net → Net
started l s = record s {
  sockets = s.sockets ++ l;
  servermodel = model_after l s;
  pingers = s.pingers ++ l;
}

started-nil : (s : Net) → started [] s ≡ s
started-nil s = ground (arith, append-nil s.sockets, append-nil s.pingers)

started-cons :
    (j : Gpointer) (l : List Gpointer) (s : Net)
    → started l (started (j ∷ []) s) ≡ started (j ∷ l) s
started-cons j [] s = started-nil (started (j ∷ []) s)
started-cons j (k ∷ l) s =
    ground (arith, append_assoc s.sockets (j ∷ []) (k ∷ l), append_assoc s.pingers (j ∷ []) (k ∷ l))

module _ ⦃g : Slist⦄ where
  new_servlet_startup-started :
      (s : Net) (j : Gpointer) → new_servlet_startup s j ≡ started (j ∷ []) s
  unfolding new_servlet_startup
  new_servlet_startup-started s j = ground (arith, g.append_lem s.sockets j)

  -- The while loop with `n` rounds before the break: it starts one servlet more than that.
  startup_loop-started :
      (l : List Gpointer) (i n : ℕ) (s : Net)
      → i + n ≡ 5
      → startup_loop l i s ≡ (started (take (suc n) l) s, i + length (take n l))
  unfolding startup_loop
  startup_loop-started [] i zero s h = ground (arith, started-nil s)
  startup_loop-started [] i (suc n) s h = ground (arith, started-nil s)
  startup_loop-started (j ∷ l) i zero s h = ground (arith, new_servlet_startup-started s j)
  startup_loop-started (j ∷ l) i (suc n) s h = ground (
    arith,
    new_servlet_startup-started s j,
    startup_loop-started l (i + 1) n (new_servlet_startup s j),
    started-cons j (take (suc n) l) s,
  )

  -- The for loop asks to remove the list from itself, which no list of servlets holds.
  remove_loop_same : (n : ℕ) (l : List Gpointer) → count list_node l ≡ 0 → remove_loop n l ≡ l
  unfolding remove_loop
  remove_loop_same zero l h = refl
  remove_loop_same (suc n) [] h = rw (g.remove-nil null) (remove_loop_same n [] h)
  remove_loop_same (suc n) (p ∷ l) h =
      rw (remove_absent list_node (p ∷ l) h) (remove_loop_same n (p ∷ l) h)

  -- Running out of servers starts the first six possible servers, or all if there are fewer,
  -- appends them to the known servers, and hands each to the pingers; the user is asked exactly if
  -- there is none. The list of possible servers stays as it was, the started ones included.
  pub look_for_new_servers-started :
      (s : Net)
      → count list_node s.possible_servers ≡ 0
      → look_for_new_servers s ≡ record (started (take 6 s.possible_servers) s) {
        asked = s.asked + (if length s.possible_servers == 0 then 1 else 0);
      }
  unfolding look_for_new_servers
  look_for_new_servers-started s h = ground (
    arith,
    startup_loop-started s.possible_servers 0 5 s,
    remove_loop_same (length (take 5 s.possible_servers) + 1) s.possible_servers,
    remove_loop_same (0 + length (take 5 s.possible_servers) + 1) s.possible_servers,
    length-take 5 s.possible_servers,
  )
