-- ===== src/Net/Shutdown.antt =====
-- The end of the program: closedown of pingu/socket.c, and on_closedown of pingu/gui.c, which runs
-- on SIGINT and when the window is closed.
use misc_uni_stuff.Base.{
  ℕ, ◌≡◌, ◌≤◌, refl, sym, ap, subst, append-nil, ◌∙◌, arith, List, [], ◌∷◌, ◌++◌, Bool, true, not,
  ◌==◌, Bool-cases, inl, inr, if◌then◌else◌, Option, none, some, append_assoc,
}
use misc_uni_stuff.Glib.{Slist, Gpointer, g_slist_foreach, same_pointer}
use misc_uni_stuff.Packet.{SockaddrIn}
use misc_uni_stuff.Net.{Net, deref}
use misc_uni_stuff.Net.Pointers.{count, one_if, same_pointer→eq}
use misc_uni_stuff.Net.Lookup.{known, same_host}
use misc_uni_stuff.Net.Known.{IsUnique}

-- When the process ends: `freed` is what free was called with, and `closed` which descriptors were
-- closed.
pub record Closed : Type 0 where
  pub net : Net
  pub freed : List Gpointer
  pub closed : List ℕ

pub close_me : Gpointer → List Gpointer → List Gpointer
close_me s freed = freed ++ s ∷ []

module _ ⦃g : Slist⦄ where
  pub closedown : Net → Closed
  unfolding close_me
  closedown s = elim s.sockets [
    | [] ↦ record { net = s; freed = []; closed = s.listening ∷ [] }
    | p ∷ l ↦ record {
      net = record s { sockets = [] };
      freed = g_slist_foreach close_me s.sockets [];
      closed = s.listening ∷ [];
    }
  ]

  -- Whether gtk_main_quit is called, and then closedown, which does not return.
  pub on_closedown : ℕ → ℕ → Net → Option (Bool × Closed)
  unfolding closedown
  on_closedown been_through main_level s =
      if not (been_through == 0) then none else some (not (main_level == 0), closedown s)

  closed_each : (l freed : List Gpointer) → g.foreach close_me l freed ≡ freed ++ l
  unfolding close_me
  closed_each [] freed = g.foreach-nil close_me freed ∙ sym (append-nil freed)
  closed_each (p ∷ l) freed =
      g.foreach-cons close_me p l freed
      ∙ closed_each l (freed ++ p ∷ [])
      ∙ append_assoc freed (p ∷ []) l

  same_host_refl : (a : SockaddrIn) → same_host a a ≡ true
  same_host_refl a = ground arith

  count-known :
      (s : Net) (p : Gpointer) (l : List Gpointer) → count p l ≤ known s (deref s p).client l
  count-known s p [] = omega arith
  count-known s p (q ∷ l) = elim (Bool-cases (same_pointer q p)) [
    | inl e ↦
        let same =
          ap (λ q. one_if (same_host (deref s q).client (deref s p).client))
            (same_pointer→eq q p e) in
        let own = ap one_if (same_host_refl (deref s p).client) in
        omega (arith, count-known s p l, ap one_if e, same, own)
    | inr e ↦ omega (arith, count-known s p l, ap one_if e)
  ]

  closedown-freed :
      (l : List Gpointer) (s : Net)
      → s.sockets ≡ l
      → ((closedown s).freed ≡ l) × ((closedown s).net.sockets ≡ [])
  unfolding closedown
  closedown-freed [] s e = rw e (refl, refl)
  closedown-freed (p ∷ l) s e = rw e (closed_each (p ∷ l) [], refl)

  -- Where no address is known twice, the end of the program frees the known servers in the order of
  -- the list, each of them once, and empties the list.
  pub closedown-IsUnique :
      (s : Net)
      → IsUnique s
      → ((closedown s).freed ≡ s.sockets)
        × ((p : Gpointer) → count p (closedown s).freed ≤ 1)
        × ((closedown s).net.sockets ≡ [])
  closedown-IsUnique s v =
      let (freed, empty) = closedown-freed s.sockets s refl in
      (
        freed,
        λ p.
            subst (λ l. count p l ≤ 1) (sym freed)
              (omega (arith, count-known s p s.sockets, v (deref s p).client)),
        empty,
      )
