-- ===== src/Net/Serial.antt =====
-- The calls of check_add_server, pingu/socket.c, on the threads of the pool request_processors: what any
-- interleaving of them leaves.
use misc_uni_stuff.Base.{
  ℕ, ◌≡◌, ◌≢◌, refl, sym, subst, List, [], ◌∷◌, true, none, Option-cases, inl, inr,
}
use misc_uni_stuff.Glib.{Slist}
use misc_uni_stuff.Packet.{SockaddrIn}
use misc_uni_stuff.Net.{Net, check_add_server}
use misc_uni_stuff.Net.Known.{IsUnique, check_add_server-IsUnique}
use misc_uni_stuff.Net.Invariant.{IsNet, check_add_server-IsNet}
use misc_uni_stuff.Net.Threads.{
  Pc, waiting, finding, adding, starting, stamping, leaving, finished, inside, Threads, Step, Reach,
  served, Reach-IsSerial,
}
use misc_uni_stuff.Net.Threads.Step.{locks, finds, adds, starts, stamps, unlocks}

module _ ⦃g : Slist⦄ (source : ℕ → SockaddrIn) (now later : ℕ → ℕ) where
  -- A call that is inside can go on.
  inside_moves :
      (u : Threads) (i : ℕ) (p : Pc)
      → u.pc i ≡ p
      → inside p ≡ true
      → (w : Threads) × Step source now later u w
  inside_moves u i waiting e in_p = cc in_p
  inside_moves u i finished e in_p = cc in_p
  inside_moves u i finding e in_p = (_, finds i e)
  inside_moves u i adding e in_p = (_, adds i e)
  inside_moves u i (starting p) e in_p = (_, starts i p e)
  inside_moves u i (stamping p) e in_p = (_, stamps i p e)
  inside_moves u i leaving e in_p = (_, unlocks i e)

  -- While no one holds the lock, so can a call that has not ended.
  free_moves :
      (u : Threads) (i : ℕ) (p : Pc)
      → u.holder ≡ none
      → u.pc i ≡ p
      → p ≢ finished
      → (w : Threads) × Step source now later u w
  free_moves u i waiting no_one e going = (_, locks i no_one e)
  free_moves u i finished no_one e going = absurd (going refl)
  free_moves u i finding no_one e going = inside_moves u i finding e refl
  free_moves u i adding no_one e going = inside_moves u i adding e refl
  free_moves u i (starting p) no_one e going = inside_moves u i (starting p) e refl
  free_moves u i (stamping p) no_one e going = inside_moves u i (stamping p) e refl
  free_moves u i leaving no_one e going = inside_moves u i leaving e refl

  -- However the calls of check_add_server on different threads interleave: at most one is between
  -- G_LOCK and G_UNLOCK; while no one holds the lock, the tables are those that the calls leave
  -- when they come one after the other, in the order in which they took the lock; and as long as a
  -- call has not ended, some call can go on.
  pub Reach-served :
      (s : Net) (u : Threads)
      → Reach source now later s u
      → ((i j : ℕ) → inside (u.pc i) ≡ true → inside (u.pc j) ≡ true → i ≡ j)
        × (u.holder ≡ none → u.net ≡ served source now later s u.acquired)
        × ((i : ℕ) → u.pc i ≢ finished → (w : Threads) × Step source now later u w)
  Reach-served s u r =
      let v = Reach-IsSerial source now later s r in
      (
        (λ i j in_i in_j. cc (v.exclusive i in_i, v.exclusive j in_j)),
        v.free,
        λ i going. elim (Option-cases u.holder) [
          | inl no_one ↦ free_moves u i (u.pc i) no_one refl going
          | inr (j, holds) ↦ inside_moves u j (u.pc j) refl (v.held j holds)
        ],
      )

  served-IsUnique :
      (s : Net) (l : List ℕ)
      → IsNet s
      → IsUnique s
      → IsNet (served source now later s l) × IsUnique (served source now later s l)
  served-IsUnique s [] v u = (v, u)
  served-IsUnique s (i ∷ l) v u =
      served-IsUnique (check_add_server s (source i) (now i) (later i)) l
        (check_add_server-IsNet s (source i) (now i) (later i) v)
        (check_add_server-IsUnique s (source i) (now i) (later i) v.sockets u)

  -- Threads that hear packets at the same time make no address known twice: if the tables were well
  -- formed and no address was known twice, then so it is again whenever the lock is free.
  pub Reach-IsUnique :
      (s : Net) (u : Threads)
      → IsNet s
      → IsUnique s
      → Reach source now later s u
      → u.holder ≡ none
      → IsNet u.net × IsUnique u.net
  Reach-IsUnique s u v unique r e =
      let same = (Reach-served s u r).1 e in
      subst (λ n. IsNet n × IsUnique n) (sym same) (served-IsUnique s u.acquired v unique)
