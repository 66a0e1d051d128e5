-- ===== src/Net/Threads.antt =====
-- check_add_server of pingu/socket.c on the threads of the pool request_processors: each call takes
-- the lock add_address, and its steps interleave with those of the others.
use misc_uni_stuff.Base.{
  ℕ, ◌≡◌, refl, sym, ap, ◌∙◌, arith, List, [], ◌∷◌, ◌++◌, Bool, true, false, ◌==◌, ==_iff, Option,
  none, some, Bool-cases, Option-cases, inl, inr,
}
use misc_uni_stuff.Glib.{Slist, Gpointer}
use misc_uni_stuff.Packet.{SockaddrIn}
use misc_uni_stuff.Net.{
  Net, deref, assign, find_servlet, new_servlet, new_servlet_real, new_servlet_startup,
  check_add_server,
}
use misc_uni_stuff.Request.{update}

-- Where a call stands: before G_LOCK, at find_servlet, at the malloc of new_servlet_real, at
-- new_servlet_startup, at the stamp, at G_UNLOCK, and after it.
pub data Pc : Type 0 where
  waiting finding adding : Pc
  starting stamping : Gpointer → Pc
  leaving finished : Pc

-- Whether the call is between G_LOCK and G_UNLOCK.
abbrev pub inside : Pc → Bool
inside waiting = false
inside finished = false
inside finding = true
inside adding = true
inside (starting p) = true
inside (stamping p) = true
inside leaving = true

-- `holder` is who has the lock; `acquired` logs who took it.
pub record Threads : Type 0 where
  pub net : Net
  pub holder : Option ℕ
  pub pc : ℕ → Pc
  pub acquired : List ℕ

-- Thread `i` handles a packet from `source i`; the times are what time(NULL) returns in it.
module _ ⦃g : Slist⦄ (source : ℕ → SockaddrIn) (now later : ℕ → ℕ) where
  abbrev pub stamp : ℕ → Gpointer → Net → Net
  stamp i p s = assign s p (record (deref s p) { lastponged = later i })

  abbrev pub found : Option Gpointer → Pc
  found none = adding
  found (some p) = stamping p

  pub data Step (s : Threads) : Threads → Type 0 where
    locks :
        (i : ℕ)
        → s.holder ≡ none
        → s.pc i ≡ waiting
        → Step s (record s {
          holder = some i;
          pc = update s.pc i finding;
          acquired = s.acquired ++ i ∷ [];
        })
    finds :
        (i : ℕ)
        → s.pc i ≡ finding
        → Step s (record s { pc = update s.pc i (found (find_servlet s.net (source i))) })
    adds :
        (i : ℕ)
        → s.pc i ≡ adding
        → Step s (record s {
          net = (new_servlet_real s.net (source i) (now i)).0;
          pc = update s.pc i (starting (new_servlet_real s.net (source i) (now i)).1);
        })
    starts :
        (i : ℕ) (p : Gpointer)
        → s.pc i ≡ starting p
        → Step s (record s { net = new_servlet_startup s.net p; pc = update s.pc i (stamping p) })
    stamps :
        (i : ℕ) (p : Gpointer)
        → s.pc i ≡ stamping p
        → Step s (record s { net = stamp i p s.net; pc = update s.pc i leaving })
    unlocks :
        (i : ℕ)
        → s.pc i ≡ leaving
        → Step s (record s { holder = none; pc = update s.pc i finished })

  -- Before any call has taken the lock.
  abbrev pub idle_threads : Net → Threads
  idle_threads s = record { net = s; holder = none; pc = λ i. waiting; acquired = [] }

  pub data Reach (s : Net) : Threads → Type 0 where
    here : Reach s (idle_threads s)
    next : {u w : Threads} → Reach s u → Step u w → Reach s w

  -- The calls one after the other, none of them interrupted.
  abbrev pub served : Net → List ℕ → Net
  served s [] = s
  served s (i ∷ l) = served (check_add_server s (source i) (now i) (later i)) l

  served-append :
      (s : Net) (l : List ℕ) (i : ℕ)
      → served s (l ++ i ∷ []) ≡ check_add_server (served s l) (source i) (now i) (later i)
  served-append s [] i = refl
  served-append s (j ∷ l) i = served-append (check_add_server s (source j) (now j) (later j)) l i

  -- What the rest of a call makes of the tables.
  pub rest : ℕ → Pc → Net → Net
  rest i waiting s = s
  rest i finished s = s
  rest i leaving s = s
  rest i (stamping p) s = stamp i p s
  rest i (starting p) s = stamp i p (new_servlet_startup s p)
  rest i adding s =
      let (s', p) = new_servlet_real s (source i) (now i) in stamp i p (new_servlet_startup s' p)
  rest i finding s = check_add_server s (source i) (now i) (later i)

  rest-found : (i : ℕ) (s : Net) → rest i (found (find_servlet s (source i))) s ≡ rest i finding s
  unfolding rest check_add_server new_servlet
  rest-found i s = elim (Option-cases (find_servlet s (source i))) [
    | inl e ↦ rw (e, check_add_server) refl
    | inr (p, e) ↦ rw (e, check_add_server) refl
  ]

  -- Only who holds the lock is inside; and when its call has ended, the tables are as if the calls
  -- had come one after the other, in the order in which they took the lock.
  pub record IsSerial (s : Net) (u : Threads) : Type 0 where
    pub exclusive : (i : ℕ) → inside (u.pc i) ≡ true → u.holder ≡ some i
    pub busy : (i : ℕ) → inside (u.pc i) ≡ true → rest i (u.pc i) u.net ≡ served s u.acquired
    pub free : u.holder ≡ none → u.net ≡ served s u.acquired
    pub held : (i : ℕ) → u.holder ≡ some i → inside (u.pc i) ≡ true

  -- A step of who is inside, which stays inside.
  inside-IsSerial :
      (s w : Net) (u : Threads) (i : ℕ) (p p' : Pc)
      → IsSerial s u
      → u.pc i ≡ p
      → inside p ≡ true
      → inside p' ≡ true
      → rest i p' w ≡ rest i p u.net
      → IsSerial s (record u { net = w; pc = update u.pc i p' })
  inside-IsSerial s w u i p p' v e in_p in_p' same =
      let in_i = ap inside e ∙ in_p in
      let holder = v.exclusive i in_i in
      let serial = same ∙ ap (λ q. rest i q u.net) (sym e) ∙ v.busy i in_i in
      record {
        exclusive = λ j inside_j. elim (Bool-cases (i == j)) [
          | inl eq ↦ holder ∙ ap some ((==_iff i j).0 eq)
          | inr other ↦ v.exclusive j (rw other at inside_j)
        ];
        busy = λ j inside_j. elim (Bool-cases (i == j)) [
          | inl eq ↦ let eq' = (==_iff i j).0 eq in rw (eq, ← eq') serial
          | inr other ↦ absurd (other_inside j other (rw other at inside_j))
        ];
        free = λ none_holds. absurd (cc (none_holds, holder));
        held = λ j holds. elim (Bool-cases (i == j)) [
          | inl eq ↦ rw eq in_p'
          | inr other ↦ absurd (ground (arith, other, holder, holds))
        ];
      }
    where
      other_inside : (j : ℕ) → (i == j) ≡ false → inside (u.pc j) ≡ true → ⊥
      other_inside j other in_j =
          let same_holder = v.exclusive j in_j in
          let holder = v.exclusive i (ap inside e ∙ in_p) in
          ground (arith, other, same_holder, holder)

  Step-IsSerial : (s : Net) {u w : Threads} → Step u w → IsSerial s u → IsSerial s w
  unfolding rest
  Step-IsSerial s {u} (locks i no_one e) v = record {
    exclusive = λ j inside_j. elim (Bool-cases (i == j)) [
      | inl eq ↦ ap some ((==_iff i j).0 eq)
      | inr other ↦ absurd (cc (no_one, v.exclusive j (rw other at inside_j)))
    ];
    busy = λ j inside_j. elim (Bool-cases (i == j)) [
      | inl eq ↦
          let eq' = (==_iff i j).0 eq in
          rw (eq, ← eq')
            (ap (λ n. check_add_server n (source i) (now i) (later i)) (v.free no_one)
              ∙ sym (served-append s u.acquired i))
      | inr other ↦ absurd (cc (no_one, v.exclusive j (rw other at inside_j)))
    ];
    free = λ none_holds. cc none_holds;
    held = λ j holds. elim (Bool-cases (i == j)) [
      | inl eq ↦ rw eq refl
      | inr other ↦ absurd (ground (arith, other, holds))
    ];
  }
  Step-IsSerial s {u} (finds i e) v =
      inside-IsSerial s u.net u i finding (found (find_servlet u.net (source i))) v e refl
        (found_inside (find_servlet u.net (source i))) (rest-found i u.net)
    where
      found_inside : (o : Option Gpointer) → inside (found o) ≡ true
      found_inside none = refl
      found_inside (some p) = refl
  Step-IsSerial s {u} (adds i e) v = inside-IsSerial s _ u i adding (starting _) v e refl refl refl
  Step-IsSerial s {u} (starts i p e) v =
      inside-IsSerial s _ u i (starting p) (stamping p) v e refl refl refl
  Step-IsSerial s {u} (stamps i p e) v =
      inside-IsSerial s _ u i (stamping p) leaving v e refl refl refl
  Step-IsSerial s {u} (unlocks i e) v =
      let in_i = ap inside e in
      let holder = v.exclusive i in_i in
      record {
        exclusive = λ j inside_j. absurd (no_one_inside holder j inside_j);
        busy = λ j inside_j. absurd (no_one_inside holder j inside_j);
        free = λ none_holds. ap (λ q. rest i q u.net) (sym e) ∙ v.busy i in_i;
        held = λ j holds. cc holds;
      }
    where
      no_one_inside : u.holder ≡ some i → (j : ℕ) → inside (update u.pc i finished j) ≡ true → ⊥
      no_one_inside holder j inside_j = elim (Bool-cases (i == j)) [
        | inl eq ↦ cc (rw eq at inside_j)
        | inr other ↦
            let in_j = v.exclusive j (rw other at inside_j) in ground (arith, other, holder, in_j)
      ]

  pub Reach-IsSerial : (s : Net) {u : Threads} → Reach s u → IsSerial s u
  Reach-IsSerial s here = record {
    exclusive = λ i e. cc e;
    busy = λ i e. cc e;
    free = λ e. refl;
    held = λ i e. cc e;
  }
  Reach-IsSerial s (next r st) = Step-IsSerial s st (Reach-IsSerial s r)
