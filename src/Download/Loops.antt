-- ===== src/Download/Loops.antt =====
-- The loops that carry a file from the disk to the socket and back: download_send_accept and
-- download_recv_fetch of pingu/download.c. A block is what one read returned, and the end of the
-- list is the read that returned nothing.
use misc_uni_stuff.Base.{
  ℕ, ◌+◌, ◌-◌, ◌≡◌, ◌<◌, refl, sym, ap, ap₂, ◌∙◌, arith, List, [], ◌∷◌, ◌++◌, All, map, ◌==◌,
  if◌then◌else◌, Option, none, some, take, length, take_all, append-nil,
}

-- The inner loop, with `k` bytes of `buf` to go. Each number is what one write returned, 0 for a
-- failure; without an answer to a write the loop has not ended.
pub write_loop : List ℕ → ℕ → List ℕ → Option (List ℕ × List ℕ)
write_loop buf k [] = if k == 0 then some ([], []) else none
write_loop buf k (h ∷ writes) =
    let rest = write_loop buf (k - h) writes in
    if k == 0
    then some ([], h ∷ writes)
    else elim rest [ none ↦ none | some x ↦ some (take h buf ++ x.0, x.1) ]

-- The bytes that go down the socket, once the outer loop has ended.
pub send_loop : List (List ℕ) → List ℕ → Option (List ℕ)
send_loop [] writes = some []
send_loop (buf ∷ blocks) writes = elim (write_loop buf (length buf) writes) [
  | none ↦ none
  | some x ↦ elim (send_loop blocks x.1) [ none ↦ none | some rest ↦ some (x.0 ++ rest) ]
]

-- The bytes of the new file. A write may fail, which ends the loop; how many bytes it took is not
-- looked at.
pub recv_loop : List (List ℕ) → List (Option ℕ) → List ℕ
recv_loop [] writes = []
recv_loop (buf ∷ blocks) [] = []
recv_loop (buf ∷ blocks) (none ∷ writes) = []
recv_loop (buf ∷ blocks) (some w ∷ writes) = take w buf ++ recv_loop blocks writes

abbrev pub concat : List (List ℕ) → List ℕ
concat [] = []
concat (l ∷ rest) = l ++ concat rest

write_loop-nil : (buf writes : List ℕ) → write_loop buf 0 writes ≡ some ([], writes)
unfolding write_loop
write_loop-nil buf [] = refl
write_loop-nil buf (h ∷ writes) = refl

write_loop-whole :
    (buf writes : List ℕ)
    → 0 < length buf
    → write_loop buf (length buf) (length buf ∷ writes) ≡ some (buf ++ [], writes)
unfolding write_loop
write_loop-whole buf writes h =
    let whole = take_all (length buf) buf (omega arith) in
    let done : length buf - length buf ≡ 0 = omega arith in
    ground (arith, whole, done, write_loop-nil buf writes)

-- Where each write takes the whole block, the blocks go down the socket one after the other.
send_loop-whole :
    (blocks : List (List ℕ))
    → All (λ l. 0 < length l) blocks
    → send_loop blocks (map length blocks) ≡ some (concat blocks)
unfolding send_loop
send_loop-whole [] v = refl
send_loop-whole (buf ∷ blocks) v = ground (
  arith,
  write_loop-whole buf (map length blocks) v.0,
  send_loop-whole blocks v.1,
  append-nil buf,
)

recv_loop-whole :
    (blocks : List (List ℕ)) → recv_loop blocks (map (λ l. some (length l)) blocks) ≡ concat blocks
unfolding recv_loop
recv_loop-whole [] = refl
recv_loop-whole (buf ∷ blocks) =
    ap₂ (λ x y. x ++ y) (take_all (length buf) buf (omega arith)) (recv_loop-whole blocks)

-- Where every write on both sides takes the whole of its block, the sender's loop ends, and however
-- the socket cuts what was sent into blocks, the file that is written is the file that was read.
pub recv_loop-send_loop :
    (blocks received : List (List ℕ))
    → All (λ l. 0 < length l) blocks
    → concat received ≡ concat blocks
    → (send_loop blocks (map length blocks) ≡ some (concat received))
      × (recv_loop received (map (λ l. some (length l)) received) ≡ concat blocks)
recv_loop-send_loop blocks received v e =
    (send_loop-whole blocks v ∙ ap some (sym e), recv_loop-whole received ∙ e)

-- What a block's front gives to writes that take so many bytes each.
abbrev pub fronts : List ℕ → List ℕ → List ℕ
fronts buf [] = []
fronts buf (h ∷ taken) = take h buf ++ fronts buf taken

abbrev pub sum : List ℕ → ℕ
sum [] = 0
sum (h ∷ taken) = h + sum taken

-- Writes that take the whole of a block together, each of them some of it, end the loop; but each
-- of them takes its bytes from the front of the block, whatever the writes before it took.
pub write_loop_partial :
    (buf taken writes : List ℕ)
    → All (λ h. 0 < h) taken
    → write_loop buf (sum taken) (taken ++ writes) ≡ some (fronts buf taken, writes)
unfolding write_loop
write_loop_partial buf [] writes v = write_loop-nil buf writes
write_loop_partial buf (h ∷ taken) writes v =
    let left : h + sum taken - h ≡ sum taken = omega arith in
    let rest = write_loop_partial buf taken writes v.1 in ground (arith, left, rest, v.0)
