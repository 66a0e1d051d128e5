-- ===== src/Download/Jobs.antt =====
-- The jobs of the two pools: download_send_accept and download_recv_fetch of pingu/download.c. A
-- job that has ended is what it did to the file and which descriptors it closed.
use misc_uni_stuff.Base.{
  ℕ, ◌≡◌, ◌<◌, refl, List, [], ◌∷◌, All, map, Bool, true, false, if◌then◌else◌, Option, none, some,
  length,
}
use misc_uni_stuff.Download.{DownloadData}
use misc_uni_stuff.Download.Loops.{send_loop, recv_loop, concat, recv_loop-send_loop}

pub record Ended : Type 0 where
  pub bytes : List ℕ
  pub closed : List ℕ

-- `accepted` is what accept returned; `blocks` and `writes` are what read and write returned.
pub download_send_accept : DownloadData → Option ℕ → List (List ℕ) → List ℕ → Option Ended
download_send_accept k none blocks writes = some (record { bytes = []; closed = [] })
download_send_accept k (some sockid) blocks writes = elim (send_loop blocks writes) [
  | none ↦ none
  | some bytes ↦ some (record { bytes = bytes; closed = k.listenid ∷ k.fileid ∷ sockid ∷ [] })
]

-- Whether the loop ends because there is no more to read.
abbrev pub all_written : List (List ℕ) → List (Option ℕ) → Bool
all_written [] writes = true
all_written (buf ∷ blocks) [] = false
all_written (buf ∷ blocks) (none ∷ writes) = false
all_written (buf ∷ blocks) (some w ∷ writes) = all_written blocks writes

pub download_recv_fetch : DownloadData → List (List ℕ) → List (Option ℕ) → Ended
download_recv_fetch d blocks writes = record {
  bytes = recv_loop blocks writes;
  closed = if all_written blocks writes then d.fileid ∷ d.listenid ∷ [] else [];
}

all_written-whole :
    (blocks : List (List ℕ)) → all_written blocks (map (λ l. some (length l)) blocks) ≡ true
all_written-whole [] = refl
all_written-whole (buf ∷ blocks) = all_written-whole blocks

-- Where every write on both sides takes the whole of its block, both jobs end with all their
-- descriptors closed, and however the socket cuts what was sent into blocks, the file that is
-- written is the file that was read.
pub download_recv_fetch-download_send_accept :
    (k d : DownloadData) (sockid : ℕ) (blocks received : List (List ℕ))
    → All (λ l. 0 < length l) blocks
    → concat received ≡ concat blocks
    → (download_send_accept k (some sockid) blocks (map length blocks)
        ≡ some (record { bytes = concat received; closed = k.listenid ∷ k.fileid ∷ sockid ∷ [] }))
      × (download_recv_fetch d received (map (λ l. some (length l)) received)
          ≡ record { bytes = concat blocks; closed = d.fileid ∷ d.listenid ∷ [] })
unfolding download_send_accept download_recv_fetch
download_recv_fetch-download_send_accept k d sockid blocks received v e =
    let (sent, written) = recv_loop-send_loop blocks received v e in
    (
      rw (download_send_accept, sent) refl,
      rw (download_recv_fetch, written, all_written-whole received) refl,
    )
