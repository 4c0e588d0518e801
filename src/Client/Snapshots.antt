-- ===== src/Client/Snapshots.antt =====
-- `stream_snapshot` of crates/k10s-server/src/control.rs: a listing as the frames of a snapshot. What
-- the cancellation tokens answer at the n-th test, and what the scheduler answers to the n-th frame,
-- are arguments; so is the JSON text of a page, which only the checksum reads. The client's minor is
-- one for which `compatible_value` leaves a page as it is. The checksum stays a number: the code
-- writes it in hexadecimal.
use k10s.Base.{
  ℕ, suc, ◌*◌, ◌%◌, ◌^◌, Bool, Option, none, some, List, [], ◌∷◌, foldl, max, length, ◌==◌,
  if◌then◌else◌, Reply, ok, err, panic,
}
use Prim.Native.Nat.{bit_xor}
use k10s.Outbound.Queue.{EnqueueError}
use k10s.Watch.Publisher.{ResourceRecord, ResourceListData}
use k10s.Client.Rows.{ResourceSnapshotPage, snapshot_page}
use k10s.Client.Pages.{div_ceil, chunks}

pub data SnapshotFrame (W : Type 0) : Type 0 where
  begin : ℕ → SnapshotFrame W
  chunk : ℕ → ResourceSnapshotPage W → SnapshotFrame W
  end : ℕ → SnapshotFrame W

pub data SnapshotOutcome : Type 0 where
  completed cancelled : SnapshotOutcome

abbrev pub fnv_offset_basis : ℕ
fnv_offset_basis = 0xcbf29ce484222325

abbrev pub fnv_prime : ℕ
fnv_prime = 0x100000001b3

-- `wrapping_mul`.
unfoldable pub checksum_byte : ℕ → ℕ → ℕ
checksum_byte checksum byte = bit_xor checksum byte * fnv_prime % 2 ^ 64

-- What went out, and the result.
abbrev pub Streamed : Type 0 → Type 0
Streamed W = List (SnapshotFrame W) × Reply EnqueueError SnapshotOutcome

-- `send_sequenced(..).await?`, and what follows.
abbrev pub sending : {W : Type 0} → Option EnqueueError → SnapshotFrame W → Streamed W → Streamed W
sending none frame rest = (frame ∷ rest.0, rest.1)
sending (some e) frame rest = ([], err e)

-- The test of the tokens, and what follows.
abbrev pub unless_cancelled : {W : Type 0} → Bool → Streamed W → Streamed W
unless_cancelled stop rest = if stop then ([], ok cancelled) else rest

-- An empty listing is one empty page.
unfoldable pub pages_of :
    {O P : Type 0} → ℕ → List (ResourceRecord O P) → List (List (ResourceRecord O P))
pages_of rows_per_chunk [] = [] ∷ []
pages_of rows_per_chunk (r ∷ rows) = chunks rows_per_chunk (r ∷ rows)

module _ {O P W : Type 0} (map_projection : P → W) (to_vec : ResourceSnapshotPage W → List ℕ)
    (is_cancelled : ℕ → Bool) (refusal : ℕ → Option EnqueueError) where
  -- The loop over the pages and the end of the snapshot. The index of the page counts the tests and
  -- the frames too: one of each came before the first page.
  unfoldable pub stream_pages : ℕ → ℕ → ℕ → List (List (ResourceRecord O P)) → Streamed W
  unfolding checksum_byte
  stream_pages revision index checksum [] =
      unless_cancelled (is_cancelled (suc index))
        (sending (refusal (suc index)) (end checksum) ([], ok completed))
  stream_pages revision index checksum (page ∷ pages) =
      let wire = snapshot_page map_projection revision page in
      unless_cancelled (is_cancelled (suc index)) (
        sending (refusal (suc index)) (chunk (index % 2 ^ 32) wire)
          (stream_pages revision (suc index) (foldl checksum_byte checksum (to_vec wire)) pages))

  -- `div_ceil` by zero panics; the configuration rejects it.
  unfoldable pub stream_snapshot : ℕ → ResourceListData O P → Streamed W
  unfolding stream_pages pages_of
  stream_snapshot rows_per_chunk listing =
      if rows_per_chunk == 0
      then ([], panic)
      else unless_cancelled (is_cancelled 0) (
          sending (refusal 0)
            (begin (max (div_ceil (length listing.rows) rows_per_chunk) 1 % 2 ^ 32))
            (stream_pages listing.revision 0 fnv_offset_basis
              (pages_of rows_per_chunk listing.rows)))
