-- ===== src/Client/Delivery.antt =====
-- A snapshot from the listing of the backend to the list of the client: `stream_snapshot` of
-- crates/k10s-server/src/control.rs, and its receiver in crates/k10s-ui/src/client/state.rs.
use k10s.Base.{
  ℕ, suc, ◌+◌, ◌%◌, ◌^◌, ◌≤◌, ◌<◌, ◌≡◌, refl, sym, subst, String, true, false, none, some, List, [],
  ◌∷◌, ◌++◌, map, arith, max, length, foldl, ok, ◌==◌,
}
use mathlib.Core.List.{map-append, append_assoc, append-nil}
use k10s.Base.Maps.{lookup, contains_key, lookup-insert_self}
use k10s.Watch.Publisher.{ResourceRecord, ResourceListData}
use k10s.Client.Rows.{ResourceListRow, ResourceSnapshotPage, map_row, snapshot_page}
use k10s.Client.Pages.{div_ceil, chunks, concat, concat-chunks, length-chunks, some_chunks}
use k10s.Client.Snapshots.{
  begin, completed, stream_pages, pages_of, stream_snapshot, checksum_byte, fnv_offset_basis,
}
use k10s.Client.Views.{Views, on_snapshot, on_snapshots, add_page, owned_subscription, on_begin}
use k10s.Client.Arrival.{
  chunk_step, end_step, earlier, assembly-IsElsewhere, snapshot-IsElsewhere, on_snapshots_ok,
  last_frame, IsDelivered,
}

module _ {O P W : Type 0} (map_projection : P → W) (to_vec : ResourceSnapshotPage W → List ℕ) where
  stream_pages_completed :
      (revision index checksum : ℕ) (pages : List (List (ResourceRecord O P)))
      → (stream_pages map_projection to_vec
          (λ _. false)
          (λ _. none)
          revision
          index
          checksum
          pages).1
        ≡ ok completed
  unfolding stream_pages
  stream_pages_completed revision index checksum [] = refl
  stream_pages_completed revision index checksum (page ∷ pages) =
      stream_pages_completed revision (suc index) _ pages

module _ {S W : Type 0} (id : String) where
  module _ {O P : Type 0} (map_projection : P → W) (to_vec : ResourceSnapshotPage W → List ℕ) where
    pages-IsDelivered :
        (revision total index checksum before : ℕ) (rows : List (ResourceListRow W))
        (page : List (ResourceRecord O P)) (pages : List (List (ResourceRecord O P)))
        (v : Views S W)
        → contains_key id v.live_subscriptions ≡ true
        → total < 2 ^ 32
        → index + suc (length pages) ≡ total
        → before ≤ revision
        → lookup id v.snapshot_assemblies
          ≡ some (record {
            total_chunks = total;
            received_chunks = index;
            revision = before;
            rows = rows;
          })
        → IsDelivered id revision (rows ++ map (map_row map_projection) (concat (page ∷ pages))) v (
            on_snapshots
              (some id)
              (stream_pages map_projection to_vec
                (λ _. false)
                (λ _. none)
                revision
                index
                checksum
                (page ∷ pages)).0
              v)
    unfolding stream_pages add_page snapshot_page
    pages-IsDelivered revision total index checksum before rows page [] v live small count le at =
        let small_index : index % 2 ^ 32 ≡ index = omega arith in
        let step =
          chunk_step id index total before rows (snapshot_page map_projection revision page) v live
            (omega arith) at in
        let full : (suc index == total) ≡ true = ground arith in
        let top : max before revision ≡ revision = ground arith in
        rw (small_index, on_snapshots_ok id _ _ v _ step, full, top, append-nil)
          (earlier id (snapshot-IsElsewhere id _ _ v) (
            last_frame id _ revision _ _ (
              end_step id _
                (record {
                  total_chunks = total;
                  received_chunks = suc index;
                  revision = revision;
                  rows = [];
                })
                (record { revision = revision; rows = rows ++ map (map_row map_projection) page }) _
                live (lookup-insert_self id _ v.snapshot_assemblies) (omega arith)
                (lookup-insert_self id _ v.completed_snapshots))))
    pages-IsDelivered revision total index checksum before rows page (next ∷ pages) v live small
          count le at =
        let small_index : index % 2 ^ 32 ≡ index = omega arith in
        let step =
          chunk_step id index total before rows (snapshot_page map_projection revision page) v live
            (omega arith) at in
        let full : (suc index == total) ≡ false = ground arith in
        let top : max before revision ≡ revision = ground arith in
        let regroup =
          append_assoc rows (map (map_row map_projection) page)
            (map (map_row map_projection) (concat (next ∷ pages))) in
        rw (small_index, on_snapshots_ok id _ _ v _ step, full, top, map-append, ← regroup)
          (earlier id (assembly-IsElsewhere id _ v) (
            pages-IsDelivered revision total (suc index)
              (foldl checksum_byte checksum (to_vec (snapshot_page map_projection revision page)))
              revision (rows ++ map (map_row map_projection) page) next pages _ live small
              (omega arith) (omega arith) (lookup-insert_self id _ v.snapshot_assemblies)))

    -- From the first frame on, for a listing in pages.
    begun :
        (revision total : ℕ) (page : List (ResourceRecord O P))
        (pages : List (List (ResourceRecord O P))) (v : Views S W)
        → contains_key id v.live_subscriptions ≡ true
        → total < 2 ^ 32
        → suc (length pages) ≡ total
        → IsDelivered id revision (map (map_row map_projection) (concat (page ∷ pages))) v (
            on_snapshots
              (some id)
              (begin total
                ∷ (stream_pages map_projection to_vec
                    (λ _. false)
                    (λ _. none)
                    revision
                    0
                    fnv_offset_basis
                    (page ∷ pages)).0)
              v)
    unfolding on_snapshots on_snapshot owned_subscription on_begin
    begun revision total page pages v live small count = rw live (
        earlier id (assembly-IsElsewhere id _ v) (
          pages-IsDelivered revision total 0 fnv_offset_basis 0 [] page pages _ live small
            (omega arith) (omega arith) (lookup-insert_self id _ v.snapshot_assemblies)))

    paged_as :
        (revision total : ℕ) (pages : List (List (ResourceRecord O P))) (v : Views S W)
        → contains_key id v.live_subscriptions ≡ true
        → total < 2 ^ 32
        → length pages ≡ total
        → 0 < total
        → IsDelivered id revision (map (map_row map_projection) (concat pages)) v (
            on_snapshots
              (some id)
              (begin total
                ∷ (stream_pages map_projection to_vec
                    (λ _. false)
                    (λ _. none)
                    revision
                    0
                    fnv_offset_basis
                    pages).0)
              v)
    paged_as revision total [] v live small count p = absurd (omega arith)
    paged_as revision total (page ∷ pages) v live small count p =
        begun revision total page pages v live small count

    paged :
        (k revision : ℕ) (rows : List (ResourceRecord O P)) (v : Views S W)
        → contains_key id v.live_subscriptions ≡ true
        → 0 < k
        → max (div_ceil (length rows) k) 1 < 2 ^ 32
        → IsDelivered id revision (map (map_row map_projection) rows) v (
            on_snapshots
              (some id)
              (begin (max (div_ceil (length rows) k) 1 % 2 ^ 32)
                ∷ (stream_pages map_projection to_vec
                    (λ _. false)
                    (λ _. none)
                    revision
                    0
                    fnv_offset_basis
                    (pages_of k rows)).0)
              v)
    unfolding pages_of chunks
    paged k revision [] v live p small =
        let few : div_ceil 0 k ≡ 0 = sym (length-chunks {A = ResourceRecord O P} k [] p) in
        rw few (paged_as revision 1 ([] ∷ []) v live (omega arith) refl (omega arith))
    paged k revision (r ∷ rows) v live p small =
        let n : ℕ = div_ceil (suc (length rows)) k in
        let count : length (chunks k (r ∷ rows)) ≡ n = length-chunks k (r ∷ rows) p in
        let positive : 0 < n = subst (λ x. 0 < x) count (some_chunks k r rows) in
        let same : max n 1 % 2 ^ 32 ≡ n = ground arith in
        let all : concat (chunks k (r ∷ rows)) ≡ r ∷ rows = concat-chunks k (r ∷ rows) p in
        rw same (
          subst
            (λ xs. IsDelivered id revision (map (map_row map_projection) xs) v (
              on_snapshots (some id)
                (begin n
                  ∷ (stream_pages map_projection to_vec (λ _. false) (λ _. none) revision 0
                      fnv_offset_basis (chunks k (r ∷ rows))).0)
                v))
            all (paged_as revision n (chunks k (r ∷ rows)) v live (ground arith) count positive))

    -- A snapshot of a live subscription, in pages of any size above zero, whose number fits in 32 bits,
    -- that is neither cancelled nor refused: the server completes it, and the client that receives its
    -- frames in their order has exactly the rows and the revision of the listing as the list of that
    -- watch and as its completed snapshot, and leaves the lists, the snapshots and the assemblies of all
    -- other watches, and all subscriptions, as they were.
    pub stream_snapshot-IsDelivered :
        (k : ℕ) (listing : ResourceListData O P) (v : Views S W)
        → contains_key id v.live_subscriptions ≡ true
        → 0 < k
        → max (div_ceil (length listing.rows) k) 1 < 2 ^ 32
        → ((stream_snapshot map_projection to_vec (λ _. false) (λ _. none) k listing).1
            ≡ ok completed)
          × IsDelivered id listing.revision (map (map_row map_projection) listing.rows) v (
              on_snapshots
                (some id)
                (stream_snapshot map_projection to_vec (λ _. false) (λ _. none) k listing).0
                v)
    unfolding stream_snapshot
    stream_snapshot-IsDelivered k listing v live p small =
        let positive : (k == 0) ≡ false = ground arith in
        rw positive (
          stream_pages_completed map_projection to_vec listing.revision 0 fnv_offset_basis
              (pages_of k listing.rows),
          paged k listing.revision listing.rows v live p small,
        )
