-- ===== src/Trees/Download.antt =====
-- A download of a directory follows the listing that the server sends.
use isr.Trees.Fetch.{fetch_all, download_entries_lem}
use isr.Prelude.{
  subst, ℕ, suc, ◌<◌, ◌^◌, ◌≡◌, refl, ap, sym, ◌∙◌, true, false, Option, none, some, List, ◌++◌,
  arith, Bytes, All, length, take, take-ge, if◌then◌else◌,
}
use isr.Bytes.{to_big_endian, count_byte_values}
use isr.Io.{Outcome, ret, Sys, pure, ◌>>=◌, ◌>>◌, Io, Status, ok, err, Os, World, or_fail}
use isr.Io.Post.{Post-this, Post-ret, bind_ret}
use isr.Exact.Laws.{StreamLaws, IsReliable, IsHealthy}
use isr.Exact.Recv.{waiting}
use isr.Wire.{recv_type_directory, Confirmation, encode_confirmation}
use isr.Listing.{DirEntry}
use isr.Listing.Parse.{Parsed, parse_directory_listing, recv_verified_listing}
use isr.Listing.Format.{IsEntry, listing_bytes}
use isr.Listing.RoundTrip.{entries_of, parse_directory_listing_lem}
use isr.Listing.Verified.{recv_verified_listing_accepts}
use isr.Paths.{mkdir_recursive}
use isr.Paths.Directories.{mkdir_recursive_lem}
use isr.Client.{hang_up, recv_connect, send_go, download_file}
use isr.Client.Confirmed.{send_go_lem, recv_connect_lem}
use isr.Client.Listing.{send_go-Netted, recv_connect-Netted}
use isr.Io.Fixes.{FixedAfter}
use isr.Io.Keeps.{After}
use isr.Listing.Keeps.{parse_directory_listing-Keeps}
use isr.Trees.{
  is_unparsed, listed, download_entries, download_listed, tree_confirmed, download_directory,
}

listed_lem :
    (p : Parsed) (es : List DirEntry)
    → entries_of p ≡ es
    → p.entry_count ≡ length es
    → (is_unparsed p ≡ false) × (listed p ≡ es)
listed_lem p es same count = go p.entries p.entry_count same count
  where
    go :
        (o : Option (List DirEntry)) (k : ℕ)
        → entries_of (record { entries = o; entry_count = k }) ≡ es
        → k ≡ length es
        → (is_unparsed (record { entries = o; entry_count = k }) ≡ false)
          × (listed (record { entries = o; entry_count = k }) ≡ es)
    go none k e h = let none_left : k ≡ 0 = h ∙ ap length (sym e) in rw none_left (refl, e)
    go (some found) k e h = (
      refl,
      ap (λ n. take n found) (h ∙ ap length (sym e))
          ∙ take-ge (length found) found (omega arith)
          ∙ e,
    )

-- The states of the system that mallocs lead to.
pub data Allocated {F : Type 0} (sys : Sys F) (f : F) : F → Type 0 where
  as_before : Allocated sys f f
  once_more : {g : F} (k : ℕ) → Allocated sys f g → Allocated sys f (sys.alloc k g).1

-- But for mallocs, an action first makes the local directory and then goes over these entries.
abbrev pub FollowsListing :
    {N F : Type 0} (os : Os N F) (tree file : Bytes → Bytes → Io (World N F) Status)
    → Bytes
    → Bytes
    → List DirEntry
    → Io (World N F) Status
    → World N F
    → Type 0
FollowsListing {N = N} {F = F} os tree file remote_path local_dir es m w =
    (u : World N F) × (made : Status) × (t : World N F) × Allocated os.sys w.sys u.sys
    × (mkdir_recursive os local_dir u ≡ ret made t)
    × (m w ≡ fetch_all tree file remote_path local_dir es ok t)

module _ {N F : Type 0} (os : Os N F) (stream : StreamLaws os.net) (reliable : IsReliable stream)
    (healthy : IsHealthy os.sys) (tree file : Bytes → Bytes → Io (World N F) Status)
    (remote_path local_dir : Bytes) (es : List DirEntry) (fit : All IsEntry es)
    (small : length (listing_bytes es) < 2 ^ 64) where
  abbrev Follows : F → Outcome (World N F) Status → Type 0
  Follows f o =
      (u : World N F) × (made : Status) × (t : World N F) × Allocated os.sys f u.sys
      × (mkdir_recursive os local_dir u ≡ ret made t)
      × (o ≡ fetch_all tree file remote_path local_dir es ok t)

  listed-Follows :
      (f : F) (w : World N F)
      → Allocated os.sys f w.sys
      → Follows f (download_listed os tree file remote_path local_dir (listing_bytes es) w)
  listed-Follows f w allocated =
      let buf : Bytes = listing_bytes es in
      let (parsed, u, e, (same, count, net)) =
        Post-ret _ (parse_directory_listing os buf w)
          (parse_directory_listing_lem os healthy es w fit) in
      let more : Allocated os.sys f u.sys = subst (After (Allocated os.sys f)) e (
        parse_directory_listing-Keeps os (Allocated os.sys f) (λ k g a. once_more k a) buf w
          allocated) in
      let (unparsed, all) = listed_lem parsed es same count in
      let (made, v, e', ends) =
        Post-ret _ (mkdir_recursive os local_dir u) (mkdir_recursive_lem os local_dir u) in
      let rest : List DirEntry → Io (World N F) Status =
        λ found. download_entries os tree file remote_path local_dir found ok in
      (
        u,
        made,
        v,
        more,
        e',
        bind_ret (parse_directory_listing os buf) _ e
            ∙ ap
                (λ b.
                  (if b then pure err else (mkdir_recursive os local_dir >> rest (listed parsed)))
                    u)
                unparsed
            ∙ bind_ret (mkdir_recursive os local_dir) (λ made. rest (listed parsed)) e'
            ∙ ap (λ found. rest found v) all
            ∙ ap (λ m. m v) (download_entries_lem tree file os remote_path local_dir es ok),
      )

  abbrev listing_of : Confirmation
  listing_of = record {
    response_type = recv_type_directory;
    effective_length = length (listing_bytes es);
  }

  abbrev checked_listing : Bytes
  checked_listing = listing_bytes es ++ to_big_endian 8 (count_byte_values (listing_bytes es))

  confirmed-Follows :
      (behind : Bytes) (w : World N F)
      → waiting os stream w
        ≡ listing_bytes es ++ (to_big_endian 8 (count_byte_values (listing_bytes es)) ++ behind)
      → Follows w.sys (tree_confirmed os tree file remote_path local_dir listing_of w)
  confirmed-Follows behind w holds =
      let (t, e, left) = Post-this ok _ (send_go os w) (send_go_lem os stream reliable w) in
      let same : t.sys ≡ w.sys = subst (FixedAfter (λ x. x.sys) w) e (send_go-Netted os stream w) in
      let (u, e', (left', taken)) =
        Post-this (some (listing_bytes es)) _
          (recv_verified_listing os (length (listing_bytes es)) t)
          (recv_verified_listing_accepts os stream reliable (listing_bytes es) behind t
            (healthy.alloc_some (length (listing_bytes es)) t.sys) (left.0 ∙ holds)) in
      let v : World N F = record u { net = os.net.close u.net } in
      let size : ℕ = length (listing_bytes es) in
      let one : Allocated os.sys w.sys u.sys =
        subst (Allocated os.sys w.sys) (sym (taken ∙ ap (λ f. (os.sys.alloc size f).1) same))
          (once_more size as_before) in
      let (x, made, y, allocated, making, e'') = listed-Follows w.sys v one in
      (
        x,
        made,
        y,
        allocated,
        making,
        bind_ret (send_go os) _ e
            ∙ bind_ret (recv_verified_listing os (length (listing_bytes es)) >>= hang_up os)
                (or_fail err (download_listed os tree file remote_path local_dir))
                (bind_ret (recv_verified_listing os (length (listing_bytes es))) (hang_up os) e')
            ∙ e'',
      )

module _ {N F : Type 0} (os : Os N F) (stream : StreamLaws os.net) (reliable : IsReliable stream)
    (healthy : IsHealthy os.sys) where
  -- If the server can be reached, and its stream goes on with the confirmation of a directory, its
  -- listing and the listing's checksum, then `isr_cli_download_directory`, but for mallocs, first
  -- makes the local directory by `isr_mkdir_recursive` and then goes over exactly these entries,
  -- in order and whatever the others come to: an entry of the kind 0 is downloaded as a file and
  -- any other as a tree, to the local directory, a slash and the name that the server gave,
  -- whatever name that is, cut to the buffer. The connection is reliable and no malloc fails;
  -- the entries fit the format, and the remote path is shorter than 2 ^ 16 bytes.
  pub download_directory_lem :
      (levels rounds : ℕ) (host port : Bytes) (flags block_size : ℕ) (remote_path local_dir : Bytes)
      (es : List DirEntry) (behind : Bytes) (w : World N F)
      → All IsEntry es
      → length (listing_bytes es) < 2 ^ 64
      → length remote_path < 2 ^ 16
      → (os.net.connect host port w.net).0 ≡ true
      → stream.incoming (os.net.connect host port w.net).1
        ≡ encode_confirmation (record {
          response_type = recv_type_directory;
          effective_length = length (listing_bytes es);
        })
          ++ (listing_bytes es
              ++ (to_big_endian 8 (count_byte_values (listing_bytes es)) ++ behind))
      → FollowsListing os
          (download_directory os levels rounds host port flags block_size)
          (λ remote local. download_file os rounds host port remote local flags block_size)
          remote_path
          local_dir
          es
          (download_directory os
            (suc levels)
            rounds
            host
            port
            flags
            block_size
            remote_path
            local_dir)
          w
  unfolding download_directory
  download_directory_lem levels rounds host port flags block_size remote_path local_dir es behind w
        fit small short connected holds =
      let conf : Confirmation = record {
        response_type = recv_type_directory;
        effective_length = length (listing_bytes es);
      } in
      let (t, e, left) =
        Post-this (some conf) _ (recv_connect os host port remote_path flags block_size w) (
          recv_connect_lem os stream reliable conf _
            (record { response_type = omega arith; effective_length = small }) host port remote_path
            flags block_size w short connected holds) in
      let same : t.sys ≡ w.sys =
        subst (FixedAfter (λ x. x.sys) w) e
          (recv_connect-Netted os stream host port remote_path flags block_size w) in
      let (u, made, v, allocated, making, e') =
        confirmed-Follows os stream reliable healthy
          (download_directory os levels rounds host port flags block_size)
          (λ remote local. download_file os rounds host port remote local flags block_size)
          remote_path local_dir es fit small behind t left.0 in
      (
        u,
        made,
        v,
        subst (λ f. Allocated os.sys f u.sys) same allocated,
        making,
        bind_ret (recv_connect os host port remote_path flags block_size) _ e ∙ e',
      )
