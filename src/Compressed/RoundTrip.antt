-- ===== src/Compressed/RoundTrip.antt =====
-- The compressed stream from a file at one end to a file at the other.
use isr.Prelude.{
  ℕ, ◌^◌, ◌≤◌, ◌<◌, ◌≡◌, refl, sym, ap, subst, ◌∙◌, List, [], ◌∷◌, ◌++◌, arith, Bytes, length,
  length-append, append-injective,
}
use isr.Bytes.{count_byte_values}
use isr.Io.{ret, Os, World, Net, Sys}
use isr.Io.Post.{Post, Post-holds}
use isr.Exact.Laws.{StreamLaws, IsReliable, FileLaws, IsHealthy}
use isr.Exact.Send.{sent, stored}
use isr.Exact.Recv.{waiting}
use isr.Transfer.Sums.{add_block_zero}
use isr.Compressed.Format.{Lz4Laws, flatten, AreBlocks, compressed_stream}
use isr.Compressed.Send.{IsPacked, transmit_file_compressed_lem}
use isr.Compressed.Receive.{Unpacked, receive_compressed_stream}
use isr.Compressed.{transmit_file_compressed, receive_file_compressed}

pub length-le-flatten :
    (size : ℕ) (blocks : List Bytes)
    → AreBlocks size blocks
    → length blocks ≤ length (flatten blocks)
length-le-flatten size [] h = omega arith
length-le-flatten size (b ∷ bs) ((pos, small), h) =
    omega (arith, length-le-flatten size bs h, length-append b (flatten bs))

-- Another machine with the same LZ4.
abbrev pub beside : {N F M G : Type 0} → Os N F → Net M → Sys G → Os M G
beside os net sys = record { net = net; sys = sys; lz4 = os.lz4 }

-- If one machine sends a file compressed and returns, and another machine's stream goes on with
-- exactly what the first one sent, then the second, told the file's length and the same block
-- size, returns the same checksum, has stored the file's bytes and has left the rest of its
-- stream alone. Both machines have the same LZ4, which gives back each block that it compressed;
-- both connections and disks are free of failures, the block size is not 0, the file is shorter
-- than 2 ^ 64 bytes, and both loops may make as many rounds as the file has bytes and one more.
pub compressed_round_trip :
    {N F M G : Type 0} (here : Os N F) (net : Net M) (sys : Sys G) (out : StreamLaws here.net)
    (inn : StreamLaws net)
    → IsReliable out
    → IsReliable inn
    → (source : FileLaws here.sys) (target : FileLaws sys) → IsHealthy here.sys
    → IsHealthy sys
    → (size : ℕ) (lz4 : Lz4Laws here.lz4 size)
    → (fuel fuel' fd fd' : ℕ) (w t : World N F) (r : ℕ) (v : World M G) (wire rest : Bytes)
    → 0 < size
    → length (source.unread fd w.sys) < fuel
    → length (source.unread fd w.sys) < fuel'
    → length (source.unread fd w.sys) < 2 ^ 64
    → transmit_file_compressed here fuel fd size w ≡ ret r t
    → sent here out t ≡ sent here out w ++ wire
    → waiting (beside here net sys) inn v ≡ wire ++ rest
    → Post
        (λ r' u.
          (r' ≡ r)
          × (stored (beside here net sys) target fd' u
              ≡ stored (beside here net sys) target fd' v ++ source.unread fd w.sys)
          × (waiting (beside here net sys) inn u ≡ rest))
        (receive_file_compressed
          (beside here net sys)
          fuel'
          fd'
          size
          (length (source.unread fd w.sys))
          v)
compressed_round_trip here net sys out inn rel rel' source target sound sound' size lz4 fuel fuel'
      fd fd' w t r v wire rest pos h h' short run sends arrives =
    let there = beside here net sys in
    let content : Bytes = source.unread fd w.sys in
    let p =
      Post-holds (IsPacked here out rel source sound fd size lz4 0 content w) run
        (transmit_file_compressed_lem here out rel source sound fd size lz4 fuel w pos h) in
    let same : wire ≡ compressed_stream lz4.compressed p.blocks r =
      (append-injective (sent here out w) _ _ _ refl (sym sends ∙ p.out)).1 in
    let sum : r ≡ count_byte_values content = p.result ∙ add_block_zero content in
    let whole : length (flatten p.blocks) ≡ length content = ap length p.whole in
    rw sum (
      subst
        (λ c.
          Post (Unpacked there inn rel' target sound' fd' size lz4 c (count_byte_values c) rest v)
            (receive_file_compressed there fuel' fd' size (length c) v))
        p.whole
        (receive_compressed_stream there inn rel' target sound' fd' size lz4 fuel' p.blocks rest v
          p.are_blocks (omega (arith, length-le-flatten size p.blocks p.are_blocks, whole))
          (omega (arith, whole))
          (arrives
            ∙ ap (λ x. x ++ rest)
                (same
                  ∙ ap (compressed_stream lz4.compressed p.blocks)
                      (sum ∙ ap count_byte_values (sym p.whole))))))
