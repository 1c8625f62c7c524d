-- ===== src/Manager/Writing.antt =====
-- The loop of `write_file` in inode_manager.cc and the padded last block: what they leave in the
-- blocks of the file is the buffer, cut into blocks and filled up with zero bytes.
use cse_yet_another_file_sys.Prelude.{
  ℕ, ◌+◌, ◌-◌, ◌*◌, ◌≤◌, ◌<◌, ◌≡◌, ap, ◌∙◌, subst, List, [], ◌∷◌, arith, done, ◌>>◌, length, take,
  drop, replicate, All, update, append-nil, length-append, length-take, length-drop,
  length-replicate, take_all, drop-drop, All-append, All-take, All-drop, All-replicate, le→leb,
}
use cse_yet_another_file_sys.Bytes.{Bytes, IsByte}
use cse_yet_another_file_sys.Disk.{block_size, BlockManager}
use cse_yet_another_file_sys.Inode.{Inode, IsBlock}
use cse_yet_another_file_sys.Manager.{Call, slice, resize}
use cse_yet_another_file_sys.Manager.Calls.{write_blocks, write_tail}
use cse_yet_another_file_sys.Manager.Access.{
  IsFormatted, with_block, with_block-IsFormatted, write_direct,
}
use cse_yet_another_file_sys.Manager.Loops.{StandAt, StandAt-tail, head_held, head_direct}

-- Block by block, the next 512 bytes of `rest`, filled up.
unfoldable pub store_all : (ℕ → Bytes) → List ℕ → Bytes → ℕ → Bytes
store_all f [] rest = f
store_all f (b ∷ ids) rest =
    store_all (update f b (resize block_size rest)) ids (drop block_size rest)

pub resize-IsBlock : (bytes : Bytes) → All IsByte bytes → IsBlock (resize block_size bytes)
resize-IsBlock bytes h = (
  omega (
    arith,
    length-append (take block_size bytes) (replicate (block_size - length bytes) 0),
    length-take block_size bytes,
    length-replicate {A = ℕ} (block_size - length bytes) 0,
  ),
  All-append IsByte _ _ (All-take IsByte block_size bytes h)
      (All-replicate IsByte (block_size - length bytes) 0 (omega arith)),
)

resize_full :
    (bytes : Bytes) → block_size ≤ length bytes → resize block_size bytes ≡ take block_size bytes
resize_full bytes h =
    let e : block_size - length bytes ≡ 0 = omega arith in rw e (append-nil (take block_size bytes))

slice_lem :
    (buf : Bytes) (off n : ℕ) (s : BlockManager)
    → off + n ≤ length buf
    → slice buf off n s ≡ done (take n (drop off buf), s)
slice_lem buf off n s h = rw (le→leb (off + n) (length buf) h)

write_tail_lem :
    {s : BlockManager} (f : IsFormatted s) (ino : Inode) (buf : Bytes) (n start b : ℕ)
    → n ≡ start + 1
    → StandAt ino start (b ∷ [])
    → block_size * start < length buf
    → length buf ≤ block_size * (start + 1)
    → All IsByte buf
    → write_tail ino buf (length buf) n s
      ≡ done (tt, with_block s b (resize block_size (drop (block_size * start) buf)))
unfolding write_tail
write_tail_lem {s} f ino buf n start b e h lo hi bytes =
    let last : n - 1 ≡ start = omega arith in
    let all : take (block_size - (n * block_size - length buf)) (drop (block_size * start) buf)
        ≡ drop (block_size * start) buf =
      take_all _ _ (omega (arith, length-drop (block_size * start) buf)) in
    let (held, ok) = head_held h in
    rw
      (
        last,
        le→leb (block_size * start + (block_size - (n * block_size - length buf))) (length buf)
            (omega arith),
        all,
      )
      (write_direct f ino start b (head_direct h) held _ ok
        (resize-IsBlock _ (All-drop IsByte (block_size * start) buf bytes)).0)

-- The whole of the writing in `write_file`: the loop over all blocks but the last, and the last.
unfoldable pub write_from : Inode → Bytes → ℕ → ℕ → ℕ → Call Unit
write_from ino buf n start blk_num_new = do
  write_blocks ino buf n start
  write_tail ino buf (length buf) blk_num_new

pub write_from_lem :
    {s : BlockManager} (f : IsFormatted s) (ino : Inode) (buf : Bytes) (start new b : ℕ)
    (ids : List ℕ)
    → StandAt ino start (b ∷ ids)
    → new ≡ start + length ids + 1
    → block_size * (new - 1) < length buf
    → length buf ≤ block_size * new
    → All IsByte buf
    → write_from ino buf (length ids) start new s
      ≡ done (
        tt,
        record s {
          d = record { blocks = store_all s.d.blocks (b ∷ ids) (drop (block_size * start) buf) };
        },
      )
unfolding write_from write_blocks store_all
write_from_lem f ino buf start new b [] h e lo hi bytes =
    write_tail_lem f ino buf new start b (omega arith) h (omega arith) (omega arith) bytes
write_from_lem {s} f ino buf start new b (c ∷ ids) h e lo hi bytes =
    let (held, ok) = head_held h in
    let rest = drop (block_size * start) buf in
    let n : block_size ≤ length rest = omega (arith, length-drop (block_size * start) buf) in
    let full = resize_full rest n in
    let block =
      subst IsBlock full (resize-IsBlock rest (All-drop IsByte (block_size * start) buf bytes)) in
    let sum : block_size * start + block_size ≡ block_size * (start + 1) = omega arith in
    let next : drop block_size rest ≡ drop (block_size * (start + 1)) buf =
      drop-drop block_size (block_size * start) buf ∙ ap (λ k. drop k buf) sum in
    rw
      (
        le→leb (block_size * start + block_size) (length buf) (omega arith),
        full,
        write_direct f ino start b (head_direct h) held (take block_size rest) ok block.0,
        next,
      )
      (write_from_lem {s = with_block s b (take block_size rest)}
        (with_block-IsFormatted f b (take block_size rest) block) ino buf (start + 1) new c ids
        (StandAt-tail h) (omega arith) lo hi bytes)
