-- ===== src/Fs/Cache/Scatter.antt =====
-- `rw_scattered` and `flushall` of src/fs/cache.c. The array of buffers is a function, sorted in place,
-- and then the list of its elements.
use minix4rt.Base.{
  ℕ, zero, suc, ◌+◌, ◌-◌, ◌*◌, ◌/◌, Bool, true, false, ◌&&◌, some, List, [], ◌∷◌, map, length, ◌==◌,
  ltb, leb, if◌then◌else◌, update,
}
use minix4rt.Fs.Cache.{Buf, Cache, Io, no_dev, nr_bufs, set_buf, put_block}

abbrev pub nr_ioreqs : ℕ
nr_ioreqs = 64

abbrev pub swap : (ℕ → ℕ) → ℕ → ℕ → ℕ → ℕ
swap a i j = update (update a i (a j)) j (a i)

-- The innermost loop, where `p` is `i + gap`; with more fuel than `p`.
unfoldable pub sift : ℕ → ℕ → ℕ → (ℕ → ℕ) → (ℕ → ℕ) → ℕ → ℕ
sift zero gap p key a = a
sift (suc n) gap p key a =
    let rest = sift n gap (p - gap) key (swap a (p - gap) p) in
    if leb gap p && ltb (key (a p)) (key (a (p - gap))) then rest else a

-- The loop over `j`, with the rounds that are left.
unfoldable pub sift_all : ℕ → ℕ → ℕ → (ℕ → ℕ) → (ℕ → ℕ) → ℕ → ℕ
unfolding sift
sift_all zero gap j key a = a
sift_all (suc n) gap j key a = sift_all n gap (suc j) key (sift (suc j) gap j key a)

-- The gaps grow to one above the size and shrink to 1.
unfoldable pub gap_up : ℕ → ℕ → ℕ → ℕ
gap_up zero gap size = gap
gap_up (suc n) gap size =
    let rest = gap_up n (3 * gap + 1) size in if leb (3 * gap + 1) size then rest else 3 * gap + 1

unfoldable pub gap_down : ℕ → ℕ → ℕ → (ℕ → ℕ) → (ℕ → ℕ) → ℕ → ℕ
unfolding sift_all
gap_down zero gap size key a = a
gap_down (suc n) gap size key a =
    let rest =
      gap_down n (gap / 3) size key (sift_all (size - gap / 3) (gap / 3) (gap / 3) key a) in
    if gap == 1 then a else rest

unfoldable pub shell_sort : ℕ → (ℕ → ℕ) → (ℕ → ℕ) → ℕ → ℕ
unfolding gap_up gap_down
shell_sort size key a = gap_down (size + 2) (gap_up (size + 1) 1 size) size key a

-- The elements of an array from `i` on, `n` of them; and the array of a list.
unfoldable pub elements : ℕ → ℕ → (ℕ → ℕ) → List ℕ
elements zero i a = []
elements (suc n) i a = a i ∷ elements n (suc i) a

unfoldable pub array_of : List ℕ → ℕ → ℕ
array_of [] i = 0
array_of (x ∷ l) zero = x
array_of (x ∷ l) (suc i) = array_of l i

-- The first `n` elements, and the rest.
unfoldable pub chunk : ℕ → List ℕ → List ℕ × List ℕ
chunk zero l = ([], l)
chunk (suc n) [] = ([], [])
chunk (suc n) (x ∷ l) = let (a, b) = chunk n l in (x ∷ a, b)

-- `dirty`: the dirty buffers of a device, of `n` from `i` on.
unfoldable pub dirty_of : ℕ → ℕ → ℕ → (ℕ → Buf) → List ℕ
dirty_of zero i dev f = []
dirty_of (suc n) i dev f =
    let rest = dirty_of n (suc i) dev f in
    if (f i).b_dirt && ((f i).b_dev == dev) then i ∷ rest else rest

abbrev pub requests : (ℕ → Buf) → List ℕ → List (ℕ × ℕ)
requests f = map (λ i. ((f i).b_blocknr, (f i).b_data))

module _ {D : Type 0} where
  -- The results of the vector; one that is missing is an error.
  unfoldable pub written : ℕ → Bool → Cache D → Cache D
  written i true s = set_buf s i (record (s.buf i) { b_dirt = false })
  written i false s = set_buf s i (record (s.buf i) { b_dev = no_dev; b_dirt = false })

  unfoldable pub harvest_written : List ℕ → List Bool → Cache D → Cache D
  unfolding written
  harvest_written [] r s = s
  harvest_written (i ∷ l) [] s = harvest_written l [] (written i false s)
  harvest_written (i ∷ l) (b ∷ r) s = harvest_written l r (written i b s)

  abbrev pub sorted_list : List ℕ → Cache D → List ℕ
  sorted_list l s =
      elements (length l) 0 (shell_sort (length l) (λ i. (s.buf i).b_blocknr) (array_of l))

  module _ (io : Io D) where
    unfoldable pub obtained : ℕ → ℕ → Bool × ℕ → Cache D → Cache D
    unfolding put_block
    obtained i dev (ok, x) s =
        put_block io (some i) 6 (
          set_buf s i
            (record (s.buf i) { b_data = x; b_dev = if ok then dev else (s.buf i).b_dev }))

    unfoldable pub harvest_read : ℕ → List ℕ → List (Bool × ℕ) → Cache D → Cache D
    unfolding obtained
    harvest_read dev [] r s = s
    harvest_read dev (i ∷ l) [] s =
        harvest_read dev l [] (obtained i dev (false, (s.buf i).b_data) s)
    harvest_read dev (i ∷ l) (b ∷ r) s = harvest_read dev l r (obtained i dev b s)

    abbrev pub harvest_results : List ℕ → List Bool × D → Cache D → Cache D
    harvest_results l (r, d) s = harvest_written l r (record s { disk = d })

    unfoldable pub write_chunk : ℕ → List ℕ → Cache D → Cache D
    unfolding harvest_written
    write_chunk dev l s = harvest_results l (io.scatter_write dev (requests s.buf l) s.disk) s

    unfoldable pub read_chunk : ℕ → List ℕ → Cache D → Cache D
    unfolding harvest_read
    read_chunk dev l s = harvest_read dev l (io.scatter_read dev (requests s.buf l) s.disk) s

    -- No request is made for an empty chunk.
    unfoldable pub write_some : ℕ → List ℕ → Cache D → Cache D
    unfolding write_chunk
    write_some dev [] s = s
    write_some dev (i ∷ l) s = write_chunk dev (i ∷ l) s

    unfoldable pub read_some : ℕ → List ℕ → Cache D → Cache D
    unfolding read_chunk
    read_some dev [] s = s
    read_some dev (i ∷ l) s = read_chunk dev (i ∷ l) s

    -- The chunks of a list, with as many rounds as elements.
    unfoldable pub write_chunks : ℕ → ℕ → List ℕ × List ℕ → Cache D → Cache D
    unfolding chunk write_some
    write_chunks zero dev (a, b) s = write_some dev a s
    write_chunks (suc n) dev (a, b) s = write_chunks n dev (chunk nr_ioreqs b) (write_some dev a s)

    unfoldable pub read_chunks : ℕ → ℕ → List ℕ × List ℕ → Cache D → Cache D
    unfolding chunk read_some
    read_chunks zero dev (a, b) s = read_some dev a s
    read_chunks (suc n) dev (a, b) s = read_chunks n dev (chunk nr_ioreqs b) (read_some dev a s)

    -- `rw_scattered` with WRITING and with READING.
    unfoldable pub write_scattered : ℕ → List ℕ → Cache D → Cache D
    unfolding shell_sort elements array_of write_chunks
    write_scattered dev l s = write_chunks (length l) dev (chunk nr_ioreqs (sorted_list l s)) s

    unfoldable pub read_scattered : ℕ → List ℕ → Cache D → Cache D
    unfolding shell_sort elements array_of read_chunks
    read_scattered dev l s = read_chunks (length l) dev (chunk nr_ioreqs (sorted_list l s)) s

    unfoldable pub flushall : ℕ → Cache D → Cache D
    unfolding dirty_of write_scattered
    flushall dev s = write_scattered dev (dirty_of nr_bufs 0 dev s.buf) s
