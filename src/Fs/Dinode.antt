-- ===== src/Fs/Dinode.antt =====
-- `write_to_disk` and `read_from_disk` of src/inode.cc: the inodes on the disk.
use babyos.Prelude.{
  ℕ, zero, suc, ◌+◌, ◌-◌, ◌*◌, ◌/◌, ◌%◌, ◌≤◌, ◌<◌, ◌≡◌, ◌≢◌, refl, ◌∙◌, sym, ap, true, false, ◌==◌,
  if◌then◌else◌, if_true, if_false, ltb, arith, ℕ_discrete, List, [], ◌∷◌, length, get_or, u32_mod,
}
use babyos.BlockDev.Held.{put_self, put_ne}
use babyos.Fs.{
  Disk, Inode, ndirect, byte_of, word, words, half, dinode_byte, write_to_disk, read_from_disk,
}
use babyos.Fs.Bits.{bytes_sum}

-- The fields fit their types.
pub record Fits (inode : Inode) : Type 0 where
  pub type_fits : inode.type < 0x1_0000
  pub major_fits : inode.major < 0x1_0000
  pub minor_fits : inode.minor < 0x1_0000
  pub nlinks_fits : inode.nlinks < 0x1_0000
  pub size_fits : inode.size < u32_mod
  pub thirteen : length inode.addrs ≡ ndirect + 1
  pub addrs_fit : (i : ℕ) → get_or inode.addrs i 0 < u32_mod

-- The block of the inodes after `write_to_disk`: the slot of the inode and the others.
written_block : Inode → Disk → ℕ → ℕ
written_block inode d = write_to_disk inode d (2 + inode.inum / 8)

at_block :
    (inode : Inode) (d : Disk) (j : ℕ)
    → written_block inode d j
      ≡ (if j / 64 == inode.inum % 8 then dinode_byte inode (j % 64) else d (inode.inum / 8 + 2) j)
unfolding written_block write_to_disk
at_block inode d j =
    let same : 2 + inode.inum / 8 ≡ inode.inum / 8 + 2 = omega arith in
    ap (λ x. write_to_disk inode d x j) same ∙ ap (λ g. g j) (put_self d (inode.inum / 8 + 2) _)

slot_byte :
    (inode : Inode) (d : Disk) (j k : ℕ)
    → j ≡ inode.inum % 8 * 64 + k
    → k < 64
    → written_block inode d j ≡ dinode_byte inode k
slot_byte inode d j k e h =
    at_block inode d j
    ∙ if_true _ _ (let t : (j / 64 == inode.inum % 8) ≡ true = ground arith in t)
    ∙ ap (dinode_byte inode) (let q : j % 64 ≡ k = omega arith in q)

half_bytes : (v : ℕ) → v < 0x1_0000 → byte_of 0 v + 256 * byte_of 1 v ≡ v
unfolding byte_of
half_bytes v h = omega arith

-- The bytes of a `disk_inode_t`.
addr_byte :
    (inode : Inode) (i r : ℕ)
    → r < 4
    → dinode_byte inode (12 + 4 * i + r) ≡ byte_of r (get_or inode.addrs i 0)
unfolding dinode_byte
addr_byte inode i r h =
    let k = 12 + 4 * i + r in
    if_false _ _ (let t : ltb k 2 ≡ false = ground arith in t)
    ∙ if_false _ _ (let t : ltb k 4 ≡ false = ground arith in t)
    ∙ if_false _ _ (let t : ltb k 6 ≡ false = ground arith in t)
    ∙ if_false _ _ (let t : ltb k 8 ≡ false = ground arith in t)
    ∙ if_false _ _ (let t : ltb k 12 ≡ false = ground arith in t)
    ∙ ap (λ x. byte_of x (get_or inode.addrs (k / 4 - 3) 0)) (let e : k % 4 ≡ r = omega arith in e)
    ∙ ap (λ x. byte_of r (get_or inode.addrs x 0)) (let e : k / 4 - 3 ≡ i = omega arith in e)

module _ (inode : Inode) (d : Disk) (f : Fits inode) where
  abbrev start : ℕ
  start = inode.inum % 8 * 64

  half_at :
      (v k : ℕ)
      → v < 0x1_0000
      → k < 63
      → dinode_byte inode k ≡ byte_of 0 v
      → dinode_byte inode (k + 1) ≡ byte_of 1 v
      → half (written_block inode d) (start + k) ≡ v
  half_at v k h lt e e' =
      let low = slot_byte inode d (start + k) k refl (omega arith) ∙ e in
      let high = slot_byte inode d (start + k + 1) (k + 1) (omega arith) (omega arith) ∙ e' in
      omega (arith, low, high, half_bytes v h)

  word_at :
      (v i : ℕ)
      → v < u32_mod
      → i < 16
      → ((r : ℕ) → r < 4 → dinode_byte inode (4 * i + r) ≡ byte_of r v)
      → word (written_block inode d) (inode.inum % 8 * 16 + i) ≡ v
  unfolding word
  word_at v i h lt bytes =
      let at = 4 * (inode.inum % 8 * 16 + i) in
      let b0 =
        slot_byte inode d at (4 * i + 0) (omega arith) (omega arith) ∙ bytes 0 (omega arith) in
      let b1 =
        slot_byte inode d (at + 1) (4 * i + 1) (omega arith) (omega arith)
        ∙ bytes 1 (omega arith) in
      let b2 =
        slot_byte inode d (at + 2) (4 * i + 2) (omega arith) (omega arith)
        ∙ bytes 2 (omega arith) in
      let b3 =
        slot_byte inode d (at + 3) (4 * i + 3) (omega arith) (omega arith)
        ∙ bytes 3 (omega arith) in
      omega (arith, b0, b1, b2, b3, bytes_sum v h)

  size_byte : (r : ℕ) → r < 4 → dinode_byte inode (8 + r) ≡ byte_of r inode.size
  unfolding dinode_byte
  size_byte r h =
      let k = 8 + r in
      if_false _ _ (let t : ltb k 2 ≡ false = ground arith in t)
      ∙ if_false _ _ (let t : ltb k 4 ≡ false = ground arith in t)
      ∙ if_false _ _ (let t : ltb k 6 ≡ false = ground arith in t)
      ∙ if_false _ _ (let t : ltb k 8 ≡ false = ground arith in t)
      ∙ if_true _ _ (let t : ltb k 12 ≡ true = ground arith in t)
      ∙ ap (λ x. byte_of x inode.size) (let e : k - 8 ≡ r = omega arith in e)

words_are :
    (xs : List ℕ) (i : ℕ) (block : ℕ → ℕ)
    → ((k : ℕ) → k < length xs → word block (i + k) ≡ get_or xs k 0)
    → words (length xs) i block ≡ xs
unfolding words
words_are [] i block h = refl
words_are (x ∷ xs) i block h =
    let first : word block i ≡ x =
      ap (word block) (let e : i ≡ i + 0 = omega arith in e) ∙ h 0 (omega arith) in
    let rest = words_are xs (i + 1) block (λ k lt.
      ap (word block) (let e : i + 1 + k ≡ i + suc k = omega arith in e)
      ∙ h (suc k) (omega arith)) in
    ap (λ y. y ∷ words (length xs) (i + 1) block) first ∙ ap (λ ys. x ∷ ys) rest

-- A cached inode with what the disk has of it.
abbrev pub loaded : Inode → Inode → Inode
loaded cached inode = record cached {
  type = inode.type;
  major = inode.major;
  minor = inode.minor;
  nlinks = inode.nlinks;
  size = inode.size;
  addrs = inode.addrs;
  valid = 1;
}

same_slot :
    (inode : Inode) (d : Disk) (f : Fits inode) (cached : Inode)
    → cached.valid ≡ 0
    → read_from_disk inode.inum cached (write_to_disk inode d) ≡ loaded cached inode
unfolding read_from_disk written_block dinode_byte
same_slot inode d f cached z =
    let block = written_block inode d in
    let at = inode.inum % 8 * 64 in
    let type : half block at ≡ inode.type =
      ap (half block) (let e : at ≡ at + 0 = omega arith in e)
      ∙ half_at inode d f inode.type 0 f.type_fits (omega arith) refl refl in
    let major : half block (at + 2) ≡ inode.major =
      half_at inode d f inode.major 2 f.major_fits (omega arith) refl refl in
    let minor : half block (at + 4) ≡ inode.minor =
      half_at inode d f inode.minor 4 f.minor_fits (omega arith) refl refl in
    let nlinks : half block (at + 6) ≡ inode.nlinks =
      half_at inode d f inode.nlinks 6 f.nlinks_fits (omega arith) refl refl in
    let size : word block (inode.inum % 8 * 16 + 2) ≡ inode.size =
      word_at inode d f inode.size 2 f.size_fits (omega arith) (λ r h. size_byte inode d f r h) in
    let addrs : words (ndirect + 1) (inode.inum % 8 * 16 + 3) block ≡ inode.addrs =
      ap (λ n. words n (inode.inum % 8 * 16 + 3) block) (sym f.thirteen)
      ∙ words_are inode.addrs (inode.inum % 8 * 16 + 3) block (λ k lt.
        ap (word block)
          (let e : inode.inum % 8 * 16 + 3 + k ≡ inode.inum % 8 * 16 + (3 + k) = omega arith in e)
        ∙ word_at inode d f (get_or inode.addrs k 0) (3 + k) (f.addrs_fit k)
            (omega (arith, f.thirteen))
            (λ r h.
              ap (dinode_byte inode) (let e : 4 * (3 + k) + r ≡ 12 + 4 * k + r = omega arith in e)
              ∙ addr_byte inode k r h)) in
    if_true _ _ (let t : (cached.valid == 0) ≡ true = ground arith in t)
    ∙ rw (type, major, minor, nlinks, size, addrs) refl

-- Reading a slot looks at its 64 bytes.
words_same :
    (n i : ℕ) (block block' : ℕ → ℕ)
    → ((j : ℕ) → 4 * i ≤ j → j < 4 * (i + n) → block j ≡ block' j)
    → words n i block ≡ words n i block'
unfolding words word
words_same zero i block block' h = refl
words_same (suc n) i block block' h =
    let first : word block i ≡ word block' i = omega (
      arith,
      h (4 * i) (omega arith) (omega arith),
      h (4 * i + 1) (omega arith) (omega arith),
      h (4 * i + 2) (omega arith) (omega arith),
      h (4 * i + 3) (omega arith) (omega arith),
    ) in
    ap (λ y. y ∷ words n (i + 1) block) first
    ∙ ap (λ ys. word block' i ∷ ys)
        (words_same n (i + 1) block block' (λ j a b. h j (omega arith) (omega arith)))

word_same :
    (i : ℕ) (block block' : ℕ → ℕ)
    → ((j : ℕ) → 4 * i ≤ j → j < 4 * (i + 1) → block j ≡ block' j)
    → word block i ≡ word block' i
unfolding word
word_same i block block' h = omega (
  arith,
  h (4 * i) (omega arith) (omega arith),
  h (4 * i + 1) (omega arith) (omega arith),
  h (4 * i + 2) (omega arith) (omega arith),
  h (4 * i + 3) (omega arith) (omega arith),
)

half_same :
    (i : ℕ) (block block' : ℕ → ℕ)
    → block i ≡ block' i
    → block (i + 1) ≡ block' (i + 1)
    → half block i ≡ half block' i
half_same i block block' h h' = omega (arith, h, h')

read_from_disk-slot :
    (id : ℕ) (cached : Inode) (d d' : Disk)
    → ((j : ℕ) → j / 64 ≡ id % 8 → d' (2 + id / 8) j ≡ d (2 + id / 8) j)
    → read_from_disk id cached d' ≡ read_from_disk id cached d
unfolding read_from_disk
read_from_disk-slot id cached d d' h =
    let block = d (2 + id / 8) in
    let block' = d' (2 + id / 8) in
    let at = id % 8 * 64 in
    let type : half block' at ≡ half block at =
      half_same at block' block (h at (omega arith)) (h (at + 1) (omega arith)) in
    let major : half block' (at + 2) ≡ half block (at + 2) =
      half_same (at + 2) block' block (h (at + 2) (omega arith)) (h (at + 2 + 1) (omega arith)) in
    let minor : half block' (at + 4) ≡ half block (at + 4) =
      half_same (at + 4) block' block (h (at + 4) (omega arith)) (h (at + 4 + 1) (omega arith)) in
    let nlinks : half block' (at + 6) ≡ half block (at + 6) =
      half_same (at + 6) block' block (h (at + 6) (omega arith)) (h (at + 6 + 1) (omega arith)) in
    let size : word block' (id % 8 * 16 + 2) ≡ word block (id % 8 * 16 + 2) =
      word_same (id % 8 * 16 + 2) block' block (λ j a b. h j (omega arith)) in
    let addrs : words (ndirect + 1) (id % 8 * 16 + 3) block'
        ≡ words (ndirect + 1) (id % 8 * 16 + 3) block =
      words_same (ndirect + 1) (id % 8 * 16 + 3) block' block (λ j a b. h j (omega arith)) in
    rw (type, major, minor, nlinks, size, addrs) refl

-- An inode that fits its types is read back from the disk as it was written, into a cached inode that
-- is not valid; every other inode is read as before.
read_from_disk-write_to_disk :
    (inode : Inode) (d : Disk) (cached : Inode) (other : ℕ)
    → Fits inode
    → cached.valid ≡ 0
    → other ≢ inode.inum
    → (read_from_disk inode.inum cached (write_to_disk inode d) ≡ loaded cached inode)
      × (read_from_disk other cached (write_to_disk inode d) ≡ read_from_disk other cached d)
unfolding write_to_disk
read_from_disk-write_to_disk inode d cached other f z ne = (
  same_slot inode d f cached z,
  read_from_disk-slot other cached d (write_to_disk inode d) (λ j slot.
      elim (ℕ_discrete (2 + other / 8) (inode.inum / 8 + 2)) [
        | no q ↦ ap (λ g. g j) (put_ne d (inode.inum / 8 + 2) _ (2 + other / 8) q)
        | yes q ↦
            ap (λ x. write_to_disk inode d x j) q
            ∙ ap (λ g. g j) (put_self d (inode.inum / 8 + 2) _)
            ∙ if_false _ _
                (let t : (j / 64 == inode.inum % 8) ≡ false = ground (arith, slot, q, ne) in t)
            ∙ ap (λ x. d x j) (sym q)
      ]),
)
