-- ===== src/BlockDev/Refine.antt =====
-- The cache of src/block_dev.cc behaves as the disk behind it.
use babyos.Prelude.{ℕ, suc, ◌≡◌, ◌≢◌, refl, ◌∙◌, sym, ap, true, some, List, [], ◌∷◌, arith}
use babyos.BlockDev.{
  BlockDev, plain, plain_run, run, put, init_list, init, release_block, write_request, write,
  Access, fetch, modify, access,
}
use babyos.BlockDev.Held.{IsValid, Held, put_self, put_ne, release_block-IsValid, read-Held}

-- The bytes of the buffer changed and written out.
written-Held :
    (b lba : ℕ) (d : BlockDev) (bytes : ℕ → ℕ)
    → Held b lba d
    → (let d' = write b (record d { bufs = put d.bufs b (record (d.bufs b) { bytes = bytes }) }) in
        Held b lba d' × (d'.disk ≡ put d.disk lba bytes))
unfolding write write_request
written-Held b lba d bytes h =
    let d1 : BlockDev = record d { bufs = put d.bufs b (record (d.bufs b) { bytes = bytes }) } in
    let b1 : (d1.bufs b) ≡ record (d.bufs b) { bytes = bytes } =
      put_self d.bufs b (record (d.bufs b) { bytes = bytes }) in
    let d2 = write_request b d1 in
    let b2 : (d2.bufs b) ≡ record (d1.bufs b) { done = true } =
      put_self d1.bufs b (record (d1.bufs b) { done = true }) in
    let other : (c : ℕ) → c ≢ b → d2.bufs c ≡ d.bufs c = λ c ne.
      put_ne d1.bufs b (record (d1.bufs b) { done = true }) c ne
      ∙ put_ne d.bufs b (record (d.bufs b) { bytes = bytes }) c ne in
    let lba1 : (d1.bufs b).lba ≡ lba = ap (λ x. x.lba) b1 ∙ h.own_lba in
    let lba2 : (d2.bufs b).lba ≡ lba = ap (λ x. x.lba) b2 ∙ lba1 in
    let disk_eq : d2.disk ≡ put d.disk lba bytes =
      ap (λ x. put d.disk x (d1.bufs b).bytes) lba1 ∙ ap (λ x. put d.disk lba x.bytes) b1 in
    (
      record {
        own = record {
          done = ap (λ x. x.done) b2;
          holds =
              ap (λ x. x.bytes) b2
              ∙ ap (λ x. x.bytes) b1
              ∙ sym (put_self d.disk lba bytes)
              ∙ ap (λ f. f lba) (sym disk_eq)
              ∙ ap d2.disk (sym lba2);
        };
        own_lba = lba2;
        cached = λ c m ne. record {
          done = ap (λ x. x.done) (other c ne) ∙ (h.cached c m ne).done;
          holds =
              ap (λ x. x.bytes) (other c ne)
              ∙ (h.cached c m ne).holds
              ∙ sym (put_ne d.disk lba bytes (d.bufs c).lba (h.other_lba c m ne))
              ∙ ap (λ f. f (d.bufs c).lba) (sym disk_eq)
              ∙ ap (λ x. d2.disk x.lba) (sym (other c ne));
        };
        other_lba = λ c m ne q. h.other_lba c m ne (ap (λ x. x.lba) (sym (other c ne)) ∙ q);
        apart = λ c c' m m' ne ne' q.
            h.apart c c' m m' ne ne'
              (ap (λ x. x.lba) (sym (other c ne)) ∙ q ∙ ap (λ x. x.lba) (other c' ne'));
      },
      disk_eq,
    )

access_refines :
    (a : Access) (d : BlockDev)
    → IsValid d
    → (d' : BlockDev) × (access a d ≡ some ((plain a d.disk).0, d'))
      × (d'.disk ≡ (plain a d.disk).1)
      × IsValid d'
unfolding access plain
access_refines (fetch lba) d v =
    let (b, d1, e, h, same) = read-Held lba d v in
    let seen : (d1.bufs b).bytes ≡ d.disk lba =
      h.own.holds ∙ ap d1.disk h.own_lba ∙ ap (λ f. f lba) same in
    (
      release_block b d1,
      rw (e, access) (ap (λ x. some (x, release_block b d1)) seen),
      (unfold release_block in same),
      release_block-IsValid b lba d1 h,
    )
access_refines (modify lba change) d v =
    let (b, d1, e, h, same) = read-Held lba d v in
    let seen : (d1.bufs b).bytes ≡ d.disk lba =
      h.own.holds ∙ ap d1.disk h.own_lba ∙ ap (λ f. f lba) same in
    let (h', disk_eq) = written-Held b lba d1 (change (d1.bufs b).bytes) h in
    let d2 = write b (record d1 {
      bufs = put d1.bufs b (record (d1.bufs b) { bytes = change (d1.bufs b).bytes });
    }) in
    (
      release_block b d2,
      rw (e, access) (ap (λ x. some (x, release_block b d2)) seen),
      (unfold release_block in
          disk_eq
          ∙ ap (λ f. put f lba (change (d1.bufs b).bytes)) same
          ∙ ap (λ x. put d.disk lba (change x)) seen),
      release_block-IsValid b lba d2 h',
    )

-- From a valid device any sequence of accesses, blocks fetched or changed and written, succeeds,
-- shows the caller the same bytes as the disk without the cache, and leaves the same disk behind a
-- valid device.
pub run_refines :
    (accesses : List Access) (d : BlockDev)
    → IsValid d
    → (d' : BlockDev) × (run accesses d ≡ some ((plain_run accesses d.disk).0, d'))
      × (d'.disk ≡ (plain_run accesses d.disk).1)
      × IsValid d'
unfolding run plain_run
run_refines [] d v = (d, refl, refl, v)
run_refines (a ∷ rest) d v =
    let (d1, e, disk1, v1) = access_refines a d v in
    let (d2, e', disk2, v2) = run_refines rest d1 v1 in
    (
      d2,
      rw (e, run, e') (ap (λ x. some ((plain a d.disk).0 ∷ (plain_run rest x).0, d2)) disk1),
      disk2 ∙ ap (λ x. (plain_run rest x).1) disk1,
      v2,
    )

-- A device with at least one buffer is valid after `init`.
pub init-IsValid : (n : ℕ) (disk : ℕ → ℕ → ℕ) → IsValid (init (suc n) disk)
unfolding init init_list
init-IsValid n disk = record {
  cached = λ b m. elim m [ ];
  apart = λ b c m m' q. elim m [ ];
  some_buf = omega arith;
}
