-- ===== src/SimplePdrv/Reads.antt =====
-- What reads get of what is written.
use testings.Prelude.{
  true, drop-length-take, ℕ, ◌+◌, ◌-◌, ◌≤◌, ◌≡◌, refl, sym, ap, ap₂, ◌∙◌, inl, inr, List, [], ◌∷◌,
  ◌++◌, length, take, drop, min, arith, length-append, length-take, take_all, take_sum, drop_sum,
  prefix-take,
}
use testings.Prelude.Int.{pos}
use testings.Kernel.Errno.{efault}
use testings.Kernel.UserBuffer.{UserBuffer}
use testings.SimplePdrv.{SimplePriv, buf_size, simple_read, simple_write}
use testings.SimplePdrv.Contents.{
  IsTerminated, visible, taken, simple_write-visible, simple_write-IsTerminated,
}

no_fault : {n : ℕ} → efault ≡ pos n → ⊥
no_fault h = cc

module _ (U : UserBuffer) where
  open U use {
    User, bytes, accessible, accessible_bytes, write_whole_ret, write_whole, read_ppos, read_moved,
    read_whole,
  }

  -- Reads by one file, each with its buffer and `count`, from the position `ppos` on: all that they get.
  abbrev pub reads : List (User × ℕ) → ℕ → SimplePriv → List ℕ
  reads [] ppos d = []
  reads ((u, n) ∷ rs) ppos d = let r = simple_read U u n ppos d in r.moved ++ reads rs r.ppos d

  pub reads-visible :
      (rs : List (User × ℕ)) (ppos : ℕ) (d : SimplePriv)
      → IsTerminated d
      → reads rs ppos d ≡ take (length (reads rs ppos d)) (drop ppos (visible d))
  reads-visible [] ppos d t = refl
  reads-visible ((u, n) ∷ rs) ppos d t =
      let r = simple_read U u n ppos d in
      let rest = reads rs r.ppos d in
      let seen = drop ppos (visible d) in
      let fits : d.len ≤ length d.buf = omega (arith, t.size, t.fits) in
      let first : r.moved ≡ take (length r.moved) seen =
        prefix-take n r.moved seen (read_moved d.buf d.len ppos u n fits) in
      let second : rest ≡ take (length rest) (drop (length r.moved) seen) =
        reads-visible rs r.ppos d t
        ∙ ap (λ p. take (length rest) (drop p (visible d))) (read_ppos d.buf d.len ppos u n)
        ∙ ap (take (length rest)) (drop_sum ppos (length r.moved) (visible d)) in
      ap₂ ◌++◌ first second
      ∙ sym (take_sum (length r.moved) (length rest) seen)
      ∙ ap (λ k. take k seen) (sym (length-append r.moved rest))

  -- Their buffers can be accessed.
  abbrev pub AllAccessible : List (User × ℕ) → Type 0
  AllAccessible [] = Unit
  AllAccessible ((u, n) ∷ rs) = (accessible u n ≡ true) × AllAccessible rs

  -- How many bytes they ask for.
  abbrev pub asked : List (User × ℕ) → ℕ
  asked [] = 0
  asked ((u, n) ∷ rs) = n + asked rs

  pub reads_whole :
      (rs : List (User × ℕ)) (ppos : ℕ) (d : SimplePriv)
      → IsTerminated d
      → AllAccessible rs
      → reads rs ppos d ≡ take (asked rs) (drop ppos (visible d))
  reads_whole [] ppos d t a = refl
  reads_whole ((u, n) ∷ rs) ppos d t a =
      let r = simple_read U u n ppos d in
      let seen = drop ppos (visible d) in
      let fits : d.len ≤ length d.buf = omega (arith, t.size, t.fits) in
      let first : r.moved ≡ take n seen = read_whole d.buf d.len ppos u n fits a.0 in
      let behind : drop (length r.moved) seen ≡ drop n seen =
        ap (λ xs. drop (length xs) seen) first ∙ drop-length-take n seen in
      let second : reads rs r.ppos d ≡ take (asked rs) (drop n seen) =
        reads_whole rs r.ppos d t a.1
        ∙ ap (λ p. take (asked rs) (drop p (visible d))) (read_ppos d.buf d.len ppos u n)
        ∙ ap (take (asked rs)) (drop_sum ppos (length r.moved) (visible d) ∙ behind) in
      ap₂ ◌++◌ first second ∙ sym (take_sum n (asked rs) seen)

  -- What a write at the start takes of a buffer that can be accessed.
  abbrev pub written : User → ℕ → List ℕ
  written u count = take (min count (buf_size - 1)) (bytes u)

  write_whole_visible :
      (u : User) (count : ℕ) (d : SimplePriv)
      → IsTerminated d
      → accessible u count ≡ true
      → ((simple_write U u count 0 d).0 ≡ pos (length (written u count)))
        × (visible (simple_write U u count 0 d).2 ≡ written u count)
  unfolding simple_write
  write_whole_visible u count d t a =
      let ret = write_whole_ret d.buf (buf_size - 1) 0 u count a in
      let moved : taken U u count 0 d ≡ written u count =
        write_whole d.buf (buf_size - 1) 0 u count a in
      elim (simple_write-visible U u count 0 d t) [
        | inl e ↦
            let clash : efault ≡ pos (length (taken U u count 0 d)) = sym e ∙ ret in
            absurd (no_fault clash)
        | inr (e, v) ↦ (
          e ∙ ap (λ xs. pos (length xs)) moved,
          v ∙ take_all (length (taken U u count 0 d)) (taken U u count 0 d) (omega arith) ∙ moved,
        )
      ]

  -- A write at the start of bytes that can be accessed, and then reads from the start, into buffers that
  -- can be accessed: the write returns how many bytes it was asked to write, but at most 127, and the
  -- reads together get as many of just these bytes as they ask for, in order, or all of them if they ask
  -- for more.
  pub write_reads :
      (u : User) (count : ℕ) (rs : List (User × ℕ)) (d : SimplePriv)
      → IsTerminated d
      → accessible u count ≡ true
      → AllAccessible rs
      → ((simple_write U u count 0 d).0 ≡ pos (min count 127))
        × (reads rs 0 (simple_write U u count 0 d).2
            ≡ take (asked rs) (take (min count 127) (bytes u)))
  write_reads u count rs d t a as_read =
      let w = write_whole_visible u count d t a in
      let all_there : length (written u count) ≡ min count 127 =
        omega (arith, accessible_bytes u count a, length-take (min count 127) (bytes u)) in
      (
        w.0 ∙ ap pos all_there,
        reads_whole rs 0 (simple_write U u count 0 d).2 (simple_write-IsTerminated U u count 0 d t)
              as_read
            ∙ ap (take (asked rs)) w.1,
      )
