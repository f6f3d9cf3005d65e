-- ===== src/SimplePdrv/Contents.antt =====
-- What the buffer holds, and what is read of it.
use testings.Prelude.{
  ℕ, ◌+◌, ◌-◌, ◌≤◌, ◌<◌, ◌≡◌, ◌⊎◌, refl, sym, ap, ◌∙◌, inl, inr, List, ◌++◌, length, get_or, set,
  take, drop, min, arith, length-append, length-set, length-take, length-drop, get_or-set_self,
  take_shorter, take_all, take-set,
}
use testings.Prelude.Int.{pos}
use testings.Kernel.Errno.{efault}
use testings.Kernel.UserBuffer.{UserBuffer}
use testings.SimplePdrv.{SimplePriv, buf_size, new_priv, value_store, new_len, simple_write}

-- The part of the buffer that is read ends before the last byte, and a 0 stands behind it.
pub record IsTerminated (d : SimplePriv) : Type 0 where
  pub size : length d.buf ≡ buf_size
  pub fits : d.len < buf_size
  pub terminator : get_or d.buf d.len 1 ≡ 0

-- What a read can see.
abbrev pub visible : SimplePriv → List ℕ
visible d = take d.len d.buf

pub IsTerminated-new_priv : IsTerminated new_priv
IsTerminated-new_priv = record { size = refl; fits = omega arith; terminator = refl }

-- A terminator behind any beginning of the buffer
terminated :
    (buf : List ℕ) (len : ℕ)
    → length buf ≡ buf_size
    → len < buf_size
    → IsTerminated (record { buf = set buf len 0; len = len })
terminated buf len e h = record {
  size = length-set buf len 0 ∙ e;
  fits = h;
  terminator = get_or-set_self buf len 0 1 (omega arith);
}

pub value_store-IsTerminated :
    (data_in : List ℕ) (d : SimplePriv) → IsTerminated d → IsTerminated (value_store data_in d).1
unfolding value_store
value_store-IsTerminated data_in d t =
    let len = min (length data_in) (buf_size - 1) in
    let e : length (take len data_in ++ drop len d.buf) ≡ buf_size = omega (
      arith,
      length-append (take len data_in) (drop len d.buf),
      length-take len data_in,
      length-drop len d.buf,
      t.size,
    ) in
    terminated (take len data_in ++ drop len d.buf) len e (omega arith)

module _ (U : UserBuffer) where
  open U use {
    User, bytes, write_to, read_from, write_ret, write_ppos, write_moved, write_length,
    write_memory, read_ret, read_ppos, read_moved,
  }

  -- What a write takes of the user's buffer.
  abbrev pub taken : User → ℕ → ℕ → SimplePriv → List ℕ
  taken u count ppos d = (write_to d.buf (buf_size - 1) ppos u count).moved

  pub length-taken :
      (u : User) (count ppos : ℕ) (d : SimplePriv)
      → length (taken u count ppos d) ≤ buf_size - 1 - ppos
  length-taken u count ppos d =
      let w = write_to d.buf (buf_size - 1) ppos u count in
      let n = min count (buf_size - 1 - ppos) in
      omega (
        arith,
        ap length (write_moved d.buf (buf_size - 1) ppos u count),
        length-take (length w.moved) (take n (bytes u)),
        length-take n (bytes u),
      )

  pub simple_write-IsTerminated :
      (u : User) (count ppos : ℕ) (d : SimplePriv)
      → IsTerminated d
      → IsTerminated (simple_write U u count ppos d).2
  unfolding simple_write
  simple_write-IsTerminated u count ppos d t =
      let w = write_to d.buf (buf_size - 1) ppos u count in
      let size = write_length d.buf (buf_size - 1) ppos u count ∙ t.size in
      let below : new_len w.ret d.len < buf_size =
        elim (write_ret d.buf (buf_size - 1) ppos u count) [
          | inl (e, z) ↦ rw e t.fits
          | inr e ↦ rw e (omega (arith, length-taken u count ppos d))
        ] in
      terminated w.memory (new_len w.ret d.len) size below

  -- A write at the position `ppos` returns EFAULT, or the number of the bytes that it takes; then as
  -- many bytes can be read, the first of what was in front of the position and what it took.
  pub simple_write-visible :
      (u : User) (count ppos : ℕ) (d : SimplePriv)
      → IsTerminated d
      → let k = length (taken u count ppos d) in
        ((simple_write U u count ppos d).0 ≡ efault)
        ⊎ ((simple_write U u count ppos d).0 ≡ pos k)
          × (visible (simple_write U u count ppos d).2
              ≡ take k (take ppos d.buf ++ taken u count ppos d))
  unfolding simple_write
  simple_write-visible u count ppos d t =
      let w = write_to d.buf (buf_size - 1) ppos u count in
      let k = length w.moved in
      elim (write_ret d.buf (buf_size - 1) ppos u count) [
        | inl (e, z) ↦ inl e
        | inr e ↦ inr (
          e,
          rw e (
              take-set k k w.memory 0 (omega arith)
              ∙ sym (take_shorter k (ppos + k) w.memory (omega arith))
              ∙ ap (take k)
                  (write_memory d.buf (buf_size - 1) ppos u count (omega (arith, t.size)))),
        )
      ]

  simple_write-ppos :
      (u : User) (count ppos : ℕ) (d : SimplePriv)
      → (simple_write U u count ppos d).1 ≡ ppos + length (taken u count ppos d)
  unfolding simple_write
  simple_write-ppos u count ppos d = write_ppos d.buf (buf_size - 1) ppos u count

  simple_write_len :
      (u : User) (count ppos : ℕ) (d : SimplePriv)
      → (simple_write U u count ppos d).0 ≡ pos (length (taken u count ppos d))
      → (simple_write U u count ppos d).2.len ≡ length (taken u count ppos d)
  unfolding simple_write
  simple_write_len u count ppos d e = ap (λ z. new_len z d.len) e

  -- Two writes by one file, neither of them refused, the second where the first has ended: only as many
  -- bytes as the second took can then be read, and they are the first of what both took.
  pub write_cuts :
      (u v : User) (count more : ℕ) (d : SimplePriv)
      → IsTerminated d
      → let one = simple_write U u count 0 d in
        let xs = taken u count 0 d in
        let ys = taken v more one.1 one.2 in
        (one.0 ≡ efault)
        ⊎ ((simple_write U v more one.1 one.2).0 ≡ efault)
        ⊎ (visible (simple_write U v more one.1 one.2).2 ≡ take (length ys) (xs ++ ys))
  write_cuts u v count more d t =
      let one = simple_write U u count 0 d in
      let xs = taken u count 0 d in
      let ys = taken v more one.1 one.2 in
      elim (simple_write-visible u count 0 d t) [
        | inl e ↦ inl e
        | inr (e, first) ↦
            let position =
              simple_write-ppos u count 0 d ∙ omega arith ∙ sym (simple_write_len u count 0 d e) in
            let whole : take (length xs) xs ≡ xs = take_all (length xs) xs (omega arith) in
            let front : take one.1 one.2.buf ≡ xs =
              ap (λ p. take p one.2.buf) position ∙ first ∙ whole in
            elim (simple_write-visible v more one.1 one.2
              (simple_write-IsTerminated u count 0 d t)) [
                | inl f ↦ inr (inl f)
                | inr (f, second) ↦
                    inr (inr (second ∙ ap (λ zs. take (length ys) (zs ++ ys)) front))
              ]
      ]
