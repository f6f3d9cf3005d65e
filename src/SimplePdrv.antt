-- ===== src/SimplePdrv.antt =====
-- openwrt/kernel/gpt/simple_pdrv_cdev_full.c: a platform driver with a character device and an
-- attribute, both of which give access to one buffer.
pub mod Contents
pub mod Reads
pub mod Text
pub mod System
pub mod Setup
mod Tests
use testings.Prelude.{
  ℕ, zero, suc, ◌-◌, ◌≡◌, Bool, List, [], ◌∷◌, ◌++◌, length, get_or, set, take, drop, replicate,
  min, if◌then◌else◌, ◌==◌,
}
use testings.Prelude.Int.{ℤ, pos, negsuc}
use testings.Kernel.UserBuffer.{UserBuffer, Written, ReadOut}

-- `struct simple_priv`, its buffer
pub record SimplePriv : Type 0 where
  pub buf : List ℕ
  pub len : ℕ

-- `sizeof(priv->buf)`
abbrev pub buf_size : ℕ
buf_size = 128

-- devm_kzalloc
abbrev pub new_priv : SimplePriv
new_priv = record { buf = replicate buf_size 0; len = 0 }

-- The characters before the first 0, which "%s" prints.
abbrev pub c_string : List ℕ → List ℕ
c_string [] = []
c_string (c ∷ cs) = let rest = c_string cs in if c == 0 then [] else c ∷ rest

unfoldable pub value_show : SimplePriv → List ℕ
value_show d = c_string d.buf ++ (10 ∷ [])

-- `data` are the `count` characters at `buf`.
unfoldable pub value_store : List ℕ → SimplePriv → ℕ × SimplePriv
value_store data_in d =
    let len = min (length data_in) (buf_size - 1) in
    (length data_in, record { buf = set (take len data_in ++ drop len d.buf) len 0; len = len })

-- `if (ret >= 0) priv->len = ret`
abbrev pub new_len : ℤ → ℕ → ℕ
new_len (pos n) len = n
new_len (negsuc n) len = len

module _ (U : UserBuffer) where
  open U use {User, write_to, read_from}

  -- What it returns, `*ppos` afterwards, and the bytes that the user gets.
  abbrev pub simple_read : User → ℕ → ℕ → SimplePriv → ReadOut
  simple_read u count ppos d = read_from d.buf d.len ppos u count

  -- What it returns, `*ppos` afterwards, and the buffer.
  unfoldable pub simple_write : User → ℕ → ℕ → SimplePriv → ℤ × ℕ × SimplePriv
  simple_write u count ppos d =
      let w = write_to d.buf (buf_size - 1) ppos u count in
      let len = new_len w.ret d.len in
      (w.ret, w.ppos, record { buf = set w.memory len 0; len = len })
