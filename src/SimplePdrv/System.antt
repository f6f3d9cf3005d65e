-- ===== src/SimplePdrv/System.antt =====
-- The device from its creation on.
use testings.Prelude.{
  ℕ, zero, suc, List, [], ◌∷◌, ◌++◌, get_or, ◌≡◌, ap, refl, arith, ◌==◌, if◌then◌else◌,
}
use testings.Kernel.UserBuffer.{UserBuffer}
use testings.SimplePdrv.{SimplePriv, new_priv, c_string, value_store, simple_write}
use testings.SimplePdrv.Contents.{
  IsTerminated, IsTerminated-new_priv, value_store-IsTerminated, simple_write-IsTerminated,
}

-- Stores and writes, in any order; reads change nothing.
pub data Reach (U : UserBuffer) : SimplePriv → Type 0 where
  new : Reach U new_priv
  stores : (data_in : List ℕ) {d : SimplePriv} → Reach U d → Reach U (value_store data_in d).1
  writes :
      (u : U.User) (count ppos : ℕ) {d : SimplePriv}
      → Reach U d
      → Reach U (simple_write U u count ppos d).2

Reach-IsTerminated : (U : UserBuffer) (d : SimplePriv) → Reach U d → IsTerminated d
Reach-IsTerminated U d new = IsTerminated-new_priv
Reach-IsTerminated U d (stores data_in {d = e} r) =
    value_store-IsTerminated data_in e (Reach-IsTerminated U e r)
Reach-IsTerminated U d (writes u count ppos {d = e} r) =
    simple_write-IsTerminated U u count ppos e (Reach-IsTerminated U e r)

c_string-ends : (cs rest : List ℕ) (i : ℕ) → get_or cs i 1 ≡ 0 → c_string (cs ++ rest) ≡ c_string cs
c_string-ends [] rest i e = absurd (omega arith)
c_string-ends (c ∷ cs) rest zero e = rw e refl
c_string-ends (c ∷ cs) rest (suc i) e =
    ap (λ s. if c == 0 then [] else c ∷ s) (c_string-ends cs rest i e)

-- In every state that stores and writes reach, whatever the writes find of their user's buffers, the
-- length that is read is below 128, a 0 stands there in the buffer of 128 bytes, and so value_show does
-- not read what stands behind the buffer.
pub Reach-Shows :
    (U : UserBuffer) (d : SimplePriv) (behind : List ℕ)
    → Reach U d
    → IsTerminated d × (c_string (d.buf ++ behind) ≡ c_string d.buf)
Reach-Shows U d behind r =
    let t = Reach-IsTerminated U d r in (t, c_string-ends d.buf behind d.len t.terminator)
