-- ===== src/SimplePdrv/Tests.antt =====
-- Texts that are written, stored and read.
use testings.Prelude.{min, ℕ, true, List, [], ◌∷◌, ◌++◌, ◌≡◌, ◌⊎◌, refl, length, take}
use testings.Prelude.Int.{ℤ, pos, is_nonzero}
use testings.Kernel.Errno.{success, efault, enomem}
use testings.Kernel.UserBuffer.Plain.{plain}
use testings.SimplePdrv.{SimplePriv, new_priv, c_string, value_store, simple_write}
use testings.SimplePdrv.Contents.{IsTerminated, IsTerminated-new_priv, visible, taken, write_cuts}
use testings.SimplePdrv.Reads.{reads, asked, write_reads}
use testings.SimplePdrv.System.{new, stores, writes, Reach-Shows}
use testings.SimplePdrv.Setup.{
  nothing, everything, Answers, simple_probe, simple_remove, simple_probe_lem,
}

abbrev hello : List ℕ
hello = 104 ∷ 101 ∷ 108 ∷ 108 ∷ 111 ∷ []

abbrev comma : List ℕ
comma = 44 ∷ 32 ∷ []

-- "hello" and then ", " by one file leave "he".
abbrev said : ℤ × ℕ × SimplePriv
said = simple_write plain hello 5 0 new_priv

write_run : visible (simple_write plain comma 2 said.1 said.2).2 ≡ 104 ∷ 101 ∷ []
unfolding simple_write
write_run = refl

read_run : reads plain ((hello, 3) ∷ (hello, 9) ∷ []) 0 said.2 ≡ hello
unfolding simple_write
read_run = refl

write_reads_example :
    ((simple_write plain hello 5 0 new_priv).0 ≡ pos (min 5 127))
    × (reads plain ((hello, 3) ∷ (hello, 5) ∷ []) 0 said.2
        ≡ take (asked plain ((hello, 3) ∷ (hello, 5) ∷ [])) (take (min 5 127) hello))
write_reads_example =
    write_reads plain hello 5 ((hello, 3) ∷ (hello, 5) ∷ []) new_priv IsTerminated-new_priv refl
      (refl, (refl, tt))

write_cuts_example :
    (said.0 ≡ efault)
    ⊎ ((simple_write plain comma 2 said.1 said.2).0 ≡ efault)
    ⊎ (visible (simple_write plain comma 2 said.1 said.2).2
        ≡ take
            (length (taken plain comma 2 said.1 said.2))
            (taken plain hello 5 0 new_priv ++ taken plain comma 2 said.1 said.2))
write_cuts_example = write_cuts plain hello comma 5 2 new_priv IsTerminated-new_priv

abbrev stored_and_written : SimplePriv
stored_and_written = (simple_write plain comma 2 4 (value_store hello new_priv).1).2

Reach-Shows_example :
    IsTerminated stored_and_written
    × (c_string (stored_and_written.buf ++ hello) ≡ c_string stored_and_written.buf)
Reach-Shows_example =
    Reach-Shows plain stored_and_written hello (writes comma 2 4 (stores hello new))

-- The class cannot be made.
abbrev no_class : Answers
no_class = record {
  kzalloc = true;
  alloc_region = success;
  cdev_add = success;
  class_create = enomem;
  device_create = success;
  create_file = success;
}

simple_probe_lem_example :
    (simple_probe no_class nothing ≡ (success, everything))
      × (simple_remove (simple_probe no_class nothing).1 ≡ nothing)
    ⊎ (is_nonzero (simple_probe no_class nothing).0 ≡ true)
      × ((simple_probe no_class nothing).1 ≡ nothing)
simple_probe_lem_example = simple_probe_lem no_class
