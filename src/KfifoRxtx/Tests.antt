-- ===== src/KfifoRxtx/Tests.antt =====
-- The device at concrete states, with fifos of four bytes.
use testings.Prelude.{ℕ, ◌≡◌, refl, Bool, true, false, some, List, [], ◌∷◌, arith}
use testings.Prelude.Int.{pos, negsuc}
use testings.Kernel.Errno.{eagain}
use testings.Kernel.Kfifo.{Kfifo}
use testings.Kernel.Kfifo.Bounded.{list_fifo}
use testings.Kernel.Wait.{woken}
use testings.KfifoRxtx.{
  Mydev, tx_work_fn, write_copy, mydev_open, mydev_read, mydev_write, mydev_poll, mydev_release,
}
use testings.KfifoRxtx.Steps.{
  Reach, start, opened, writes, worked, IsConserving, Reach-IsConserving, tx_work_fn_lem,
}
use testings.KfifoRxtx.Setup.{Answers}
use testings.KfifoRxtx.Calls.{mydev_poll_lem, release_strands}

abbrev four : Kfifo
four = list_fifo 4 (omega arith)

abbrev device : List ℕ → List ℕ → Bool → Mydev four.Fifo
device rx tx work = record {
  rx_fifo = rx;
  tx_fifo = tx;
  open_count = 1;
  irq_held = true;
  tx_work = work;
  hw = 9 ∷ [];
}

tx_work_fn_lem_example :
    ((tx_work_fn four 5 (device [] (1 ∷ 2 ∷ []) true)).hw ≡ 9 ∷ 1 ∷ 2 ∷ [])
    × ((tx_work_fn four 5 (device [] (1 ∷ 2 ∷ []) true)).tx_fifo ≡ [])
unfolding tx_work_fn
tx_work_fn_lem_example = tx_work_fn_lem four (device [] (1 ∷ 2 ∷ []) true)

abbrev closed : Mydev four.Fifo
closed = record {
  rx_fifo = [];
  tx_fifo = [];
  open_count = 0;
  irq_held = false;
  tx_work = false;
  hw = [];
}

-- An open, a write of two bytes, and a run of the work item.
abbrev after : Mydev four.Fifo
after = tx_work_fn four 5 (write_copy four (mydev_open four (pos 0) closed).1 (7 ∷ 8 ∷ []) 2).1

after-Reach : Reach four after (7 ∷ 8 ∷ [])
unfolding mydev_open write_copy
after-Reach =
    worked {d = (write_copy four (mydev_open four (pos 0) closed).1 (7 ∷ 8 ∷ []) 2).1} refl
      (writes (7 ∷ 8 ∷ []) 2 (omega arith) (opened (pos 0) (start [] [] refl)))

Reach-IsConserving_example : IsConserving four after (7 ∷ 8 ∷ [])
Reach-IsConserving_example = Reach-IsConserving four after-Reach

mydev_poll_lem_example :
    (mydev_read four true
        (woken closed)
        (device [] (1 ∷ []) true)
        (device [] (1 ∷ []) true)
        (5 ∷ [])
        3
      ≡ (eagain, device [] (1 ∷ []) true))
    × (mydev_write four true [] (λ x. x) (device [] (1 ∷ []) true) (5 ∷ []) 3
        ≡ some (write_copy four (device [] (1 ∷ []) true) (5 ∷ []) 3))
unfolding mydev_poll
mydev_poll_lem_example =
    mydev_poll_lem four (woken closed) [] (device [] (1 ∷ []) true) (5 ∷ []) 3 (omega arith)

release_strands_example :
    let e = (write_copy four (device [] (1 ∷ []) false) (5 ∷ []) 1).1 in
    (e.tx_work ≡ true)
    × ((mydev_release four e).tx_work ≡ false)
    × ((mydev_release four e).tx_fifo ≡ 1 ∷ 5 ∷ [])
    × ((mydev_release four e).hw ≡ 9 ∷ [])
unfolding mydev_release write_copy
release_strands_example = release_strands four (device [] (1 ∷ []) false) (5 ∷ []) 1 refl refl

-- The device numbers are refused with -EBUSY.
abbrev busy : Answers
busy = record {
  kzalloc = true;
  alloc_rx = pos 0;
  alloc_tx = pos 0;
  gpiod_get = pos 0;
  to_irq = pos 77;
  alloc_region = negsuc 15;
  cdev_add = pos 0;
}
