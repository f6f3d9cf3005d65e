-- ===== src/TtyLoopback/Tests.antt =====
-- A line that is written, and loading of the module.
use testings.Prelude.{false, ℕ, ◌%◌, ◌^◌, ◌<◌, ◌≡◌, ◌⊎◌, refl, true, List, [], ◌∷◌}
use testings.Prelude.Int.{pos, is_nonzero}
use testings.Kernel.Errno.{success}
use testings.Kernel.FlipBuffer.Bounded.{BoundedPort, bounded}
use testings.TtyLoopback.{lb_write}
use testings.TtyLoopback.Setup.{
  nothing, everything, is_device, to_int, comes_to_device, early_error, Answers, lb_probe,
  lb_remove, lb_probe_lem,
}

-- A port with room for three bytes.
abbrev port : BoundedPort
port = record { initialized = true; room = 3; waiting = []; got = [] }

abbrev line : List ℕ
line = 104 ∷ 101 ∷ 108 ∷ 108 ∷ 111 ∷ []

lb_write_run : lb_write bounded line port ≡ (pos 5, record port { got = 104 ∷ 101 ∷ 108 ∷ [] })
unfolding lb_write
lb_write_run = refl

-- Every call succeeds, and the device is at the address 0xffff800012345678.
abbrev all_well : Answers
all_well = record {
  kzalloc = true;
  alloc_driver = true;
  register_driver = success;
  register_device = 18446603336526616184;
}

probe_run : (lb_probe all_well nothing).1 ≡ record nothing { port = true; device = true }
unfolding lb_probe
probe_run = refl

lb_probe_lem_example :
    (comes_to_device all_well ≡ false)
      × (is_nonzero (early_error all_well) ≡ true)
      × (lb_probe all_well nothing ≡ (early_error all_well, nothing))
    ⊎ (comes_to_device all_well ≡ true)
      × (all_well.register_device % 2 ^ 32 ≡ 0)
      × (lb_probe all_well nothing
          ≡ (success, record everything { device = is_device all_well.register_device }))
      × (lb_remove (lb_probe all_well nothing).1 ≡ nothing)
    ⊎ (comes_to_device all_well ≡ true)
      × (0 < all_well.register_device % 2 ^ 32)
      × (is_nonzero (to_int all_well.register_device) ≡ true)
      × (lb_probe all_well nothing ≡ (
        to_int all_well.register_device,
        record nothing { port = true; device = is_device all_well.register_device },
      ))
      × (lb_remove (lb_probe all_well nothing).1 ≡ (lb_probe all_well nothing).1)
lb_probe_lem_example = lb_probe_lem all_well
