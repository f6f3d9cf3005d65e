-- ===== src/KfifoDevice/Tests.antt =====
-- The interrupt is refused.
use testings.Prelude.{true, ◌≡◌, refl}
use testings.Prelude.Int.{pos, negsuc}
use testings.KfifoDevice.Setup.{Answers, nothing, mydev_init}

-- -EBUSY
abbrev busy : Answers
busy = record {
  kzalloc = true;
  gpiod_get = pos 0;
  to_irq = pos 77;
  request_irq = negsuc 15;
  register_chrdev = pos 0;
}

busy_run : mydev_init busy nothing ≡ (negsuc 15, nothing)
unfolding mydev_init
busy_run = refl
