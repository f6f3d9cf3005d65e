-- ===== src/SoftuartTty/Tests.antt =====
-- A device whose address ends like an error.
use testings.Prelude.{◌≡◌, refl, true, [], ◌∷◌, arith}
use testings.Prelude.Int.{pos}
use testings.Kernel.Errno.{success}
use testings.Kernel.FlipBuffer.Bounded.{BoundedPort, bounded}
use testings.SoftuartTty.{Answers, nothing, everything, suart_probe, suart_write}
use testings.SoftuartTty.Probe.{Ended, suart_probe-Ended}

-- 0xffff8000fffffff8
abbrev unlucky : Answers
unlucky = record {
  alloc_driver = true;
  register_driver = success;
  register_device = 18446603340516163576;
}

unlucky_run : (suart_probe unlucky nothing).1 ≡ record nothing { device = true }
unfolding suart_probe
unlucky_run = refl

-- 0xffff800012345678
abbrev lucky : Answers
lucky = record unlucky { register_device = 18446603336526616184 }

lucky_run : suart_probe lucky nothing ≡ (success, everything)
unfolding suart_probe
lucky_run = refl

suart_probe-Ended_example : Ended unlucky (suart_probe unlucky nothing)
suart_probe-Ended_example = suart_probe-Ended unlucky (omega arith)

abbrev port : BoundedPort
port = record { initialized = true; room = 3; waiting = []; got = [] }

echo_run : suart_write bounded (104 ∷ 105 ∷ []) port ≡ (pos 2, record port { got = 104 ∷ 105 ∷ [] })
unfolding suart_write
echo_run = refl
